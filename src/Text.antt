-- ===== src/Text.antt =====
-- Python's `str`, as far as the program uses it: `strip`, `lower`, `in`, `split`, slices and joins.
-- `strip` and `isspace` know all of Python's white space. `lower` maps the ASCII letters and leaves
-- every other character as it is.
use mix_saving_bot.Common.{
  ℕ, zero, suc, ◌-◌, ◌≡◌, refl, ap, ◌∙◌, inl, inr, Bool, true, false, ◌&&◌, ◌||◌, List, [], ◌∷◌,
  leb, if◌then◌else◌, ◌==◌, Bool-cases, string_eq, nat_eq,
}
use Prim.Native.Char.{Char, code}
use Prim.Native.String.{String, ◌++◌ as ◌+s◌}

-- str.isspace of one character
abbrev pub is_space : Char → Bool
is_space c =
    let n = code c in
    (leb 9 n && leb n 13)
    || (leb 28 n && leb n 32)
    || n == 133
    || n == 160
    || n == 5760
    || (leb 8192 n && leb n 8202)
    || n == 8232
    || n == 8233
    || n == 8239
    || n == 8287
    || n == 12288

unfoldable pub lstrip : String → String
lstrip String.[] = String.[]
lstrip (String.◌∷◌ c s) = if is_space c then lstrip s else String.◌∷◌ c s

-- what is left of `c` before the stripped rest
abbrev pub keep_before : Char → String → String
keep_before c String.[] = if is_space c then String.[] else String.◌∷◌ c String.[]
keep_before c (String.◌∷◌ d r) = String.◌∷◌ c (String.◌∷◌ d r)

unfoldable pub rstrip : String → String
rstrip String.[] = String.[]
rstrip (String.◌∷◌ c s) = keep_before c (rstrip s)

-- s.strip()
unfoldable pub strip : String → String
unfolding lstrip rstrip
strip s = rstrip (lstrip s)

keep_before_idem :
    (c : Char) (r : String) → rstrip r ≡ r → rstrip (keep_before c r) ≡ keep_before c r
unfolding rstrip
keep_before_idem c String.[] h = elim (Bool-cases (is_space c)) [
  | inl sp ↦ rw sp
  | inr ns ↦ rw (ns, rstrip) (rw (ns, keep_before))
]
keep_before_idem c (String.◌∷◌ d r) h = rw h

rstrip_idem : (s : String) → rstrip (rstrip s) ≡ rstrip s
unfolding rstrip
rstrip_idem String.[] = refl
rstrip_idem (String.◌∷◌ c s) = keep_before_idem c (rstrip s) (rstrip_idem s)

lstrip-keep_before :
    (c : Char) (r : String) → is_space c ≡ false → lstrip (keep_before c r) ≡ keep_before c r
unfolding lstrip
lstrip-keep_before c String.[] h = rw (h, keep_before) (rw h)
lstrip-keep_before c (String.◌∷◌ d r) h = rw h

lstrip-rstrip : (s : String) → lstrip (rstrip (lstrip s)) ≡ rstrip (lstrip s)
unfolding lstrip rstrip
lstrip-rstrip String.[] = refl
lstrip-rstrip (String.◌∷◌ c s) = elim (Bool-cases (is_space c)) [
  | inl sp ↦ rw sp (lstrip-rstrip s)
  | inr ns ↦ rw ns (lstrip-keep_before c (rstrip s) ns)
]

-- Stripping twice is stripping once.
pub strip_idem : (s : String) → strip (strip s) ≡ strip s
unfolding strip
strip_idem s = ap rstrip (lstrip-rstrip s) ∙ rstrip_idem (lstrip s)

-- the letter at a place, or the default beyond the end
abbrev pub char_or : String → ℕ → Char → Char
char_or String.[] n d = d
char_or (String.◌∷◌ c s) zero d = c
char_or (String.◌∷◌ c s) (suc n) d = char_or s n d

abbrev pub lower_char : Char → Char
lower_char c =
    if leb 65 (code c) && leb (code c) 90
    then char_or "abcdefghijklmnopqrstuvwxyz" (code c - 65) c
    else c

-- s.lower()
unfoldable pub lower : String → String
lower String.[] = String.[]
lower (String.◌∷◌ c s) = String.◌∷◌ (lower_char c) (lower s)

-- sep.join(parts)
abbrev pub join : String → List String → String
join sep [] = ""
join sep (p ∷ []) = p
join sep (p ∷ q ∷ rest) = p +s (sep +s join sep (q ∷ rest))

-- s[:n], in characters
abbrev pub prefix : ℕ → String → String
prefix zero s = String.[]
prefix (suc n) String.[] = String.[]
prefix (suc n) (String.◌∷◌ c s) = String.◌∷◌ c (prefix n s)

-- a test of membership in a tuple or a set of texts
abbrev pub elem : String → List String → Bool
elem s [] = false
elem s (t ∷ ts) = s == t || elem s ts

-- s.startswith(p)
abbrev pub starts_with : String → String → Bool
starts_with String.[] s = true
starts_with (String.◌∷◌ c p) String.[] = false
starts_with (String.◌∷◌ c p) (String.◌∷◌ d s) = code c == code d && starts_with p s

-- p in s
unfoldable pub contains : String → String → Bool
contains p String.[] = starts_with p String.[]
contains p (String.◌∷◌ c s) = starts_with p (String.◌∷◌ c s) || contains p s

-- any(p in s for p in ps)
abbrev pub contains_any : List String → String → Bool
contains_any [] s = false
contains_any (p ∷ ps) s = contains p s || contains_any ps s

-- s.endswith(p)
unfoldable pub ends_with : String → String → Bool
ends_with p String.[] = p == ""
ends_with p (String.◌∷◌ c s) = p == String.◌∷◌ c s || ends_with p s

abbrev pub upper_char : Char → Char
upper_char c =
    if leb 97 (code c) && leb (code c) 122
    then char_or "ABCDEFGHIJKLMNOPQRSTUVWXYZ" (code c - 97) c
    else c

-- s.upper()
unfoldable pub upper : String → String
upper String.[] = String.[]
upper (String.◌∷◌ c s) = String.◌∷◌ (upper_char c) (upper s)

-- s or d
abbrev pub or_else : String → String → String
or_else s d = if s == "" then d else s

-- len(s), and s[-n:]
abbrev pub len : String → ℕ
len String.[] = 0
len (String.◌∷◌ c s) = suc (len s)

abbrev pub drop_chars : ℕ → String → String
drop_chars zero s = s
drop_chars (suc n) String.[] = String.[]
drop_chars (suc n) (String.◌∷◌ c s) = drop_chars n s

abbrev pub suffix_of : ℕ → String → String
suffix_of n s = drop_chars (len s - n) s
