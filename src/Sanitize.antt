-- ===== src/Sanitize.antt =====
-- downloader/sanitize.py. `urlparse` and the SHA-256 digest belong to Python's library and are
-- parameters: `urlparse` is `none` where Python raises `ValueError`. A set of hosts is a list.
use mix_saving_bot.Common.{
  ℕ, String, ◌≡◌, ◌⊎◌, inl, inr, Bool, true, false, not, ◌&&◌, Option, none, some, List, [], ◌∷◌,
  arith, if◌then◌else◌, ◌==◌, Option-cases, string_eq, nat_eq,
}
use Prim.Native.String.{compare, ◌++◌ as ◌+s◌}
use text.Mathlib.Text.{is_le}
use mix_saving_bot.Text.{strip, lower, join, elem}

-- what the program reads of urllib's `ParseResult`
pub record ParsedUrl : Type 0 where
  pub scheme : String
  pub netloc : String
  pub hostname : Option String

pub record UrlLibrary : Type 0 where
  pub urlparse : String → Option ParsedUrl
  -- hashlib.sha256(raw.encode("utf-8")).hexdigest()
  pub sha256_hex : String → String
  -- f"{x!r}"
  pub repr : String → String

pub record DownloadConstraints : Type 0 where
  pub max_duration_sec : ℕ
  pub max_file_size_bytes : ℕ
  pub allowed_hosts : List String

pub data Code : Type 0 where
  invalid_url scheme_unsupported host_not_allowed : Code

pub data Verdict : Type 0 where
  accepted : Verdict
  sanitize_error : Code → String → Verdict
  value_error : Verdict

unfoldable pub normalize_url : String → String
normalize_url raw = strip raw

-- sorted(hosts)
unfoldable pub insert_host : String → List String → List String
insert_host h [] = h ∷ []
insert_host h (k ∷ ks) = if is_le (compare h k) then h ∷ k ∷ ks else k ∷ insert_host h ks

unfoldable pub sort_hosts : List String → List String
unfolding insert_host
sort_hosts [] = []
sort_hosts (h ∷ hs) = insert_host h (sort_hosts hs)

-- (parsed.hostname or "").lower()
abbrev pub host_of : ParsedUrl → String
host_of p = elim p.hostname [ none ↦ "" | some h ↦ lower h ]

abbrev pub is_empty : List String → Bool
is_empty [] = true
is_empty (h ∷ hs) = false

-- the tests on the host
unfoldable pub validate_host : UrlLibrary → String → DownloadConstraints → Verdict
unfolding sort_hosts
validate_host lib host c =
    if host == ""
    then sanitize_error invalid_url "URL has no host."
    else if not (is_empty c.allowed_hosts) && not (elem host c.allowed_hosts)
    then sanitize_error host_not_allowed (
        "Host "
        +s (lib.repr host
            +s (" is not in the allowed list: " +s join ", " (sort_hosts c.allowed_hosts))))
    else accepted

unfoldable pub validate_parsed : UrlLibrary → Option ParsedUrl → DownloadConstraints → Verdict
unfolding validate_host
validate_parsed lib none c = value_error
validate_parsed lib (some p) c =
    if elem p.scheme ("http" ∷ "https" ∷ [])
    then validate_host lib (host_of p) c
    else sanitize_error scheme_unsupported
        ("Only http/https URLs are allowed (got " +s (lib.repr p.scheme +s ")."))

unfoldable pub validate_for_download : UrlLibrary → String → DownloadConstraints → Verdict
unfolding normalize_url validate_parsed
validate_for_download lib url c =
    let trimmed = normalize_url url in
    if trimmed == ""
    then sanitize_error invalid_url "URL is empty."
    else validate_parsed lib (lib.urlparse trimmed) c

unfoldable pub format_id_digest_part : Option String → String
format_id_digest_part none = "default"
format_id_digest_part (some f) = f

unfoldable pub canonical_cache_key : UrlLibrary → String → Option String → String
unfolding normalize_url format_id_digest_part
canonical_cache_key lib source_url format_id =
    lib.sha256_hex (normalize_url source_url +s ("\n" +s format_id_digest_part format_id))

-- the parts of an accepted URL
pub record IsAllowed (lib : UrlLibrary) (url : String) (c : DownloadConstraints) : Type 0 where
  pub parsed : ParsedUrl
  pub is_parsed : lib.urlparse (strip url) ≡ some parsed
  pub is_web : elem parsed.scheme ("http" ∷ "https" ∷ []) ≡ true
  pub has_host : (host_of parsed == "") ≡ false
  pub in_list : (is_empty c.allowed_hosts ≡ true) ⊎ (elem (host_of parsed) c.allowed_hosts ≡ true)

-- A URL that is accepted parses, once stripped, as an http or https URL with a host, and that host,
-- in lower case, is in the list of allowed hosts, unless the list is empty.
pub validate_for_download-IsAllowed :
    (lib : UrlLibrary) (url : String) (c : DownloadConstraints)
    → validate_for_download lib url c ≡ accepted
    → IsAllowed lib url c
unfolding validate_for_download validate_parsed validate_host normalize_url
validate_for_download-IsAllowed lib url c h = elim (Option-cases (lib.urlparse (strip url))) [
  | inl e ↦ ground (arith, h, e)
  | inr (p, e) ↦ record {
    parsed = p;
    is_parsed = e;
    is_web = ground (arith, h, e);
    has_host = ground (arith, h, e);
    in_list = ground (arith, h, e);
  }
]
