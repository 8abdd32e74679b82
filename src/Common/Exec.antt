-- ===== src/Common/Exec.antt =====
-- Python code that reads and writes shared state and may raise: a state and exception monad. What
-- was written before an exception stays written.
use mathlib.Core.Path.{◌≡◌}

pub data Result {ℓ κ} (X : Type ℓ) (A : Type κ) : Type (ℓ ⊔ κ) where
  ok : A → Result X A
  raised : X → Result X A

abbrev pub Exec : Type 0 → Type 0 → Type 0 → Type 0
Exec X S A = S → Result X A × S

module _ {X S A : Type 0} where
  abbrev pub pure : A → Exec X S A
  pure a s = (ok a, s)

  abbrev pub raise : X → Exec X S A
  raise x s = (raised x, s)

  -- try: m finally: f
  abbrev pub finally : Exec X S A → (S → S) → Exec X S A
  finally m f s = let (r, s') = m s in (r, f s')

module _ {X S : Type 0} where
  abbrev pub modify : (S → S) → Exec X S (Unit {0})
  modify f s = (ok tt, f s)

module _ {X S A B : Type 0} where
  abbrev pub then_do : Result X A × S → (A → Exec X S B) → Result X B × S
  then_do (ok a, s) f = f a s
  then_do (raised x, s) f = (raised x, s)

  infixl 5 ◌>>=◌
  abbrev pub ◌>>=◌ : Exec X S A → (A → Exec X S B) → Exec X S B
  ◌>>=◌ m f s = then_do (m s) f

module _ {X S B : Type 0} where
  infixl 5 ◌>>◌
  abbrev pub ◌>>◌ : Exec X S (Unit {0}) → Exec X S B → Exec X S B
  ◌>>◌ m k = m >>= λ _. k

-- What holds after an action that starts in `P`: `Q` with its value, or `E` if it raises.
abbrev pub Post : {X S A : Type 0} → (A → S → Type 0) → (S → Type 0) → Result X A × S → Type 0
Post Q E (ok a, s) = Q a s
Post Q E (raised x, s) = E s

pub record Triple {X S A : Type 0} (P : S → Type 0) (m : Exec X S A) (Q : A → S → Type 0)
    (E : S → Type 0) : Type 0 where
  pub at : (s : S) → P s → Post Q E (m s)

module _ {X S A B : Type 0} {E : S → Type 0} {Q : B → S → Type 0} where
  pub Post-then :
      (R : A → S → Type 0) (r : Result X A × S) (f : A → Exec X S B)
      → Post R E r
      → ((a : A) → Triple (R a) (f a) Q E)
      → Post Q E (then_do r f)
  Post-then R (ok a, s) f h k = (k a).at s h
  Post-then R (raised x, s) f h k = h

module _ {X S A B : Type 0} {P E : S → Type 0} {Q : B → S → Type 0} where
  pub Triple-bind :
      (R : A → S → Type 0) (m : Exec X S A) (f : A → Exec X S B)
      → Triple P m R E
      → ((a : A) → Triple (R a) (f a) Q E)
      → Triple P (m >>= f) Q E
  Triple-bind R m f h k = record { at = λ s p. Post-then R (m s) f (h.at s p) k }

module _ {X S A : Type 0} (Q : A → S → Type 0) where
  pub Post-weaken :
      (E F : S → Type 0) (r : Result X A × S) → ((s : S) → E s → F s) → Post Q E r → Post Q F r
  Post-weaken E F (ok a, s) k h = h
  Post-weaken E F (raised x, s) k h = k s h

module _ {X S A : Type 0} (F : S → Type 0) where
  -- what holds whether the action returns or raises
  pub post_state : (r : Result X A × S) → Post (λ _. F) F r → F r.1
  post_state (ok a, s) h = h
  post_state (raised x, s) h = h

module _ {X S A : Type 0} (F G : S → Type 0) where
  -- a weaker condition on the states in which the action returns
  pub Post-ok :
      (E : S → Type 0)
      → ((s : S) → F s → G s)
      → (r : Result X A × S) → Post (λ _. F) E r
      → Post (λ _. G) E r
  Post-ok E k (ok a, s) h = k s h
  Post-ok E k (raised x, s) h = h

module _ {X S A : Type 0} (F E : S → Type 0) where
  pub post_returned : (r : Result X A × S) {a : A} → r.0 ≡ ok a → Post (λ _. F) E r → F r.1
  post_returned (ok b, s) e h = h
  post_returned (raised x, s) e h = cc

module _ {X S A B : Type 0} where
  -- what returns has come to its last step
  pub then_do-last :
      (r : Result X A × S) (f : A → Exec X S B) {b : B}
      → (then_do r f).0 ≡ ok b
      → (a : A) × ((f a r.1).0 ≡ ok b)
  then_do-last (ok a, s) f h = (a, h)
  then_do-last (raised x, s) f h = cc
