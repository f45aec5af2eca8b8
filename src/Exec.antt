-- ===== src/Exec.antt =====
-- Methods that change the server's state and may raise. What was written before a raise stays
-- written, so the state comes back beside an error too.
use wmas.Prelude.{Option, none, some, List, [], ◌∷◌}
use wmas.Data.{Error}

pub data Result {ℓ} (A : Type ℓ) : Type ℓ where
  ok : A → Result A
  raised : Error → Result A

abbrev pub Exec {ℓ} : Type ℓ → Type ℓ → Type ℓ
Exec S A = S → Result A × S

module _ {ℓ} {S A : Type ℓ} where
  abbrev pub pure : A → Exec S A
  pure a s = (ok a, s)

  abbrev pub raise : Error → Exec S A
  raise e s = (raised e, s)

  -- A value that is computed from the state.
  abbrev pub gets : (S → A) → Exec S A
  gets f s = (ok (f s), s)

  -- A pure step that may raise.
  abbrev pub lift : Result A → Exec S A
  lift r s = (r, s)

  -- `d[k]` and attributes of what may be `None`: `none` raises.
  abbrev pub or_raise : Error → Option A → Exec S A
  or_raise e none s = (raised e, s)
  or_raise e (some a) s = (ok a, s)

module _ {ℓ} {S A B : Type ℓ} where
  abbrev pub and_then : Result A → (A → Exec S B) → Exec S B
  and_then (ok a) f s = f a s
  and_then (raised e) f s = (raised e, s)

  infixl 10 ◌>>=◌ ◌>>◌
  abbrev pub ◌>>=◌ : Exec S A → (A → Exec S B) → Exec S B
  ◌>>=◌ m f s = let (r, s') = m s in and_then r f s'

  abbrev pub ◌>>◌ : Exec S A → Exec S B → Exec S B
  m >> n = m >>= λ _. n

abbrev pub modify : {S : Type 0} → (S → S) → Exec S (Unit {0})
modify f s = (ok tt, f s)

-- `for x in xs: body(x)`
unfoldable pub for_each : {S A : Type 0} → (A → Exec S (Unit {0})) → List A → Exec S (Unit {0})
for_each body [] = pure tt
for_each body (x ∷ xs) = body x >> for_each body xs

-- The value of a method, and the state that it leaves.
abbrev pub value {ℓ} : {S A : Type ℓ} → Exec S A → S → Result A
value m s = (m s).0

abbrev pub after {ℓ} : {S A : Type ℓ} → Exec S A → S → S
after m s = (m s).1
