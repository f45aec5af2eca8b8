-- ===== src/Checked.antt =====
-- Functions that may raise, and change no state.
pub mod Outcome
use wmas.Prelude.{Bool, true, false, Option, none, some, ◌≡◌, refl, List, [], ◌∷◌}
use wmas.Data.{Error}
use wmas.Exec.{Result, ok, raised}

infixl 10 ◌>>=◌ ◌>>◌
abbrev pub ◌>>=◌ {ℓ κ} : {A : Type ℓ} {B : Type κ} → Result A → (A → Result B) → Result B
ok a >>= f = f a
raised e >>= f = raised e

abbrev pub ◌>>◌ {ℓ} : {B : Type ℓ} → Result (Unit {0}) → Result B → Result B
m >> k = m >>= λ _. k

-- `if not test: raise e`
abbrev pub require : Bool → Error → Result (Unit {0})
require true e = ok tt
require false e = raised e

-- `none` raises.
abbrev pub or_raised {ℓ} : {A : Type ℓ} → Error → Option A → Result A
or_raised e none = raised e
or_raised e (some a) = ok a

-- `except ValueError: raise ...`, for any error of the body.
abbrev pub instead {ℓ} : {A : Type ℓ} → Error → Result A → Result A
instead e (ok a) = ok a
instead e (raised _) = raised e

-- `[f(x) for x in xs]`; the first error ends it.
unfoldable pub each {ℓ κ} : {A : Type ℓ} {B : Type κ} → (A → Result B) → List A → Result (List B)
each f [] = ok []
each f (x ∷ xs) = do y ← f x; ys ← each f xs; ok (y ∷ ys)
