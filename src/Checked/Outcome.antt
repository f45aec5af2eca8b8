-- ===== src/Checked/Outcome.antt =====
-- A property of the value that a function returns, and one of the error that it raises.
use wmas.Prelude.{Bool, true, false, ◌≡◌, refl, subst, if◌then◌else◌, List, [], ◌∷◌, All}
use wmas.Data.{Error}
use wmas.Exec.{Result, ok, raised}
use wmas.Checked.{◌>>=◌, each}

module _ {A : Type 0} where
  abbrev pub Outcome : (Error → Bool) → (A → Type 0) → Result A → Type 0
  Outcome q p (ok a) = p a
  Outcome q p (raised e) = q e ≡ true

  -- The value of a function that has an outcome.
  pub Outcome-value :
      (q : Error → Bool) (p : A → Type 0) (m : Result A) (a : A) → Outcome q p m → m ≡ ok a → p a
  Outcome-value q p m a out e = subst (Outcome q p) e out

  pub Outcome-error :
      (q : Error → Bool) (p : A → Type 0) (m : Result A) (e : Error)
      → Outcome q p m
      → m ≡ raised e
      → q e ≡ true
  Outcome-error q p m e out h = subst (Outcome q p) h out

  -- The value together with its equation.
  pub Outcome-known :
      (q : Error → Bool) (p : A → Type 0) (m : Result A)
      → Outcome q p m
      → Outcome q (λ a. p a × (m ≡ ok a)) m
  Outcome-known q p (ok a) out = (out, refl)
  Outcome-known q p (raised e) out = out

  pub Outcome-if :
      (q : Error → Bool) (p : A → Type 0) (b : Bool) (m n : Result A)
      → (b ≡ true → Outcome q p m)
      → (b ≡ false → Outcome q p n)
      → Outcome q p (if b then m else n)
  Outcome-if q p true m n hm hn = hm refl
  Outcome-if q p false m n hm hn = hn refl

pub Outcome-map :
    {A : Type 0} (q : Error → Bool) (p r : A → Type 0) (m : Result A)
    → Outcome q p m
    → ((a : A) → p a → r a)
    → Outcome q r m
Outcome-map q p r (ok a) h f = f a h
Outcome-map q p r (raised e) h f = h

pub Outcome-bind :
    {A B : Type 0} (q : Error → Bool) (p : A → Type 0) (r : B → Type 0) (m : Result A)
    (f : A → Result B)
    → Outcome q p m
    → ((a : A) → p a → Outcome q r (f a))
    → Outcome q r (m >>= f)
Outcome-bind q p r (ok a) f hm hf = hf a hm
Outcome-bind q p r (raised e) f hm hf = hm

pub Outcome-each :
    {A B : Type 0} (q : Error → Bool) (p : B → Type 0) (f : A → Result B) (xs : List A)
    → ((x : A) → Outcome q p (f x))
    → Outcome q (All p) (each f xs)
unfolding each
Outcome-each q p f [] h = tt
Outcome-each q p f (x ∷ xs) h = Outcome-bind q p (All p) (f x) _ (h x) (λ y hy.
    Outcome-bind q (All p) (All p) (each f xs) _ (Outcome-each q p f xs h) (λ ys hys. (hy, hys)))
