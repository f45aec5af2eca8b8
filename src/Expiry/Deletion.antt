-- ===== src/Expiry/Deletion.antt =====
-- Which session expires next: `_set_expiration_timer` of tools/wave/testing/sessions_manager.py.
use wmas.Prelude.{
  ℕ, ◌≤◌, ◌-◌, String, true, some, List, [], ◌∷◌, ◌≡◌, arith, ltb, if◌then◌else◌, Bool-cases, inl,
  inr, any_of, eqb,
}
use wmas.Server.{Server}
use wmas.Expiry.{Expiring, next_date, read_expiring_sessions, set_expiration_timer, whole_seconds}

next_date-le : (date : ℕ) (rest : List Expiring) → next_date date rest ≤ date
unfolding next_date
next_date-le date [] = omega arith
next_date-le date ((token, other) ∷ rest) =
    ground (arith, next_date-le (if ltb other date then other else date) rest)

-- A bound below every date.
abbrev pub Below : ℕ → List Expiring → Type 0
Below n [] = Unit
Below n ((token, date) ∷ rest) = (n ≤ date) × Below n rest

next_date-Below : (date : ℕ) (rest : List Expiring) → Below (next_date date rest) rest
unfolding next_date
next_date-Below date [] = tt
next_date-Below date ((token, other) ∷ rest) = (
  ground (arith, next_date-le (if ltb other date then other else date) rest),
  next_date-Below (if ltb other date then other else date) rest,
)

next_date-listed :
    (date : ℕ) (rest : List Expiring) (all : List Expiring)
    → any_of (λ (p : Expiring). eqb p.1 date) all ≡ true
    → ((t : String) (d : ℕ)
        → any_of (λ (p : Expiring). eqb p.1 d) rest ≡ true
        → any_of (λ (p : Expiring). eqb p.1 d) all ≡ true)
    → any_of (λ (p : Expiring). eqb p.1 (next_date date rest)) all ≡ true
unfolding next_date any_of
next_date-listed date [] all h sub = h
next_date-listed date ((token, other) ∷ rest) all h sub =
    next_date-listed (if ltb other date then other else date) rest all
      (elim (Bool-cases (ltb other date)) [
        | inl e ↦ simp e (sub token other (ground arith))
        | inr e ↦ simp e h
      ])
      (λ t d g. sub t d (ground (arith, g)))

-- The date `date` is the earliest of the listed dates.
pub record Earliest (date : ℕ) (expiring : List Expiring) : Type 0 where
  pub below : Below date expiring
  pub listed : any_of (λ (p : Expiring). eqb p.1 date) expiring ≡ true

-- Where sessions with an expiration date are cached, `_set_expiration_timer` starts the timer for
-- the earliest of their dates: the delay is that date less the clock's whole seconds, or 0 where
-- that date is over.
pub set_expiration_timer-Earliest :
    (server : Server) (first : Expiring) (rest : List Expiring)
    → read_expiring_sessions server.sessions ≡ first ∷ rest
    → ((set_expiration_timer server).expiration_timer
        ≡ some (next_date first.1 rest - whole_seconds server.clock))
      × Earliest (next_date first.1 rest) (first ∷ rest)
unfolding set_expiration_timer next_date any_of
set_expiration_timer-Earliest server (token, date) rest expiring =
    let same : next_date date ((token, date) ∷ rest) ≡ next_date date rest = ground arith in
    (
      ground (arith, expiring, same),
      record {
        below = (next_date-le date rest, next_date-Below date rest);
        listed =
            next_date-listed date rest ((token, date) ∷ rest) (ground arith)
              (λ t d g. ground (arith, g));
      },
    )
