-- ===== src/Expiry.antt =====
-- The expiration of sessions: the timer of tools/wave/testing/sessions_manager.py. Dates are
-- milliseconds, and the timer is the delay in milliseconds with which it was started last.
pub mod Deletion
pub mod Purge
use wmas.Prelude.{
  ℕ, ◌-◌, ◌*◌, ◌/◌, String, Bool, true, false, Option, none, some, List, [], ◌∷◌, ltb,
  if◌then◌else◌,
}
use wmas.Prelude.Dict.{Dict}
use wmas.Data.{Session}
use wmas.Exec.{Exec, pure, gets, modify, for_each, ◌>>=◌, ◌>>◌}
use wmas.Server.{Server}
use wmas.Sessions.{delete_session}

-- An expiring session: its token and its date.
abbrev pub Expiring : Type 0
Expiring = String × ℕ

-- `_read_expiring_sessions`
unfoldable pub read_expiring_sessions : Dict Session → List Expiring
read_expiring_sessions [] = []
read_expiring_sessions ((token, session) ∷ d) =
    let rest = read_expiring_sessions d in
    elim session.expiration_date [ none ↦ rest | some date ↦ (session.token, date) ∷ rest ]

-- The loop of `_set_expiration_timer`: the date of the session that expires next.
unfoldable pub next_date : ℕ → List Expiring → ℕ
next_date date [] = date
next_date date ((token, other) ∷ rest) = next_date (if ltb other date then other else date) rest

-- `int(time.time())`, in milliseconds.
abbrev pub whole_seconds : ℕ → ℕ
whole_seconds clock = clock / 1000 * 1000

-- `_set_expiration_timer`; the difference stops at 0, as the code makes it.
unfoldable pub set_expiration_timer : Server → Server
set_expiration_timer server = elim (read_expiring_sessions server.sessions) [
  | [] ↦ server
  | (token, date) ∷ rest ↦ record server {
    expiration_timer = some (next_date date ((token, date) ∷ rest) - whole_seconds server.clock);
  }
]

-- The body of the loop in `_delete_expired_sessions`.
unfoldable pub delete_if_expired : ℕ → Expiring → Exec Server (Unit {0})
delete_if_expired now (token, date) = if ltb date now then delete_session token else pure tt

-- `_delete_expired_sessions`
unfoldable pub delete_expired_sessions : Exec Server (Unit {0})
delete_expired_sessions = do
  expiring ← gets (λ server. read_expiring_sessions server.sessions)
  now ← gets (λ server. whole_seconds server.clock)
  for_each (delete_if_expired now) expiring

-- `handle_timeout`, a function inside of `_set_expiration_timer`
unfoldable pub handle_timeout : Exec Server (Unit {0})
handle_timeout = do delete_expired_sessions; modify set_expiration_timer
