-- ===== src/Lifecycle.antt =====
-- The life of a session: starting, pausing, stopping, resuming and completing it, in
-- tools/wave/testing/sessions_manager.py.
pub mod Calls
pub mod Resuming
pub mod Statuses
pub mod Transitions
use wmas.Prelude.{
  ℕ, ◌*◌, ◌/◌, String, Bool, true, false, not, ◌&&◌, ◌||◌, Option, none, some, List, [], ◌∷◌,
  if◌then◌else◌,
}
use wmas.Data.{
  attribute_error, Session, Status, paused, running, completed, aborted, pending, same_status,
}
use wmas.Exec.{Exec, pure, raise, gets, modify, or_raise, ◌>>=◌, ◌>>◌}
use wmas.Server.{Server, Event, status_event, resume_event, UserAgent}
use wmas.Events.{dispatch_event}
use wmas.Sessions.{push_session, read_session, delete_session}
use wmas.Persist.{persist_session}

-- The session that `start_session` saves. `int(time.time()) * 1000` is the clock in whole seconds.
unfoldable pub started : ℕ → Session → Session
started clock session =
    if same_status session.status pending
    then record session {
      date_started = some (clock / 1000 * 1000);
      expiration_date = none;
      status = running;
    }
    else record session { status = running }

abbrev announce : Session → Exec Server (Unit {0})
announce session = modify (dispatch_event session.token (status_event session.status))

-- `start_session`
unfoldable pub start_session : String → Exec Server (Unit {0})
start_session token = do
  found ← read_session token
  elim found [
    | none ↦ pure tt
    | some session ↦
        if not (same_status session.status pending) && not (same_status session.status paused)
        then pure tt
        else (do
          clock ← gets (λ server. server.clock)
          modify (push_session (started clock session))
          modify (dispatch_event token (status_event running)))
  ]

-- `pause_session`, for the parser of user agents that `persist_session` needs.
unfoldable pub pause_session : (String → UserAgent) → String → Exec Server (Unit {0})
pause_session parse_agent token = do
  found ← read_session token
  session ← or_raise attribute_error found
  if not (same_status session.status running) then pure tt else (do
    let stopped = record session { status = paused }
    modify (push_session stopped)
    modify (dispatch_event token (status_event paused))
    persist_session parse_agent stopped
    pure tt)

abbrev is_finished : Session → Bool
is_finished session = same_status session.status aborted || same_status session.status completed

-- `stop_session`
unfoldable pub stop_session : String → Exec Server (Unit {0})
stop_session token = do
  found ← read_session token
  session ← or_raise attribute_error found
  clock ← gets (λ server. server.clock)
  if is_finished session then pure tt else (do
    modify (push_session (record session { status = aborted; date_finished = some clock }))
    modify (dispatch_event token (status_event aborted)))

-- `resume_session`
unfoldable pub resume_session : String → Option String → Exec Server (Unit {0})
resume_session token resume_token = do
  found ← read_session token
  session ← or_raise attribute_error found
  if not (same_status session.status pending)
      then pure tt
      else (do modify (dispatch_event token (resume_event resume_token)); delete_session token)

-- `complete_session`
unfoldable pub complete_session : String → Exec Server (Unit {0})
complete_session token = do
  found ← read_session token
  session ← or_raise attribute_error found
  clock ← gets (λ server. server.clock)
  if is_finished session then pure tt else (do
    modify (push_session (record session { status = completed; date_finished = some clock }))
    modify (dispatch_event token (status_event completed)))
