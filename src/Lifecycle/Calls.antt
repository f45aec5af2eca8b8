-- ===== src/Lifecycle/Calls.antt =====
-- What the methods of the life of a session in tools/wave/testing/sessions_manager.py are on a
-- session that is in the cache.
use wmas.Prelude.{
  String, Bool, true, false, not, ◌&&◌, some, if◌then◌else◌, ◌≡◌, refl, ◌∙◌, Bool-cases, inl, inr,
}
use wmas.Data.{Session, Status, paused, running, completed, aborted, pending, same_status}
use wmas.Exec.{Result, and_then, ok, raised, Exec, after, ◌>>◌, pure}
use wmas.Server.{Server, UserAgent, Event, status_event}
use wmas.Events.{dispatch_event}
use wmas.Sessions.{push_session}
use wmas.Persist.{persist_session}
use wmas.Sessions.Cache.{IsCached, IsCached-eq, read_session-cached, push-IsCached}
use wmas.Lifecycle.{
  started, start_session, pause_session, stop_session, complete_session, is_finished,
}

pub sessions-dispatch :
    (token : String) (event : Event) (server : Server)
    → (dispatch_event token event server).sessions ≡ server.sessions
unfolding dispatch_event
sessions-dispatch token event server = refl

abbrev pub not_startable : Session → Bool
not_startable session =
    not (same_status session.status pending) && not (same_status session.status paused)

-- The two branches of each method, on a cached session.
abbrev pub finish_call :
    Bool → Session → Session → String → Status → Server → Result (Unit {0}) × Server
finish_call idle session changed token status server =
    if idle then (ok tt, push_session session server) else (
      ok tt,
      dispatch_event token (status_event status)
          (push_session changed (push_session session server)),
    )

clock-push :
    (session : Session) (server : Server) → (push_session session server).clock ≡ server.clock
unfolding push_session
clock-push session server = refl

module _ {token : String} {session : Session} {server : Server}
    (c : IsCached token session server) where
  pub start_session-cached :
      start_session token server
      ≡ finish_call
          (not_startable session)
          session
          (started server.clock session)
          token
          running
          server
  unfolding start_session
  start_session-cached = rw (read_session-cached c) (elim (Bool-cases (not_startable session)) [
    | inl e ↦ simp e refl
    | inr e ↦ simp (e, clock-push) refl
  ])

  pub stop_session-cached :
      stop_session token server
      ≡ finish_call
          (is_finished session)
          session
          (record session { status = aborted; date_finished = some server.clock })
          token
          aborted
          server
  unfolding stop_session
  stop_session-cached = rw (read_session-cached c) (elim (Bool-cases (is_finished session)) [
    | inl e ↦ simp e refl
    | inr e ↦ simp (e, clock-push) refl
  ])

  pub complete_session-cached :
      complete_session token server
      ≡ finish_call
          (is_finished session)
          session
          (record session { status = completed; date_finished = some server.clock })
          token
          completed
          server
  unfolding complete_session
  complete_session-cached = rw (read_session-cached c) (elim (Bool-cases (is_finished session)) [
    | inl e ↦ simp e refl
    | inr e ↦ simp (e, clock-push) refl
  ])

  -- What the session is behind one of these calls.
  pub finish_call_cached :
      (idle : Bool) (changed : Session) (status : Status)
      → changed.token ≡ session.token
      → changed.test_state ≡ session.test_state
      → IsCached token
          (if idle then session else changed)
          (finish_call idle session changed token status server).1
  finish_call_cached true changed status own same = push-IsCached server c.own_token c.counts
  finish_call_cached false changed status own same =
      IsCached-eq (sessions-dispatch token (status_event status) _)
        (push-IsCached (push_session session server) (own ∙ c.own_token) (same ∙ c.counts))

pub after-then_pure :
    {A : Type 0} (m : Exec Server A) (server : Server)
    → after (m >> pure tt) server ≡ after m server
after-then_pure {A} m server = go (m server).0
  where
    go : (r : Result A) → (and_then r (λ _. pure tt) (m server).1).1 ≡ (m server).1
    go (ok a) = refl
    go (raised e) = refl

-- The state in which `pause_session` saves a running session.
abbrev pub paused_at : String → Session → Server → Server
paused_at token session server =
    dispatch_event token (status_event paused)
      (push_session (record session { status = paused }) (push_session session server))

pub pause_session-cached :
    (parse_agent : String → UserAgent) {token : String} {session : Session} {server : Server}
    → IsCached token session server
    → pause_session parse_agent token server ≡ (
        if not (same_status session.status running)
        then (ok tt, push_session session server)
        else (persist_session parse_agent (record session { status = paused }) >> pure tt)
            (paused_at token session server))
unfolding pause_session
pause_session-cached parse_agent {session = session} c =
    rw (read_session-cached c) (elim (Bool-cases (same_status session.status running)) [
      | inl e ↦ simp e refl
      | inr e ↦ simp e refl
    ])
