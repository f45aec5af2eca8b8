-- ===== src/Lifecycle/Transitions.antt =====
-- Which statuses a cached session takes under the methods of its life: start_session,
-- pause_session, stop_session and complete_session of tools/wave/testing/sessions_manager.py.
use wmas.Prelude.{
  ℕ, String, Bool, true, false, not, some, List, [], ◌∷◌, if◌then◌else◌, ◌≡◌, refl, ◌∙◌, sym, subst,
  Bool-cases, inl, inr,
}
use wmas.Data.{Session, Status, paused, running, completed, aborted, pending, same_status}
use wmas.Exec.{Result, ok, Exec, after, ◌>>◌, pure}
use wmas.Server.{Server, UserAgent, status_event}
use wmas.Sessions.{push_session}
use wmas.Persist.{persist_session}
use wmas.Persist.Flush.{Saved, unsaved, saved, persist_session-cached}
use wmas.Sessions.Cache.{IsCached, IsCached-eq, push-IsCached}
use wmas.Lifecycle.{
  started, start_session, pause_session, stop_session, complete_session, is_finished,
}
use wmas.Lifecycle.Calls.{
  sessions-dispatch, start_session-cached, stop_session-cached, complete_session-cached,
  finish_call_cached, after-then_pure, pause_session-cached, not_startable, finish_call, paused_at,
}
use wmas.Lifecycle.Statuses.{
  Method, Moves, Reach, Reach-moves, complete_method, finished, finished_stays, here, moves,
  new_status, pause_method, start_method, stop_method,
}

pub call : (String → UserAgent) → Method → String → Exec Server (Unit {0})
call parse_agent start_method token = start_session token
call parse_agent pause_method token = pause_session parse_agent token
call parse_agent stop_method token = stop_session token
call parse_agent complete_method token = complete_session token

-- A cached session has a successor in the cache, whose status is `new`.
pub record Becomes (token : String) (new : Status) (server : Server) : Type 0 where
  pub session : Session
  pub cached : IsCached token session server
  pub status : session.status ≡ new

finish-Becomes :
    {token : String} {session : Session} {server : Server} (c : IsCached token session server)
    (idle : Bool) (changed : Session) (status : Status)
    → changed.token ≡ session.token
    → changed.test_state ≡ session.test_state
    → Becomes token
        (if idle then session.status else changed.status)
        (finish_call idle session changed token status server).1
finish-Becomes {session = session} c true changed status own same = record {
  session = session;
  cached = finish_call_cached c true changed status own same;
  status = refl;
}
finish-Becomes c false changed status own same = record {
  session = changed;
  cached = finish_call_cached c false changed status own same;
  status = refl;
}

status-Saved : (s s' : Session) → Saved s s' → s'.status ≡ s.status
status-Saved s s' unsaved = refl
status-Saved s s' saved = refl

pause-Becomes :
    (parse_agent : String → UserAgent) {token : String} {session : Session} {server : Server}
    (c : IsCached token session server) (idle : Bool)
    → Becomes token (if idle then session.status else paused) (
        after
          (λ (s : Server).
            if idle
            then (ok tt, push_session session server)
            else (persist_session parse_agent (record session { status = paused }) >> pure tt)
                (paused_at token session server))
          server)
pause-Becomes parse_agent {session = session} {server = server} c true = record {
  session = session;
  cached = push-IsCached server c.own_token c.counts;
  status = refl;
}
pause-Becomes parse_agent {token} {session} {server} c false =
    let stopped = record session { status = paused } in
    let c' : IsCached token stopped (paused_at token session server) =
      IsCached-eq (sessions-dispatch token (status_event paused) _)
        (push-IsCached (push_session session server) c.own_token c.counts) in
    let (session', cached', same) =
      persist_session-cached parse_agent (paused_at token session server) c' in
    record {
      session = session';
      cached =
          subst (IsCached token session')
            (sym (
              after-then_pure (persist_session parse_agent stopped)
                (paused_at token session server)))
            cached';
      status = status-Saved stopped session' same;
    }

started_fields :
    (clock : ℕ) (s : Session)
    → ((started clock s).token ≡ s.token)
      × ((started clock s).test_state ≡ s.test_state)
      × ((started clock s).status ≡ running)
unfolding started
started_fields clock s = elim (Bool-cases (same_status s.status pending)) [
  | inl e ↦ (simp e refl, simp e refl, simp e refl)
  | inr e ↦ (simp e refl, simp e refl, simp e refl)
]

call-Becomes :
    (parse_agent : String → UserAgent) (method : Method) {token : String} {session : Session}
    {server : Server}
    → IsCached token session server
    → Becomes token
        (new_status method session.status)
        (after (call parse_agent method token) server)
unfolding call
call-Becomes parse_agent start_method {token} {session} {server} c =
    let fields = started_fields server.clock session in
    subst
      (λ (r : Result (Unit {0}) × Server).
        Becomes token (new_status start_method session.status) r.1)
      (sym (start_session-cached c))
      (subst
        (λ (s : Status).
          Becomes token (if not_startable session then session.status else s)
            (finish_call (not_startable session) session (started server.clock session) token
              running server).1)
        fields.2
        (finish-Becomes c (not_startable session) (started server.clock session) running fields.0
          fields.1))
call-Becomes parse_agent pause_method {token} {session} {server} c =
    subst
      (λ (r : Result (Unit {0}) × Server).
        Becomes token (new_status pause_method session.status) r.1)
      (sym (pause_session-cached parse_agent c))
      (pause-Becomes parse_agent c (not (same_status session.status running)))
call-Becomes parse_agent stop_method {token} {session} {server} c =
    subst
      (λ (r : Result (Unit {0}) × Server).
        Becomes token (new_status stop_method session.status) r.1)
      (sym (stop_session-cached c))
      (finish-Becomes c (is_finished session)
        (record session { status = aborted; date_finished = some server.clock }) aborted refl refl)
call-Becomes parse_agent complete_method {token} {session} {server} c =
    subst
      (λ (r : Result (Unit {0}) × Server).
        Becomes token (new_status complete_method session.status) r.1)
      (sym (complete_session-cached c))
      (finish-Becomes c (is_finished session)
        (record session { status = completed; date_finished = some server.clock }) completed refl
        refl)

-- Calls of the methods for one session, one after the other; a call that raises is over.
unfoldable pub calls : (String → UserAgent) → List Method → String → Server → Server
calls parse_agent [] token server = server
calls parse_agent (method ∷ rest) token server =
    calls parse_agent rest token (after (call parse_agent method token) server)

-- A successor in the cache, whose status can follow `old`.
pub record Follows (token : String) (old : Status) (server : Server) : Type 0 where
  pub session : Session
  pub cached : IsCached token session server
  pub reached : Reach old session.status

calls_follow :
    (parse_agent : String → UserAgent) (methods : List Method) {token : String} {session : Session}
    {server : Server} (old : Status)
    → IsCached token session server
    → session.status ≡ old
    → Follows token old (calls parse_agent methods token server)
unfolding calls
calls_follow parse_agent [] {session = session} old c e = record {
  session = session;
  cached = c;
  reached = subst (λ (s : Status). Reach s session.status) e here;
}
calls_follow parse_agent (method ∷ rest) {token} {session} {server} old c e =
    let b = call-Becomes parse_agent method c in
    let f = calls_follow parse_agent rest b.session.status b.cached refl in
    record {
      session = f.session;
      cached = f.cached;
      reached =
          Reach-moves
            (subst (λ (s : Status). Moves s b.session.status) e
              (subst (Moves session.status) (sym b.status) (moves method session.status)))
            f.reached;
    }

-- Whatever calls of start_session, pause_session, stop_session and complete_session a cached
-- session gets, in any order and whether or not they raise, it stays in the cache, and its status
-- has come from the first one only by the transitions of the life of a session.
pub calls_reach :
    (parse_agent : String → UserAgent) (methods : List Method) {token : String} {session : Session}
    {server : Server}
    → IsCached token session server
    → Follows token session.status (calls parse_agent methods token server)
calls_reach parse_agent methods {session = session} c =
    calls_follow parse_agent methods session.status c refl

-- A cached session that is completed or aborted keeps that status, and its place in the cache,
-- under every sequence of calls of start_session, pause_session, stop_session and
-- complete_session.
pub calls-finished :
    (parse_agent : String → UserAgent) (methods : List Method) {token : String} {session : Session}
    {server : Server}
    → IsCached token session server
    → finished session.status ≡ true
    → Becomes token session.status (calls parse_agent methods token server)
unfolding calls
calls-finished parse_agent [] {session = session} c h = record {
  session = session;
  cached = c;
  status = refl;
}
calls-finished parse_agent (method ∷ rest) {token} {session} {server} c h =
    let b = call-Becomes parse_agent method c in
    let same = b.status ∙ finished_stays method session.status h in
    subst (λ (s : Status). Becomes token s (calls parse_agent (method ∷ rest) token server)) same
      (calls-finished parse_agent rest b.cached
        (subst (λ (s : Status). finished s ≡ true) (sym same) h))
