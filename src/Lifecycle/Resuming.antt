-- ===== src/Lifecycle/Resuming.antt =====
-- `resume_session` of tools/wave/testing/sessions_manager.py.
use wmas.Prelude.{
  not, ◌&&◌, Bool-cases, inl, inr, String, true, false, Option, none, ◌≡◌, refl, arith, ◌==◌,
  if◌then◌else◌,
}
use wmas.Prelude.Dict.{get, get-del}
use wmas.Data.{Session, pending, same_status}
use wmas.Exec.{ok, value, after}
use wmas.Server.{Server, resume_event}
use wmas.Events.{dispatch_event}
use wmas.Sessions.{push_session, delete_session}
use wmas.Sessions.Cache.{
  IsCached, IsCached-eq, read_session-cached, push-IsCached, delete_session-cached,
  sessions-push_same,
}
use wmas.Lifecycle.{resume_session}
use wmas.Lifecycle.Calls.{sessions-dispatch}

-- Resuming from a cached session that is pending and private: its clients get the token of the
-- session to resume, and then the session, and no other, is gone from the cache.
pub resume_session-pending :
    {token : String} {session : Session} {server : Server} (resume_token : Option String)
    (j : String)
    → IsCached token session server
    → same_status session.status pending ≡ true
    → session.is_public ≡ false
    → (value (resume_session token resume_token) server ≡ ok tt)
      × (get j (after (resume_session token resume_token) server).sessions
          ≡ (if token == j then none else get j server.sessions))
      × ((after (resume_session token resume_token) server).sent
          ≡ (dispatch_event token (resume_event resume_token) server).sent)
unfolding resume_session push_session dispatch_event
resume_session-pending {token} {session} {server} resume_token j c is_pending private =
    let announced =
      dispatch_event token (resume_event resume_token) (push_session session server) in
    let e : resume_session token resume_token server ≡ delete_session token announced =
      simp (read_session-cached c) (simp is_pending refl) in
    let c' : IsCached token session announced =
      IsCached-eq
        (sessions-dispatch token (resume_event resume_token) (push_session session server))
        (push-IsCached server c.own_token c.counts) in
    let deleted = delete_session-cached c' in
    ground (
      arith,
      e,
      deleted,
      private,
      get-del token j (push_session session announced).sessions,
      sessions-push_same j c,
      sessions-push_same j c',
    )

-- `resume_session` on a cached session, in every case: it returns; for a pending session its
-- clients get the token of the session to resume, and for another one no message is sent; the
-- session is gone from the cache if it is pending and private; every other session stays.
pub resume_session_lem :
    {token : String} {session : Session} {server : Server} (resume_token : Option String)
    (j : String)
    → IsCached token session server
    → (value (resume_session token resume_token) server ≡ ok tt)
      × (get j (after (resume_session token resume_token) server).sessions ≡ (
          if token == j && (same_status session.status pending && not session.is_public)
          then none
          else get j server.sessions))
      × ((after (resume_session token resume_token) server).sent ≡ (
          if same_status session.status pending
          then (dispatch_event token (resume_event resume_token) server).sent
          else server.sent))
unfolding resume_session push_session dispatch_event
resume_session_lem {token} {session} {server} resume_token j c =
    elim (Bool-cases (same_status session.status pending)) [
      | inr started ↦
          let e : resume_session token resume_token server ≡ (ok tt, push_session session server) =
            simp (read_session-cached c) (simp started refl) in
          ground (arith, e, started, sessions-push_same j c)
      | inl is_pending ↦ elim (Bool-cases session.is_public) [
        | inr private ↦
            ground (
              arith,
              is_pending,
              private,
              resume_session-pending resume_token j c is_pending private,
            )
        | inl public ↦
            let announced =
              dispatch_event token (resume_event resume_token) (push_session session server) in
            let e : resume_session token resume_token server ≡ delete_session token announced =
              simp (read_session-cached c) (simp is_pending refl) in
            let c' : IsCached token session announced =
              IsCached-eq
                (sessions-dispatch token (resume_event resume_token) (push_session session server))
                (push-IsCached server c.own_token c.counts) in
            let deleted = delete_session-cached c' in
            ground (
              arith,
              e,
              deleted,
              is_pending,
              public,
              sessions-push_same j c,
              sessions-push_same j c',
            )
      ]
    ]
