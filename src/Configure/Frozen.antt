-- ===== src/Configure/Frozen.antt =====
-- The configuration of a session that was started: `update_session_configuration` of
-- tools/wave/testing/sessions_manager.py.
use wmas.Prelude.{ℕ, String, false, Option, none, List, ◌≡◌, refl, arith}
use wmas.Prelude.Dict.{Dict, get}
use wmas.Data.{Session, pending, same_status, TestList}
use wmas.Exec.{ok, value, after}
use wmas.Server.{Server, Env}
use wmas.Sessions.{push_session}
use wmas.Sessions.Cache.{IsCached, read_session-cached, sessions-push_same}
use wmas.Configure.{update_session_configuration}

-- For a cached session that is not pending, whatever settings are given:
-- `update_session_configuration` returns `None`, and no entry of the cache of sessions and no
-- file is changed.
pub update_session_configuration-frozen :
    (env : Env) {token : String} {session : Session} {server : Server} (tests : Option TestList)
    (types : Option (List String)) (timeouts : Option (Dict ℕ))
    (reference_tokens webhook_urls : Option (List String)) (j : String)
    → IsCached token session server
    → same_status session.status pending ≡ false
    → (value
          (update_session_configuration env token tests types timeouts reference_tokens
            webhook_urls)
          server
        ≡ ok none)
      × (get j
            (after
              (update_session_configuration env token tests types timeouts reference_tokens
                webhook_urls)
              server).sessions
          ≡ get j server.sessions)
      × ((after
            (update_session_configuration env token tests types timeouts reference_tokens
              webhook_urls)
            server).disk
          ≡ server.disk)
unfolding update_session_configuration push_session
update_session_configuration-frozen env {token} {session} {server} tests types timeouts refs urls j
      c started =
    let e : update_session_configuration env token tests types timeouts refs urls server
        ≡ (ok none, push_session session server) =
      simp (read_session-cached c) (simp started refl) in
    ground (arith, e, sessions-push_same j c)
