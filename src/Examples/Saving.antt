-- ===== src/Examples/Saving.antt =====
-- Sessions that are saved, read again, resumed, configured and purged; a number in a URL.
use wmas.Prelude.{false, none, some, [], ◌∷◌, ◌≡◌, refl}
use wmas.Prelude.Dict.{get}
use wmas.Data.{Session, pending, same_status}
use wmas.Exec.{ok, value, after}
use wmas.Server.{Server, resume_event}
use wmas.Events.{dispatch_event}
use wmas.Files.{create_info_file}
use wmas.Sessions.{read_session}
use wmas.Sessions.Cache.{IsCached}
use wmas.Sessions.Restart.{restarted, read_back, read_session-restarted}
use wmas.Configure.{update_session_configuration}
use wmas.Configure.Frozen.{update_session_configuration-frozen}
use wmas.Lifecycle.{resume_session}
use wmas.Lifecycle.Resuming.{resume_session_lem}
use wmas.Expiry.{delete_expired_sessions}
use wmas.Expiry.Purge.{AllCached, delete_expired_sessions_lem}
use wmas.Examples.Sample.{env, session, session_in, server, server_with, state_of}

abbrev disk_server : Server
disk_server = record server { disk = ("token-1", record { info = none; apis = [] }) ∷ [] }

read_session-restarted_example :
    (value (create_info_file session) disk_server ≡ ok tt)
    × (value (read_session "token-1") (restarted (after (create_info_file session) disk_server))
        ≡ ok (some (read_back session)))
    × (get "token-1"
          (after
            (read_session "token-1")
            (restarted (after (create_info_file session) disk_server))).sessions
        ≡ some (read_back session))
unfolding get
read_session-restarted_example = read_session-restarted session disk_server refl refl

session_IsCached : IsCached "token-1" session server
unfolding get
session_IsCached = record {
  stored = refl;
  own_token = refl;
  states = ("css", state_of 2) ∷ ("dom", state_of 1) ∷ [];
  counts = refl;
}

update_session_configuration-frozen_example :
    (value
        (update_session_configuration env "token-1" none (some ("manual" ∷ [])) none none none)
        server
      ≡ ok none)
    × (get "token-1"
          (after
            (update_session_configuration env "token-1" none (some ("manual" ∷ [])) none none none)
            server).sessions
        ≡ get "token-1" server.sessions)
    × ((after
          (update_session_configuration env "token-1" none (some ("manual" ∷ [])) none none none)
          server).disk
        ≡ server.disk)
unfolding same_status
update_session_configuration-frozen_example =
    update_session_configuration-frozen env none (some ("manual" ∷ [])) none none none "token-1"
      session_IsCached refl

abbrev waiting_session : Session
waiting_session = session_in pending false (some [])

abbrev new_server : Server
new_server = server_with waiting_session []

new_IsCached : IsCached "token-1" waiting_session new_server
unfolding get
new_IsCached = record {
  stored = refl;
  own_token = refl;
  states = ("css", state_of 2) ∷ ("dom", state_of 1) ∷ [];
  counts = refl;
}

resume_session_lem_example :
    (value (resume_session "token-1" (some "token-0")) new_server ≡ ok tt)
    × (get "token-1" (after (resume_session "token-1" (some "token-0")) new_server).sessions ≡ none)
    × ((after (resume_session "token-1" (some "token-0")) new_server).sent
        ≡ (dispatch_event "token-1" (resume_event (some "token-0")) new_server).sent)
unfolding same_status
resume_session_lem_example = resume_session_lem (some "token-0") "token-1" new_IsCached

-- The clock stands behind the date of expiration.
abbrev late_server : Server
late_server = record new_server { clock = 2000000 }

late_AllCached : AllCached late_server.sessions late_server
unfolding AllCached get
late_AllCached = (
  record {
    stored = refl;
    own_token = refl;
    states = ("css", state_of 2) ∷ ("dom", state_of 1) ∷ [];
    counts = refl;
  },
  tt,
)

delete_expired_sessions_lem_example :
    (value delete_expired_sessions late_server ≡ ok tt)
    × (get "token-1" (after delete_expired_sessions late_server).sessions ≡ none)
unfolding get
delete_expired_sessions_lem_example =
    delete_expired_sessions_lem late_server "token-1" late_AllCached (refl, tt)
