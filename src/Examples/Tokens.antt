-- ===== src/Examples/Tokens.antt =====
-- Sessions that are found, labelled, deleted, created and saved; messages and expiration.
use wmas.Prelude.{
  false, ◌==◌, ◌&&◌, ltb, mem_text, starts_with, text_length, keep, ◌-◌, true, none, some, [], ◌∷◌,
  ◌++◌, ◌≡◌, refl, count, if◌then◌else◌, or_else, any_of,
}
use wmas.Prelude.Dict.{get, keys}
use wmas.Data.{Session, running, pending, attribute_error}
use wmas.Data.Serial.{deserialize_session, info_of, deserialize-info}
use wmas.Exec.{ok, raised, value, after}
use wmas.Server.{Server, status_event, Client}
use wmas.Sessions.{delete_session, find_token, update_labels}
use wmas.Sessions.Find.{find_token_unique}
use wmas.Sessions.Cache.{IsCached, delete_session_lem, update_labels_lem}
use wmas.Events.{dispatch_event, add_session_client, remove_session_client}
use wmas.Events.Delivery.{
  messages, dispatch_event-messages, remove_session_client-add_session_client,
}
use wmas.Expiry.{read_expiring_sessions, set_expiration_timer, next_date, whole_seconds}
use wmas.Expiry.Deletion.{Earliest, set_expiration_timer-Earliest}
use wmas.Files.{read_common_passed_tests}
use wmas.Persist.{persist_session}
use wmas.Persist.Saving.{persist_session_lem}
use wmas.TestList.{all_tests}
use wmas.Configure.{get_tests, create_session}
use wmas.Configure.Creation.{selection, created, get_tests_lem, create_session_lem}
use wmas.Loader.Filter.{selected, named}
use wmas.Tests.Handout.{held}
use wmas.Examples.Sample.{
  env, chrome, css_a, session_in, session, server, server_with, running_tests, state_of, posted,
}

abbrev public_session : Session
public_session = session_in running true (some running_tests)

abbrev public_server : Server
public_server = server_with public_session []

public_IsCached : IsCached "token-1" public_session public_server
unfolding get
public_IsCached = record {
  stored = refl;
  own_token = refl;
  states = ("css", state_of 2) ∷ ("dom", state_of 1) ∷ [];
  counts = refl;
}

session_IsCached : IsCached "token-1" session server
unfolding get
session_IsCached = record {
  stored = refl;
  own_token = refl;
  states = ("css", state_of 2) ∷ ("dom", state_of 1) ∷ [];
  counts = refl;
}

delete_session_lem_example :
    (value (delete_session "token-1") public_server ≡ ok tt)
    × (get "token-1" (after (delete_session "token-1") public_server).sessions
        ≡ get "token-1" public_server.sessions)
    × ((after (delete_session "token-1") public_server).disk ≡ public_server.disk)
delete_session_lem_example = delete_session_lem "token-1" public_IsCached

-- A session whose token has eight characters.
abbrev long_server : Server
long_server = record server {
  sessions = ("fd6a1a2c-0", record session { token = "fd6a1a2c-0" }) ∷ [];
}

abbrev second_client : Client
second_client = record { session_token = "token-1"; id = 2 }

dispatch_event-messages_example :
    (dispatch_event "token-1" (status_event running) (add_session_client second_client server)).sent
    ≡ messages
        (status_event running)
        (or_else (get "token-1" server.clients) [] ++ second_client ∷ [])
      ++ server.sent
dispatch_event-messages_example =
    dispatch_event-messages second_client (status_event running) "token-1" server

remove_session_client-add_session_client_example :
    remove_session_client (some second_client) (add_session_client second_client server)
    ≡ (raised attribute_error, add_session_client second_client server)
remove_session_client-add_session_client_example =
    remove_session_client-add_session_client second_client server

set_expiration_timer-Earliest_example :
    ((set_expiration_timer server).expiration_timer
      ≡ some (next_date 900000 [] - whole_seconds server.clock))
    × Earliest (next_date 900000 []) (("token-1", 900000) ∷ [])
unfolding read_expiring_sessions
set_expiration_timer-Earliest_example =
    set_expiration_timer-Earliest server ("token-1", 900000) [] refl

deserialize-info_example :
    deserialize_session (info_of session)
    ≡ some
        (record session { recent_completed_count = 0; pending_tests = none; running_tests = none })
deserialize-info_example = deserialize-info session

-- Three results came since the last saving, and one is in the cache.
abbrev recent_session : Session
recent_session = record session { recent_completed_count = 3 }

abbrev recent_server : Server
recent_server = record server {
  sessions = ("token-1", recent_session) ∷ [];
  results = ("token-1", ("css", posted css_a ∷ []) ∷ []) ∷ [];
}

recent_IsCached : IsCached "token-1" recent_session recent_server
unfolding get
recent_IsCached = record {
  stored = refl;
  own_token = refl;
  states = ("css", state_of 2) ∷ ("dom", state_of 1) ∷ [];
  counts = refl;
}

persist_session_lem_example :
    (value (persist_session chrome recent_session) recent_server ≡ ok session)
    × IsCached "token-1" session (after (persist_session chrome recent_session) recent_server)
unfolding get
persist_session_lem_example =
    persist_session_lem chrome recent_session recent_server recent_IsCached

get_tests_lem_example :
    (get_tests env ("automatic" ∷ []) ("/css" ∷ []) ("/css/b" ∷ []) ("token-1" ∷ []) server
      ≡ (ok (selection env ("automatic" ∷ []) ("/css" ∷ []) ("/css/b" ∷ []) server), server))
    × (count css_a
          (all_tests (selection env ("automatic" ∷ []) ("/css" ∷ []) ("/css/b" ∷ []) server))
        ≡ (if selected env.re_match ("/css" ∷ []) ("/css/b" ∷ []) css_a
            then named env.re_match
                ("/css" ∷ [])
                ("/css/b" ∷ [])
                css_a
                server.automatic
                server.manual
                ("automatic" ∷ [])
            else 0))
unfolding read_common_passed_tests wmas.Files.read_all_results wmas.Files.read_results
    wmas.Files.filter_results wmas.Results.combine_results_by_api wmas.Results.combine_right
    wmas.Files.load_results get wmas.Results.combine_left wmas.Files.read_from_cache
    wmas.Results.note_sessions wmas.Results.note_apis
get_tests_lem_example =
    get_tests_lem env ("automatic" ∷ []) ("/css" ∷ []) ("/css/b" ∷ []) ("token-1" ∷ []) server css_a
      none ((λ text. refl), tt) ((λ text. refl), tt) refl

abbrev new : Session
new =
    created env "token-9" (("include", "/" ∷ []) ∷ ("exclude", []) ∷ []) ("automatic" ∷ [])
      ("/" ∷ []) [] [] [] [] "Mozilla/5.0" [] server

create_session_lem_example :
    (value
        (create_session env "token-9"
          (("include", "/" ∷ []) ∷ ("exclude", []) ∷ [])
          (some ("automatic" ∷ []))
          []
          []
          []
          "Mozilla/5.0"
          []
          none)
        server
      ≡ ok new)
    × (get "token-9"
          (after
            (create_session env "token-9"
              (("include", "/" ∷ []) ∷ ("exclude", []) ∷ [])
              (some ("automatic" ∷ []))
              []
              []
              []
              "Mozilla/5.0"
              []
              none)
            server).sessions
        ≡ some new)
    × (new.status ≡ pending)
    × (held css_a new.pending_tests new.running_tests ≡ (
        if selected env.re_match ("/" ∷ []) [] css_a
        then named env.re_match
            ("/" ∷ [])
            []
            css_a
            server.automatic
            server.manual
            ("automatic" ∷ [])
        else 0))
unfolding read_common_passed_tests get any_of
create_session_lem_example =
    create_session_lem env "token-9" (("include", "/" ∷ []) ∷ ("exclude", []) ∷ [])
      ("automatic" ∷ []) ("/" ∷ []) [] [] [] [] "Mozilla/5.0" [] server css_a "token-9" none refl
      refl refl ((λ text. refl), tt) tt refl

find_token_unique_example :
    (ltb (text_length "fd6a1a2c") 8 ≡ false)
    × ((mem_text "token-1" (keys long_server.sessions) && starts_with "token-1" "fd6a1a2c")
        ≡ ("fd6a1a2c-0" == "token-1"))
unfolding find_token keep starts_with text_length keys
find_token_unique_example = find_token_unique long_server "fd6a1a2c" "fd6a1a2c-0" "token-1" refl

update_labels_lem_example :
    (value (update_labels "token-1" ("night" ∷ [])) server ≡ ok tt)
    × (get "token-1" (after (update_labels "token-1" ("night" ∷ [])) server).sessions
        ≡ some (record session { labels = "night" ∷ [] }))
update_labels_lem_example = update_labels_lem ("night" ∷ []) "token-1" session_IsCached
