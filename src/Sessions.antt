-- ===== src/Sessions.antt =====
-- The cache of sessions and the sessions on disk: the reading half of
-- tools/wave/testing/sessions_manager.py. A session object is its value in the cache: whatever
-- changes the object writes the cache at the object's token, and a method that goes on after such a
-- call reads the value anew. Tokens are texts, as the handlers pass them, never `None`.
pub mod Cache
pub mod Keeping
pub mod Find
pub mod Restart
use wmas.Prelude.{
  ℕ, suc, String, Bool, true, false, not, ◌&&◌, ◌||◌, Option, none, some, List, [], ◌∷◌, ◌++◌, ◌==◌,
  eqb, ltb, if◌then◌else◌, length, keep, mem_text, starts_with, text_length, or_else, is_some,
  any_of,
}
use wmas.Prelude.Dict.{Dict, get, has, put, del, keys}
use wmas.Data.{
  Error, key_error, attribute_error, type_error, Session, Status, TestList, ApiState, Results,
}
use wmas.Data.Serial.{deserialize_session}
use wmas.Exec.{
  Result, ok, raised, Exec, pure, raise, gets, lift, modify, or_raise, for_each, ◌>>=◌, ◌>>◌,
}
use wmas.Server.{Server, Directory, Env}
use wmas.TestList.{tests_of}
use wmas.Results.{parse_test_state, fresh_state}
use wmas.Files.{load_results, create_info_file}

-- `_push_to_cache`, and `update_session` and `add_session`, which do the same.
unfoldable pub push_session : Session → Server → Server
push_session session server = record server { sessions = put session.token session server.sessions }

abbrev update_session : Session → Exec Server (Unit {0})
update_session session = modify (push_session session)

-- `load_session_info`
unfoldable pub load_session_info : String → Exec Server (Option Session)
load_session_info token server = elim (get token server.disk) [
  | none ↦ pure none server
  | some directory ↦ elim directory.info [
    | none ↦ pure none server
    | some info ↦ elim (deserialize_session info) [
      | none ↦ raise key_error server
      | some session ↦ pure (some session) (push_session session server)
    ]
  ]
]

-- The part of `load_session` behind `load_session_info`: the counts of a session that was saved
-- without them are computed from its results.
unfoldable pub restore_test_state : String → Session → Exec Server (Option Session)
restore_test_state token session = elim session.test_state [
  | some state ↦ (do modify (push_session session); pure (some session))
  | none ↦ do
    results ← gets (λ server. load_results server token)
    let counted = record session { test_state = some (parse_test_state results) }
    modify (push_session counted)
    create_info_file counted
    modify (push_session counted)
    pure (some counted)
]

-- `load_session`
unfoldable pub load_session : String → Exec Server (Option Session)
load_session token = do
  found ← load_session_info token
  elim found [ none ↦ pure none | some session ↦ restore_test_state token session ]

-- A session in the cache that needs no loading.
unfoldable pub usable : Option Session → Option Session
usable none = none
usable (some session) = if is_some session.test_state then some session else none

-- `read_session`
unfoldable pub read_session : String → Exec Server (Option Session)
read_session token = do
  cached ← gets (λ server. usable (get token server.sessions))
  found ← elim cached [ some session ↦ pure (some session) | none ↦ load_session token ]
  elim found [
    | none ↦ pure none
    | some session ↦ (do modify (push_session session); pure (some session))
  ]

-- `read_session_status`
unfoldable pub read_session_status : String → Exec Server (Option Session)
read_session_status token = do
  cached ← gets (λ server. get token server.sessions)
  found ← elim cached [ some session ↦ pure (some session) | none ↦ load_session_info token ]
  elim found [
    | none ↦ pure none
    | some session ↦ do
      complete ← elim session.test_state [
        | some state ↦ pure (some session)
        | none ↦ load_session token
      ]
      elim complete [
        | none ↦ pure none
        | some counted ↦ (do modify (push_session counted); pure (some counted))
      ]
  ]

-- The body of the loop in `load_all_sessions_info`.
unfoldable pub load_info_once : String → Exec Server (Unit {0})
load_info_once token = do
  known ← gets (λ server. has token server.sessions)
  if known then pure tt else (do load_session_info token; pure tt)

-- `load_all_sessions_info`
unfoldable pub load_all_sessions_info : Exec Server (Unit {0})
load_all_sessions_info = do
  tokens ← gets (λ server. keys server.disk)
  for_each load_info_once tokens

-- `load_all_sessions`
unfoldable pub load_all_sessions : Exec Server (Unit {0})
load_all_sessions = do
  tokens ← gets (λ server. keys server.disk)
  for_each (λ token. do load_session token; pure tt) tokens

abbrev public_tokens : Dict Session → List String
public_tokens [] = []
public_tokens ((token, session) ∷ d) =
    let rest = public_tokens d in if session.is_public then token ∷ rest else rest

-- `read_public_sessions`
unfoldable pub read_public_sessions : Exec Server (List String)
read_public_sessions = do load_all_sessions_info; gets (λ server. public_tokens server.sessions)

-- `update_labels`, with labels that are given.
unfoldable pub update_labels : String → List String → Exec Server (Unit {0})
update_labels token labels = do
  found ← read_session token
  elim found [
    | none ↦ pure tt
    | some session ↦
        if session.is_public then pure tt else update_session (record session { labels = labels })
  ]

-- `del self._sessions[token]`
unfoldable pub forget_session : String → Exec Server (Unit {0})
forget_session token server =
    if has token server.sessions
    then pure tt (record server { sessions = del token server.sessions })
    else raise key_error server

-- `delete_session`
unfoldable pub delete_session : String → Exec Server (Unit {0})
delete_session token = do
  found ← read_session token
  elim found [
    | none ↦ pure tt
    | some session ↦ if session.is_public then pure tt else forget_session token
  ]

-- `find_token`
unfoldable pub find_token : Server → String → Option String
find_token server fragment =
    if ltb (text_length fragment) 8
    then none
    else elim (keep (λ token. starts_with token fragment) (keys server.sessions)) [
      | [] ↦ none
      | token ∷ rest ↦ elim rest [ [] ↦ some token | other ∷ others ↦ none ]
    ]

-- `_test_list_contains_test`
unfoldable pub test_list_contains_test : String → TestList → Bool
test_list_contains_test test test_list =
    any_of (λ api. mem_text test (tests_of api test_list)) (keys test_list)

abbrev contains_in : String → Option TestList → Result Bool
contains_in test none = raised attribute_error
contains_in test (some tests) = ok (test_list_contains_test test tests)

-- `test_in_session`
unfoldable pub test_in_session : String → Session → Result Bool
test_in_session test session = elim (contains_in test session.pending_tests) [
  | ok true ↦ ok true
  | ok false ↦ contains_in test session.running_tests
  | raised e ↦ raised e
]

-- `is_test_complete`
unfoldable pub is_test_complete : String → Session → Result Bool
is_test_complete test session = elim (test_in_session test session) [
  | ok b ↦ ok (not b)
  | raised e ↦ raised e
]

-- `is_test_running`
unfoldable pub is_test_running : String → Session → Result Bool
is_test_running test session = contains_in test session.running_tests

-- `is_api_complete`
unfoldable pub is_api_complete : String → Session → Result Bool
is_api_complete api session = elim session.pending_tests [
  | none ↦ raised type_error
  | some pending ↦ if has api pending then ok false else elim session.running_tests [
    | none ↦ raised type_error
    | some running ↦ ok (not (has api running))
  ]
]
