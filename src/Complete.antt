-- ===== src/Complete.antt =====
-- The result of a test arrives: `create_result` of tools/wave/testing/results_manager.py, and the
-- firing of a timer, `_on_test_timeout` of tools/wave/testing/tests_manager.py.
pub mod Ignored
pub mod Effects
pub mod Firing
use wmas.Prelude.{
  ℕ, suc, String, Bool, true, false, not, ◌&&◌, ◌||◌, Option, none, some, List, [], ◌∷◌, ◌==◌, leb,
  if◌then◌else◌, or_else,
}
use wmas.Prelude.Dict.{Dict, get, has, put, keys}
use wmas.Data.{key_error, attribute_error, Session, TestResult, ApiState, RawStatus, name}
use wmas.Exec.{Result, ok, raised, Exec, pure, raise, gets, lift, modify, or_raise, ◌>>=◌, ◌>>◌}
use wmas.Server.{Server, Env}
use wmas.TestList.{api_of}
use wmas.Results.{prepare_result, count_result}
use wmas.Files.{push_to_cache, create_info_file}
use wmas.Sessions.{push_session, read_session, test_in_session, is_test_running, is_api_complete}
use wmas.Persist.{get_json_name, persist_session}
use wmas.Lifecycle.{complete_session}
use wmas.Tests.{complete_test}

-- `_update_test_state`: the counts of the API of the test.
unfoldable pub counted : TestResult → Dict ApiState → Option (Dict ApiState)
counted result states =
    let api = api_of result.test in
    elim (get api states) [
      | none ↦ none
      | some state ↦ some (put api (count_result result state) states)
    ]

unfoldable pub update_test_state : TestResult → Session → Exec Server Session
update_test_state result session = do
  states ← or_raise key_error session.test_state
  states' ← or_raise key_error (counted result states)
  let updated = record session { test_state = some states' }
  modify (push_session updated)
  pure updated

-- The loop over the APIs: are all of them complete?
unfoldable pub all_complete : List String → Session → Result Bool
all_complete [] session = ok true
all_complete (api ∷ apis) session = elim (is_api_complete api session) [
  | raised e ↦ raised e
  | ok complete ↦ elim (all_complete apis session) [
    | raised e ↦ raised e
    | ok others ↦ ok (complete && others)
  ]
]

-- The object of a session after calls that may have changed it.
abbrev current : Session → Server → Session
current session server = or_else (get session.token server.sessions) session

-- The session with one more completed test.
unfoldable pub with_completed : String → Session → Session
with_completed test session = record session {
  last_completed_test = some test;
  recent_completed_count = suc session.recent_completed_count;
}

-- The result that `_on_test_timeout` makes.
abbrev pub timeout_result : String → TestResult
timeout_result test = record {
  test = test;
  status = name "TIMEOUT";
  message = none;
  stack = none;
  tests = none;
  subtests = some (
      (record {
        title = none;
        status = name "TIMEOUT";
        message = none;
        stack = none;
        xstatus = some "SERVERTIMEOUT";
      })
      ∷ []);
}

module _ (env : Env) where
  -- `generate_report`: the external program wptreport, on the directory of the API.
  unfoldable pub generate_report : String → String → Exec Server (Unit {0})
  generate_report token api = do
    get_json_name env.parse_agent token
    modify (λ server. record server { reports = (token, api) ∷ server.reports })

  -- The end of `create_result`, where the API of the test is complete.
  unfoldable pub finish_api : String → String → Session → Exec Server (Unit {0})
  finish_api token api session = do
    generate_report token api
    states ← or_raise attribute_error session.test_state
    all ← lift (all_complete (keys states) session)
    if not all then pure tt else (do
      complete_session token
      session' ← gets (current session)
      create_info_file session')

  -- `create_result` from the first change of the state on.
  unfoldable pub accept_result : String → TestResult → Session → Exec Server (Unit {0})
  accept_result token result session = do
    let test = result.test
    let api = api_of test
    completed ← complete_test test session
    modify (push_to_cache token result)
    counted ← update_test_state result completed
    let noted = with_completed test counted
    modify (push_session noted)
    complete ← lift (is_api_complete api noted)
    saved ←
        if leb env.persisting_interval noted.recent_completed_count || complete
        then persist_session env.parse_agent noted
        else pure noted
    if not complete then pure tt else finish_api token api saved

  -- `create_result`
  unfoldable pub create_result : String → TestResult → Exec Server (Unit {0})
  create_result token posted = do
    result ← or_raise key_error (prepare_result posted)
    found ← read_session token
    elim found [
      | none ↦ pure tt
      | some session ↦ (do
        known ← lift (test_in_session result.test session)
        if not known then pure tt else (do
          running ← lift (is_test_running result.test session)
          if not running then pure tt else accept_result token result session))
    ]

  -- `_on_test_timeout`
  unfoldable pub on_test_timeout : String → String → Exec Server (Unit {0})
  on_test_timeout token test = create_result token (timeout_result test)
