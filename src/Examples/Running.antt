-- ===== src/Examples/Running.antt =====
-- Tests that are handed out and completed, and the calls of a session's life.
use wmas.Prelude.{
  ℕ, ◌+◌, String, Bool, true, false, Option, none, some, List, [], ◌∷◌, ◌++◌, ◌≡◌, ◌≢◌, eq_iff,
  refl, count, or_else, path_parts, mem_text, find_first, any_of,
}
use wmas.Prelude.Dict.{get, has, keys}
use wmas.Data.{Session, running, completed, TestResult, name, type_error, same_status}
use wmas.Exec.{ok, raised, value, after}
use wmas.TestList.{sort_tests, sorted_rows, api_of, tests_of, all_tests, remove_test_from_list}
use wmas.Results.{prepare_result}
use wmas.Results.Statuses.{prepare_result_idem}
use wmas.Files.{read_from_cache}
use wmas.Sessions.{test_list_contains_test}
use wmas.Sessions.Cache.{IsCached}
use wmas.Lifecycle.Statuses.{start_method, pause_method, stop_method, complete_method}
use wmas.Lifecycle.Transitions.{Follows, Becomes, calls, calls_reach, calls-finished}
use wmas.Tests.{next_test, hand_out, complete_test, remove_timer, get_test_timeout}
use wmas.Tests.Handout.{held, handed_out, hand_out-restored, hand_out-moves}
use wmas.Tests.Timeouts.{complete_test-other}
use wmas.Complete.{create_result, on_test_timeout, timeout_result}
use wmas.Complete.Firing.{on_test_timeout-counted}
use wmas.Tests.Choice.{next_test-queue}
use wmas.Results.{count_result}
use wmas.Complete.Ignored.{late_result_dropped}
use wmas.Complete.Effects.{without_running, completed_session, accepted_result}
use wmas.Examples.Sample.{
  dom_x, env, chrome, css_a, css_b, session_in, session, server, server_with, running_tests,
  pending_tests, state_of, timer, other_timer, posted,
}

abbrev session_IsCached : IsCached "token-1" session server
unfolding get
session_IsCached = record {
  stored = refl;
  own_token = refl;
  states = ("css", state_of 2) ∷ ("dom", state_of 1) ∷ [];
  counts = refl;
}

calls_reach_example : Follows "token-1" running (
    calls chrome
      (pause_method ∷ start_method ∷ complete_method ∷ stop_method ∷ [])
      "token-1"
      server)
calls_reach_example =
    calls_reach chrome (pause_method ∷ start_method ∷ complete_method ∷ stop_method ∷ [])
      session_IsCached

abbrev completed_one : Session
completed_one = session_in completed false (some running_tests)

completed_IsCached : IsCached "token-1" completed_one (server_with completed_one [])
unfolding get
completed_IsCached = record {
  stored = refl;
  own_token = refl;
  states = ("css", state_of 2) ∷ ("dom", state_of 1) ∷ [];
  counts = refl;
}

calls-finished_example :
    Becomes "token-1" completed
      (calls chrome (start_method ∷ stop_method ∷ []) "token-1" (server_with completed_one []))
unfolding same_status
calls-finished_example =
    calls-finished chrome (start_method ∷ stop_method ∷ []) completed_IsCached refl

abbrev prepared : String → TestResult
prepared test = record {
  test = test;
  status = name "OK";
  message = none;
  stack = none;
  tests = none;
  subtests = some (
      (record {
        title = some "first";
        status = name "FAIL";
        message = none;
        stack = none;
        xstatus = none;
      })
      ∷ []);
}

late_result_dropped_example :
    (value (create_result env "token-1" (posted css_b)) server ≡ ok tt)
    × (get "token-1" (after (create_result env "token-1" (posted css_b)) server).sessions
        ≡ get "token-1" server.sessions)
    × ((after (create_result env "token-1" (posted css_b)) server).results ≡ server.results)
    × ((after (create_result env "token-1" (posted css_b)) server).timeouts ≡ server.timeouts)
    × ((after (create_result env "token-1" (posted css_b)) server).disk ≡ server.disk)
    × ((after (create_result env "token-1" (posted css_b)) server).sent ≡ server.sent)
unfolding prepare_result test_list_contains_test wmas.Results.move_tests
    wmas.Results.prepare_subtests wmas.Results.subtest_status wmas.Results.harness_status any_of
    keys mem_text get
late_result_dropped_example =
    late_result_dropped env (posted css_b) (prepared css_b) session_IsCached refl refl refl
      "token-1" refl

accepted_result_example :
    (value (create_result env "token-1" (posted css_a)) server ≡ ok tt)
    × (get "token-1" (after (create_result env "token-1" (posted css_a)) server).sessions
        ≡ some (
            completed_session
              (prepared css_a)
              running_tests
              (("css", state_of 2) ∷ ("dom", state_of 1) ∷ [])
              (state_of 2)
              session))
    × (get
          (api_of css_a)
          (read_from_cache (after (create_result env "token-1" (posted css_a)) server) "token-1")
        ≡ some (
            or_else (get (api_of css_a) (read_from_cache server "token-1")) []
            ++ prepared css_a ∷ []))
    × ((after (create_result env "token-1" (posted css_a)) server).timeouts
        ≡ remove_timer css_a server.timeouts)
    × ((after (create_result env "token-1" (posted css_a)) server).disk ≡ server.disk)
unfolding prepare_result test_list_contains_test find_first get has api_of wmas.Results.move_tests
    wmas.Results.prepare_subtests wmas.Results.subtest_status wmas.Results.harness_status any_of
    keys mem_text path_parts
accepted_result_example =
    accepted_result env (posted css_a) (prepared css_a) session_IsCached refl refl refl refl refl
      refl refl refl "token-1"

abbrev restored : Session
restored = session_in running false none

hand_out-restored_example :
    (value (hand_out env restored pending_tests css_b) server ≡ raised type_error)
    × (get "token-1" (after (hand_out env restored pending_tests css_b) server).sessions
        ≡ some
            (record restored { pending_tests = some (remove_test_from_list pending_tests css_b) }))
hand_out-restored_example = hand_out-restored env restored pending_tests css_b server refl

hand_out-moves_example :
    (value (hand_out env session pending_tests css_b) server ≡ ok (some css_b))
    × (get "token-1" (after (hand_out env session pending_tests css_b) server).sessions
        ≡ some (handed_out session pending_tests running_tests css_b))
    × (held css_b
          (handed_out session pending_tests running_tests css_b).pending_tests
          (handed_out session pending_tests running_tests css_b).running_tests
        ≡ held css_b (some pending_tests) (some running_tests))
    × ((after (hand_out env session pending_tests css_b) server).timeouts
        ≡ server.timeouts ++ (record { test = css_b; token = "token-1"; millis = 60000 }) ∷ [])
unfolding get_test_timeout mem_text get api_of find_first wmas.Prelude.starts_with
    wmas.Prelude.without_char wmas.TestList.is_manual wmas.Prelude.contains_text path_parts
    wmas.Tests.match_timeout
hand_out-moves_example =
    hand_out-moves css_b env session pending_tests running_tests css_b 60000 server refl refl
      (refl, (refl, tt)) refl refl

other_token : other_timer.token ≢ timer.token
other_token h = let e : false ≡ true = (eq_iff other_timer.token timer.token).1 h in cc

complete_test-other_example :
    (value (complete_test css_a session) (server_with session (other_timer ∷ timer ∷ []))
      ≡ ok (without_running css_a running_tests session))
    × ((after
          (complete_test css_a session)
          (server_with session (other_timer ∷ timer ∷ []))).timeouts
        ≡ timer ∷ [])
complete_test-other_example =
    complete_test-other css_a session {other = other_timer}
      (server_with session (other_timer ∷ timer ∷ [])) refl refl other_token refl

on_test_timeout-counted_example :
    (value (on_test_timeout env "token-1" css_a) server ≡ ok tt)
    × (get "token-1" (after (on_test_timeout env "token-1" css_a) server).sessions
        ≡ some (
            completed_session
              (timeout_result css_a)
              running_tests
              (("css", state_of 2) ∷ ("dom", state_of 1) ∷ [])
              (state_of 2)
              session))
    × (count_result (timeout_result css_a) (state_of 2)
        ≡ record (state_of 2) { timeout = 1; complete = 1 })
    × ((after (on_test_timeout env "token-1" css_a) server).timeouts
        ≡ remove_timer css_a server.timeouts)
unfolding test_list_contains_test find_first get has api_of any_of keys mem_text path_parts
on_test_timeout-counted_example =
    on_test_timeout-counted env css_a session_IsCached refl refl refl refl refl refl refl

next_test-queue_example :
    (value (next_test env session) server ≡ ok (some dom_x))
    × (get "token-1" (after (next_test env session) server).sessions
        ≡ some (handed_out session (sort_tests pending_tests) running_tests dom_x))
unfolding sorted_rows same_status get_test_timeout wmas.Prelude.keep wmas.Prelude.sort_by keys
    sort_tests wmas.TestList.api_le wmas.Prelude.codes_le wmas.Prelude.lower get
    wmas.TestList.is_manual wmas.Prelude.contains_text wmas.TestList.is_https find_first
    wmas.Prelude.without_char wmas.Tests.match_timeout
next_test-queue_example =
    next_test-queue env session pending_tests running_tests server refl refl dom_x 300000 refl refl
      refl

prepare_result_idem_example :
    (prepare_result (prepared css_b) ≡ some (prepared css_b))
    × ((prepared css_b).tests ≡ none)
    × ((prepared css_b).stack ≡ none)
unfolding prepare_result wmas.Results.move_tests wmas.Results.prepare_subtests
    wmas.Results.subtest_status wmas.Results.harness_status
prepare_result_idem_example = prepare_result_idem (posted css_b) (prepared css_b) refl
