-- ===== src/Complete/Firing.antt =====
-- A timer fires: `_on_test_timeout` of tools/wave/testing/tests_manager.py.
use wmas.Prelude.{
  ℕ, suc, String, Bool, true, false, Option, none, some, List, [], ◌∷◌, ◌≡◌, refl, arith, leb, ◌==◌,
  if◌then◌else◌, find_first, eq_refl,
}
use wmas.Prelude.Dict.{get, has}
use wmas.Data.{Session, TestList, ApiState, is_status}
use wmas.Exec.{ok, value, after}
use wmas.Server.{Server, Env, Timer}
use wmas.TestList.{api_of}
use wmas.Results.{
  prepare_result, count_result, harness_status, move_tests, count_subtests, count_subtest,
}
use wmas.Sessions.{test_list_contains_test}
use wmas.Sessions.Cache.{IsCached}
use wmas.Tests.{for_test, remove_timer}
use wmas.Complete.{timeout_result, on_test_timeout}
use wmas.Complete.Effects.{completed_session, accepted_result}

prepare_result-timeout :
    (test : String) → prepare_result (timeout_result test) ≡ some (timeout_result test)
unfolding prepare_result move_tests harness_status wmas.Prelude.mem_text
prepare_result-timeout test = refl

count_result-timeout :
    (test : String) (state : ApiState)
    → count_result (timeout_result test) state
      ≡ record state { timeout = suc state.timeout; complete = suc state.complete }
unfolding count_result count_subtests count_subtest is_status
count_result-timeout test state = refl

module _ (env : Env) (test : String) {token : String} {session : Session}
    {running pending : TestList} {state : ApiState} {timer : Timer} {server : Server}
    (c : IsCached token session server) (is_pending : session.pending_tests ≡ some pending)
    (is_running : session.running_tests ≡ some running)
    (busy : test_list_contains_test test running ≡ true)
    (has_state : get (api_of test) c.states ≡ some state)
    (has_timer : find_first (for_test test) server.timeouts ≡ some timer)
    (more : has (api_of test) pending ≡ true)
    (recent : leb env.persisting_interval (suc session.recent_completed_count) ≡ false) where
  -- The timer of a running test of a cached session fires, where the session has counts for the
  -- API of the test, the API has tests to come and the next saving is not due:
  -- `_on_test_timeout` returns; in the cache the session has lost the running test and has the
  -- timeout in the counts of the API, which are one timeout and one completed test more; the
  -- first timer of the test is gone.
  pub on_test_timeout-counted :
      (value (on_test_timeout env token test) server ≡ ok tt)
      × (get token (after (on_test_timeout env token test) server).sessions
          ≡ some (completed_session (timeout_result test) running c.states state session))
      × (count_result (timeout_result test) state
          ≡ record state { timeout = suc state.timeout; complete = suc state.complete })
      × ((after (on_test_timeout env token test) server).timeouts
          ≡ remove_timer test server.timeouts)
  unfolding on_test_timeout
  on_test_timeout-counted =
      let accepted =
        accepted_result env (timeout_result test) (timeout_result test) c
          (prepare_result-timeout test) is_pending is_running busy has_state has_timer more recent
          token in
      (
        accepted.0,
        ground (arith, accepted.1, eq_refl token),
        count_result-timeout test state,
        accepted.3,
      )
