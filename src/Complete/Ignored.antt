-- ===== src/Complete/Ignored.antt =====
-- Results that `create_result` of tools/wave/testing/results_manager.py drops.
use wmas.Prelude.{String, Bool, true, false, not, ◌||◌, some, ◌≡◌, refl, arith, if◌then◌else◌}
use wmas.Prelude.Dict.{get}
use wmas.Data.{Session, TestResult, TestList}
use wmas.Exec.{ok, value, after}
use wmas.Server.{Server, Env}
use wmas.Results.{prepare_result}
use wmas.Sessions.{push_session, test_in_session, is_test_running, test_list_contains_test}
use wmas.Sessions.Cache.{IsCached, read_session-cached, sessions-push_same}
use wmas.Complete.{create_result, accept_result}

module _ (session : Session) {pending running : TestList} (test : String)
    (is_pending : session.pending_tests ≡ some pending)
    (is_running : session.running_tests ≡ some running) where
  pub test_in_session_lem :
      test_in_session test session
      ≡ ok (test_list_contains_test test pending || test_list_contains_test test running)
  unfolding test_in_session
  test_in_session_lem = ground (arith, is_pending, is_running)

  pub is_test_running_lem : is_test_running test session ≡ ok (test_list_contains_test test running)
  unfolding is_test_running
  is_test_running_lem = rw is_running refl

module _ (env : Env) {token : String} (posted result : TestResult) {session : Session}
    {server : Server} {pending running : TestList} (c : IsCached token session server)
    (prepared : prepare_result posted ≡ some result)
    (is_pending : session.pending_tests ≡ some pending)
    (is_running : session.running_tests ≡ some running) where
  create_result_cases :
      (known busy : Bool)
      → test_in_session result.test session ≡ ok known
      → is_test_running result.test session ≡ ok busy
      → create_result env token posted server ≡ (
          if not known
          then (ok tt, push_session session server)
          else if not busy
          then (ok tt, push_session session server)
          else accept_result env token result session (push_session session server))
  unfolding create_result
  create_result_cases false busy hk hb = rw prepared (rw (read_session-cached c) (rw hk refl))
  create_result_cases true false hk hb = rw prepared (rw (read_session-cached c) (rw (hk, hb) refl))
  create_result_cases true true hk hb = rw prepared (rw (read_session-cached c) (rw (hk, hb) refl))

  create_result_dropped :
      test_list_contains_test result.test running ≡ false
      → create_result env token posted server ≡ (ok tt, push_session session server)
  create_result_dropped idle =
      let e =
        create_result_cases _ _ (test_in_session_lem session result.test is_pending is_running)
          (is_test_running_lem session result.test is_pending is_running) in
      ground (arith, e, idle)

  -- A result that `prepare_result` accepts, for a cached session that has pending and running
  -- tests, where the test of the result is not a running one (it was not handed out, has been
  -- completed or has timed out): `create_result` returns, and no entry of the cache of sessions,
  -- no cached result, no timer, no file and no sent message is changed.
  pub late_result_dropped :
      (j : String)
      → test_list_contains_test result.test running ≡ false
      → (value (create_result env token posted) server ≡ ok tt)
        × (get j (after (create_result env token posted) server).sessions ≡ get j server.sessions)
        × ((after (create_result env token posted) server).results ≡ server.results)
        × ((after (create_result env token posted) server).timeouts ≡ server.timeouts)
        × ((after (create_result env token posted) server).disk ≡ server.disk)
        × ((after (create_result env token posted) server).sent ≡ server.sent)
  unfolding push_session
  late_result_dropped j idle =
      let e = create_result_dropped idle in
      let same = sessions-push_same j c in ground (arith, e, same)

  -- `create_result` goes on with a running test.
  pub create_result_accepted :
      test_list_contains_test result.test running ≡ true
      → create_result env token posted server
        ≡ accept_result env token result session (push_session session server)
  create_result_accepted busy =
      let e =
        create_result_cases _ _ (test_in_session_lem session result.test is_pending is_running)
          (is_test_running_lem session result.test is_pending is_running) in
      ground (arith, e, busy)
