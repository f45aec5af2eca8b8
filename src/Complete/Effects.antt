-- ===== src/Complete/Effects.antt =====
-- What an accepted result changes: `create_result` of tools/wave/testing/results_manager.py for a
-- running test whose API has more tests, between two savings.
use wmas.Prelude.{
  suc, String, true, false, some, [], ◌∷◌, ◌++◌, ◌==◌, leb, ◌≡◌, refl, arith, if◌then◌else◌,
  find_first, or_else, eq_refl, ◌∙◌, sym, subst,
}
use wmas.Prelude.Dict.{Dict, get, has, put, get-put}
use wmas.Data.{Session, TestResult, TestList, ApiState}
use wmas.Exec.{Result, ok, value, after}
use wmas.Server.{Server, Env, Timer, test_completed_event}
use wmas.TestList.{api_of, remove_test_from_list}
use wmas.Results.{prepare_result, count_result}
use wmas.Files.{push_to_cache, read_from_cache}
use wmas.Events.{dispatch_event}
use wmas.Sessions.{push_session, is_api_complete, test_list_contains_test}
use wmas.Sessions.Cache.{IsCached}
use wmas.Tests.{for_test, remove_timer, update_tests, complete_test}
use wmas.Complete.{counted, update_test_state, with_completed, accept_result, create_result}
use wmas.Complete.Ignored.{create_result_accepted}

-- The session without its running test.
abbrev pub without_running : String → TestList → Session → Session
without_running test running session = record session {
  running_tests = some (remove_test_from_list running test);
}

-- The server behind `complete_test`.
abbrev pub test_completed : String → TestList → Session → Server → Server
test_completed test running session server =
    let removed = without_running test running session in
    let first = push_session removed server in
    let second = record first { timeouts = remove_timer test first.timeouts } in
    dispatch_event session.token (test_completed_event test) (push_session removed second)

pub complete_test-eq :
    (test : String) (session : Session) {running : TestList} {timer : Timer} (server : Server)
    → session.running_tests ≡ some running
    → find_first (for_test test) server.timeouts ≡ some timer
    → complete_test test session server
      ≡ (ok (without_running test running session), test_completed test running session server)
unfolding complete_test update_tests push_session
complete_test-eq test session server is_running has_timer = rw is_running (rw has_timer refl)

-- The session that an accepted result leaves.
abbrev pub completed_session : TestResult → TestList → Dict ApiState → ApiState → Session → Session
completed_session result running states state session = record session {
  running_tests = some (remove_test_from_list running result.test);
  test_state = some (put (api_of result.test) (count_result result state) states);
  last_completed_test = some result.test;
  recent_completed_count = suc session.recent_completed_count;
}

counted-eq :
    (result : TestResult) (states : Dict ApiState) {state : ApiState}
    → get (api_of result.test) states ≡ some state
    → counted result states ≡ some (put (api_of result.test) (count_result result state) states)
unfolding counted
counted-eq result states has_state = rw (has_state, counted) refl

-- The session with the result in its counts.
abbrev with_counts : TestResult → Dict ApiState → ApiState → Session → Session
with_counts result states state session = record session {
  test_state = some (put (api_of result.test) (count_result result state) states);
}

update_test_state-eq :
    (result : TestResult) (session : Session) {states : Dict ApiState} {state : ApiState}
    (server : Server)
    → session.test_state ≡ some states
    → get (api_of result.test) states ≡ some state
    → update_test_state result session server ≡ (
      ok (with_counts result states state session),
      push_session (with_counts result states state session) server,
    )
unfolding update_test_state
update_test_state-eq result session {states} server is_counted has_state =
    simp (is_counted, counted-eq result states has_state) refl

-- The server behind an accepted result.
abbrev accepted :
    TestResult → Session → TestList → Dict ApiState → ApiState → Server → String → Server
accepted result session running states state server token =
    let removed = without_running result.test running session in
    let cached = push_to_cache token result (test_completed result.test running session server) in
    push_session (completed_session result running states state session)
      (push_session (with_counts result states state removed) cached)

module _ (env : Env) (result : TestResult) (session : Session) {running pending : TestList}
    {states : Dict ApiState} {state : ApiState} {timer : Timer} (server : Server)
    (is_running : session.running_tests ≡ some running)
    (is_pending : session.pending_tests ≡ some pending)
    (is_counted : session.test_state ≡ some states)
    (has_state : get (api_of result.test) states ≡ some state)
    (has_timer : find_first (for_test result.test) server.timeouts ≡ some timer)
    (more : has (api_of result.test) pending ≡ true)
    (recent : leb env.persisting_interval (suc session.recent_completed_count) ≡ false) where
  still_open :
      is_api_complete (api_of result.test) (completed_session result running states state session)
      ≡ ok false
  unfolding is_api_complete
  still_open = rw is_pending (rw more refl)

  completed-eq :
      with_completed result.test
        (with_counts result states state (without_running result.test running session))
      ≡ completed_session result running states state session
  unfolding with_completed
  completed-eq = refl

  accept_result-eq :
      (token : String)
      → accept_result env token result session server
        ≡ (ok tt, accepted result session running states state server token)
  unfolding accept_result
  accept_result-eq token = simp (complete_test-eq result.test session server is_running has_timer) (
      simp
        (update_test_state-eq result (without_running result.test running session)
          (push_to_cache token result (test_completed result.test running session server))
          is_counted has_state)
        (simp (completed-eq, still_open, recent) refl))

sessions-test_completed :
    (test : String) (running : TestList) (session : Session) (server : Server) (j : String)
    → get j (test_completed test running session server).sessions ≡ (
        if session.token == j
        then some (without_running test running session)
        else get j server.sessions)
unfolding push_session dispatch_event
sessions-test_completed test running session server j =
    let removed = without_running test running session in
    ground (
      arith,
      get-put session.token j removed server.sessions,
      get-put session.token j removed (put session.token removed server.sessions),
    )

module _ (env : Env) {token : String} (posted result : TestResult) {session : Session}
    {running pending : TestList} {state : ApiState} {timer : Timer} {server : Server}
    (c : IsCached token session server) (prepared : prepare_result posted ≡ some result)
    (is_pending : session.pending_tests ≡ some pending)
    (is_running : session.running_tests ≡ some running)
    (busy : test_list_contains_test result.test running ≡ true)
    (has_state : get (api_of result.test) c.states ≡ some state)
    (has_timer : find_first (for_test result.test) server.timeouts ≡ some timer)
    (more : has (api_of result.test) pending ≡ true)
    (recent : leb env.persisting_interval (suc session.recent_completed_count) ≡ false) where
  create_result-eq :
      create_result env token posted server
      ≡ (ok tt, accepted result session running c.states state (push_session session server) token)
  unfolding push_session
  create_result-eq =
      create_result_accepted env posted result c prepared is_pending is_running busy
      ∙ accept_result-eq env result session (push_session session server) is_running is_pending
          c.counts has_state has_timer more recent token

  -- A result that `prepare_result` accepts, for a running test of a cached session, where the
  -- session has counts for the API of the test, the test has a timer, the API has tests to come
  -- and the next saving is not due: `create_result` returns; in the cache the session has lost
  -- the running test, has the result in the counts of its API, notes the test as the last
  -- completed one and counts one more result; other sessions stay; the result is the last one in
  -- the cache of results for its API; the first timer of the test is gone; no file changes.
  pub accepted_result :
      (j : String)
      → (value (create_result env token posted) server ≡ ok tt)
        × (get j (after (create_result env token posted) server).sessions ≡ (
            if token == j
            then some (completed_session result running c.states state session)
            else get j server.sessions))
        × (get
              (api_of result.test)
              (read_from_cache (after (create_result env token posted) server) token)
            ≡ some (
                or_else (get (api_of result.test) (read_from_cache server token)) []
                ++ result ∷ []))
        × ((after (create_result env token posted) server).timeouts
            ≡ remove_timer result.test server.timeouts)
        × ((after (create_result env token posted) server).disk ≡ server.disk)
  unfolding push_session dispatch_event push_to_cache read_from_cache
  accepted_result j =
      let e = create_result-eq in
      subst
        (λ (r : Result (Unit {0}) × Server).
          (r.0 ≡ ok tt)
          × (get j r.1.sessions ≡ (
              if token == j
              then some (completed_session result running c.states state session)
              else get j server.sessions))
          × (get (api_of result.test) (read_from_cache r.1 token)
              ≡ some (
                  or_else (get (api_of result.test) (read_from_cache server token)) []
                  ++ result ∷ []))
          × (r.1.timeouts ≡ remove_timer result.test server.timeouts)
          × (r.1.disk ≡ server.disk))
        (sym e)
        (refl, simp (get-put, c.own_token) (ground arith), simp (get-put, eq_refl), refl, refl)
