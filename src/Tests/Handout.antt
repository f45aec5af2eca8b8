-- ===== src/Tests/Handout.antt =====
-- Handing out a test: the end of `next_test` of tools/wave/testing/tests_manager.py.
use wmas.Prelude.{
  ℕ, ◌+◌, String, true, false, Option, none, some, [], ◌∷◌, ◌++◌, ◌≡◌, arith, count, eq_refl,
  or_else, mem_text,
}
use wmas.Prelude.Dict.{get, put, get-put, Distinct}
use wmas.Data.{Session, TestList, type_error}
use wmas.Exec.{ok, raised, value, after}
use wmas.Server.{Server, Env}
use wmas.TestList.{api_of, all_tests, tests_of, remove_test_from_list, add_test_to_list}
use wmas.TestList.Moves.{count-remove_test_from_list, count-add_test_to_list}
use wmas.Sessions.{push_session}
use wmas.Tests.{hand_out, get_test_timeout}

-- What a session holds of a test: as often as it is pending or running.
abbrev pub held : String → Option TestList → Option TestList → ℕ
held u pending running =
    count u (all_tests (or_else pending [])) + count u (all_tests (or_else running []))

-- For a session whose running tests are `None`, as they are after it is read from its file,
-- handing out a test raises a TypeError, and the pending tests of the cached session have lost
-- the test all the same.
pub hand_out-restored :
    (env : Env) (session : Session) (tests : TestList) (test : String) (server : Server)
    → session.running_tests ≡ none
    → (value (hand_out env session tests test) server ≡ raised type_error)
      × (get session.token (after (hand_out env session tests test) server).sessions
          ≡ some (record session { pending_tests = some (remove_test_from_list tests test) }))
unfolding hand_out push_session
hand_out-restored env session tests test server restored = ground (
  arith,
  restored,
  get-put session.token session.token
      (record session { pending_tests = some (remove_test_from_list tests test) }) server.sessions,
  eq_refl session.token,
)

-- The session that `hand_out` leaves.
abbrev pub handed_out : Session → TestList → TestList → String → Session
handed_out session tests running test = record session {
  pending_tests = some (remove_test_from_list tests test);
  running_tests = some (add_test_to_list running test);
}

-- For a session with running tests, and a listed test of lists with distinct APIs which is not
-- running and has a time limit: `hand_out` returns the test; the cached session has the lists
-- without the test as its pending tests, and the test added to its running tests; it holds each
-- test, pending or running, as often as before; and a timer for the test, the session's token
-- and the limit is the last one.
pub hand_out-moves :
    (u : String) (env : Env) (session : Session) (tests running : TestList) (test : String)
    (millis : ℕ) (server : Server)
    → session.running_tests ≡ some running
    → get_test_timeout env test session ≡ ok millis
    → Distinct tests
    → mem_text test (tests_of (api_of test) tests) ≡ true
    → mem_text test (tests_of (api_of test) running) ≡ false
    → (value (hand_out env session tests test) server ≡ ok (some test))
      × (get session.token (after (hand_out env session tests test) server).sessions
          ≡ some (handed_out session tests running test))
      × (held u
            (handed_out session tests running test).pending_tests
            (handed_out session tests running test).running_tests
          ≡ held u (some tests) (some running))
      × ((after (hand_out env session tests test) server).timeouts
          ≡ server.timeouts
            ++ (record { test = test; token = session.token; millis = millis }) ∷ [])
unfolding hand_out push_session
hand_out-moves u env session tests running test millis server is_running limit distinct listed
      fresh =
    let taken = record session { pending_tests = some (remove_test_from_list tests test) } in
    let moved = handed_out session tests running test in
    let lost = count-remove_test_from_list u test tests distinct listed in
    let won = count-add_test_to_list u test running fresh in
    (
      ground (arith, is_running, limit),
      ground (
        arith,
        is_running,
        limit,
        eq_refl session.token,
        get-put session.token session.token moved (put session.token taken server.sessions),
      ),
      ground (arith, lost, won),
      ground (arith, is_running, limit),
    )
