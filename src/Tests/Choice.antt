-- ===== src/Tests/Choice.antt =====
-- Which test `next_test` of tools/wave/testing/tests_manager.py hands out.
use wmas.Prelude.{ℕ, String, false, ◌||◌, some, List, ◌≡◌, refl, arith, eq_refl}
use wmas.Prelude.Dict.{get, put, get-put}
use wmas.Data.{Session, TestList, completed, aborted, same_status}
use wmas.Exec.{ok, value, after}
use wmas.Server.{Server, Env}
use wmas.TestList.{first, sort_tests, sorted_rows, remove_test_from_list}
use wmas.TestList.Next.{concat, in_order, next_test_from_list-in_order}
use wmas.Sessions.{push_session}
use wmas.Tests.{next_test, ensure_pending, hand_out, get_test_timeout}
use wmas.Tests.Handout.{handed_out}

-- The pending tests in the order in which they are handed out.
abbrev pub queue : TestList → List String
queue tests = in_order (concat (sorted_rows (sort_tests tests)))

module _ (env : Env) (session : Session) (tests running : TestList) (server : Server)
    (active : (same_status session.status completed || same_status session.status aborted) ≡ false)
    (is_pending : session.pending_tests ≡ some tests) where
  ensure_pending-eq : ensure_pending env session server ≡ (ok tests, server)
  unfolding ensure_pending
  ensure_pending-eq = ground (arith, is_pending)

  next_test-eq :
      {test : String}
      → first (queue tests) ≡ some test
      → next_test env session server
        ≡ hand_out env session
            (sort_tests tests)
            test
            (push_session (record session { pending_tests = some (sort_tests tests) }) server)
  unfolding next_test
  next_test-eq chosen =
      simp active
        (simp ensure_pending-eq (simp (next_test_from_list-in_order tests) (simp chosen refl)))

  -- A session that is not completed and not aborted, with pending tests and running tests, and a
  -- test that stands first in the queue of the pending ones and has a time limit: `next_test`
  -- returns this test, and the cached session has it added to its running tests and removed from
  -- its sorted pending tests.
  pub next_test-queue :
      (test : String) (millis : ℕ)
      → session.running_tests ≡ some running
      → first (queue tests) ≡ some test
      → get_test_timeout env test session ≡ ok millis
      → (value (next_test env session) server ≡ ok (some test))
        × (get session.token (after (next_test env session) server).sessions
            ≡ some (handed_out session (sort_tests tests) running test))
  unfolding hand_out push_session
  next_test-queue test millis is_running chosen limit =
      let e = next_test-eq chosen in
      let sorted = record session { pending_tests = some (sort_tests tests) } in
      let taken = record session {
        pending_tests = some (remove_test_from_list (sort_tests tests) test);
      } in
      (
        ground (arith, e, is_running, limit),
        ground (
          arith,
          e,
          is_running,
          limit,
          eq_refl session.token,
          get-put session.token session.token (handed_out session (sort_tests tests) running test)
              (put session.token taken (put session.token sorted server.sessions)),
        ),
      )
