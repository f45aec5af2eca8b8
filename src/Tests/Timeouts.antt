-- ===== src/Tests/Timeouts.antt =====
-- The timers that `complete_test` of tools/wave/testing/tests_manager.py cancels.
use wmas.Prelude.{String, some, List, ◌∷◌, ◌≡◌, arith, find_first, eq_iff, ◌≢◌}
use wmas.Data.{Session, TestList}
use wmas.Exec.{ok, value, after}
use wmas.Server.{Server, Timer}
use wmas.Events.{dispatch_event}
use wmas.Sessions.{push_session}
use wmas.Tests.{for_test, remove_timer, complete_test}
use wmas.Complete.Effects.{complete_test-eq, without_running}

-- Completing a test of a session cancels the timer that another session started for the same test
-- where that one comes first; what is behind it, the session's own timer too, goes on.
pub complete_test-other :
    (test : String) (session : Session) {running : TestList} {other : Timer} {timers : List Timer}
    (server : Server)
    → session.running_tests ≡ some running
    → other.test ≡ test
    → other.token ≢ session.token
    → server.timeouts ≡ other ∷ timers
    → (value (complete_test test session) server ≡ ok (without_running test running session))
      × ((after (complete_test test session) server).timeouts ≡ timers)
unfolding find_first remove_timer dispatch_event push_session
complete_test-other test session {other = other} server is_running same own is_first =
    let found : find_first (for_test test) server.timeouts ≡ some other =
      rw is_first (ground (arith, same, eq_iff other.test test)) in
    let e = complete_test-eq test session server is_running found in
    ground (arith, e, is_first, same, eq_iff other.test test)
