-- ===== src/Tests.antt =====
-- Running the tests of a session: the methods of tools/wave/testing/tests_manager.py that change
-- the state. A timer is an entry of `timeouts`; its firing is `on_test_timeout`.
pub mod Handout
pub mod Choice
pub mod Timeouts
use wmas.Prelude.{
  ℕ, String, Bool, true, false, not, ◌&&◌, ◌||◌, Option, none, some, List, [], ◌∷◌, ◌++◌, ◌==◌,
  any_of, if◌then◌else◌, length, or_else, find_first, without_char,
}
use wmas.Prelude.Dict.{Dict, get, has, put}
use wmas.Data.{
  Error, key_error, re_error, type_error, attribute_error, index_error, not_found, Session, Status,
  aborted, completed, same_status, TestList,
}
use wmas.Exec.{Result, ok, raised, Exec, pure, raise, gets, lift, modify, or_raise, ◌>>=◌, ◌>>◌}
use wmas.Server.{Server, Env, Timer, Event, test_completed_event}
use wmas.TestList.{
  is_manual, add_test_to_list, remove_test_from_list, next_test_from_list, skip_to, sort_tests,
}
use wmas.Events.{dispatch_event}
use wmas.Sessions.{push_session, read_session}
use wmas.Configure.{get_tests}

module _ (env : Env) where
  -- The loop of `get_test_timeout`: the first path of `timeouts` that matches the test.
  unfoldable pub match_timeout : String → Dict ℕ → Result (Option ℕ)
  match_timeout test [] = ok none
  match_timeout test ((path, millis) ∷ timeouts) =
      elim (env.re_match (without_char b'.' path) (without_char b'.' test)) [
        | none ↦ raised re_error
        | some true ↦ ok (some millis)
        | some false ↦ match_timeout test timeouts
      ]

  -- `get_test_timeout`, with the KeyError of a default that is missing.
  unfoldable pub get_test_timeout : String → Session → Result ℕ
  get_test_timeout test session = elim (match_timeout test session.timeouts) [
    | raised e ↦ raised e
    | ok (some millis) ↦ ok millis
    | ok none ↦ elim (get (if is_manual test then "manual" else "automatic") session.timeouts) [
      | none ↦ raised key_error
      | some millis ↦ ok millis
    ]
  ]

  -- `load_tests`
  unfoldable pub load_tests : Session → Exec Server TestList
  load_tests session = do
    include_list ← or_raise key_error (get "include" session.tests)
    exclude_list ← or_raise key_error (get "exclude" session.tests)
    pending_tests ← get_tests env session.types include_list exclude_list session.reference_tokens
    elim session.last_completed_test [
      | none ↦ pure pending_tests
      | some test ↦ or_raise key_error (skip_to pending_tests test)
    ]

  -- `if pending_tests is None` in `next_test`.
  unfoldable pub ensure_pending : Session → Exec Server TestList
  ensure_pending session = elim session.pending_tests [
    | some tests ↦ pure tests
    | none ↦ (do
      tests ← load_tests session
      modify (push_session (record session { pending_tests = some tests }))
      pure tests)
  ]

  -- The end of `next_test`, for a test that is chosen from the sorted pending tests. The list of
  -- the session has lost the test when `running_tests` is found to be `None`.
  unfoldable pub hand_out : Session → TestList → String → Exec Server (Option String)
  hand_out session tests test = do
    let pending_tests = remove_test_from_list tests test
    let taken = record session { pending_tests = some pending_tests }
    modify (push_session taken)
    running ← or_raise type_error session.running_tests
    let running_tests = add_test_to_list running test
    let moved = record taken { running_tests = some running_tests }
    modify (push_session moved)
    millis ← lift (get_test_timeout test session)
    modify (λ server. record server {
      timeouts =
          server.timeouts ++ (record { test = test; token = session.token; millis = millis }) ∷ [];
    })
    pure (some test)

  -- `next_test`
  unfoldable pub next_test : Session → Exec Server (Option String)
  next_test session =
      if same_status session.status completed || same_status session.status aborted
      then pure none
      else (do
        pending_tests ← ensure_pending session
        next ← or_raise index_error (next_test_from_list pending_tests)
        let sorted = sort_tests pending_tests
        modify (push_session (record session { pending_tests = some sorted }))
        elim next [ none ↦ pure none | some test ↦ hand_out session sorted test ])

  -- `read_tests`: the arguments of `get_tests` have their defaults.
  unfoldable pub read_tests : Exec Server TestList
  read_tests = get_tests env ("automatic" ∷ "manual" ∷ []) [] [] []

abbrev pub for_test : String → Timer → Bool
for_test test timer = timer.test == test

-- `self._timeouts.remove(timeout)`, for the first timer of the test.
unfoldable pub remove_timer : String → List Timer → List Timer
remove_timer test [] = []
remove_timer test (timer ∷ timers) =
    let rest = remove_timer test timers in if for_test test timer then timers else timer ∷ rest

-- `update_tests`
unfoldable pub update_tests :
    (pending_tests running_tests : Option TestList) → Session → Exec Server Session
update_tests pending_tests running_tests session = do
  let pended : Session = elim pending_tests [
    | none ↦ session
    | some tests ↦ record session { pending_tests = some tests }
  ]
  let updated : Session = elim running_tests [
    | none ↦ pended
    | some tests ↦ record pended { running_tests = some tests }
  ]
  modify (push_session updated)
  pure updated

-- `complete_test`; the result is the session as it leaves it.
unfoldable pub complete_test : String → Session → Exec Server Session
complete_test test session = do
  running ← or_raise type_error session.running_tests
  let running_tests = remove_test_from_list running test
  modify (push_session (record session { running_tests = some running_tests }))
  timer ← gets (λ server. find_first (for_test test) server.timeouts)
  or_raise type_error timer
  modify (λ server. record server { timeouts = remove_timer test server.timeouts })
  updated ← update_tests none (some running_tests) session
  modify (dispatch_event session.token (test_completed_event test))
  pure updated

-- `read_malfunctioning_tests`
unfoldable pub read_malfunctioning_tests : String → Exec Server (List String)
read_malfunctioning_tests token = do
  found ← read_session token
  session ← or_raise attribute_error found
  pure session.malfunctioning_tests

-- `update_malfunctioning_tests`
unfoldable pub update_malfunctioning_tests : String → Option (List String) → Exec Server (Unit {0})
update_malfunctioning_tests token none = pure tt
update_malfunctioning_tests token (some tests) = do
  found ← read_session token
  session ← or_raise not_found found
  if session.is_public
      then pure tt
      else modify (push_session (record session { malfunctioning_tests = tests }))
