-- ===== src/Configure/Creation.antt =====
-- What `create_session` of tools/wave/testing/sessions_manager.py makes.
use wmas.Prelude.{
  ℕ, String, false, not, none, some, List, [], ◌∷◌, ◌≡◌, refl, arith, ◌==◌, any_of, if◌then◌else◌,
  length, Bool-cases, inl, inr, count, subst, sym, Option, Bool, Option-cases,
}
use wmas.Prelude.Dict.{Dict, get, has, get-put}
use wmas.Data.{Session, TestList, pending}
use wmas.Exec.{Result, ok, raised, value, after}
use wmas.Server.{Server, Env}
use wmas.TestList.{all_tests}
use wmas.Loader.{select_types}
use wmas.Loader.Filter.{selected, named, AllCompile, is_valid_test_lem, select_types_lem}
use wmas.Files.{read_common_passed_tests, read_all_results}
use wmas.Data.{key_error, Results}
use wmas.Sessions.{push_session}
use wmas.Tests.Handout.{held}
use wmas.Results.{fresh_state, note_sessions}
use wmas.Configure.{
  is_test_type, fresh_states, calculate_test_files_count, create_session, get_tests, new_session,
  with_default,
}

-- The states before the first result, by API: nothing is counted, and the total is the number of
-- the tests.
pub get-fresh_states :
    (api : String) (tests : TestList)
    → get api (fresh_states (calculate_test_files_count tests))
      ≡ elim (get api tests) [ none ↦ none | some ts ↦ some (fresh_state (length ts)) ]
unfolding fresh_states calculate_test_files_count get
get-fresh_states api [] = refl
get-fresh_states api ((j, ts) ∷ d) = elim (Bool-cases (j == api)) [
  | inl e ↦ simp e refl
  | inr e ↦ simp e (get-fresh_states api d)
]

-- What is left of a result; an error leaves nothing.
abbrev tests_or_none : Result TestList → TestList
tests_or_none (ok tests) = tests
tests_or_none (raised e) = []

-- The tests that `get_tests` selects, where no reference holds it back.
abbrev pub selection : Env → (types include_list exclude_list : List String) → Server → TestList
selection env types include_list exclude_list server = tests_or_none (
    select_types env.re_match server.automatic server.manual types include_list exclude_list none
      [])

-- The end of `read_common_passed_tests`, behind the reading of the results.
abbrev common_of : Result (List Results) → Result (Option TestList)
common_of (raised e) = raised e
common_of (ok session_results) = elim (note_sessions session_results []) [
  | none ↦ raised key_error
  | some commons ↦ ok none
]

common_of-ok :
    (all_results : Result (List Results)) (reference : Option TestList)
    → common_of all_results ≡ ok reference
    → common_of all_results ≡ ok none
common_of-ok (raised e) reference h = ground arith
common_of-ok (ok session_results) reference h =
    ground (arith, h, Option-cases (note_sessions session_results []))

-- What is read of the references, where it does not raise, is always `None`.
read_common_passed_tests-ok :
    (re_match : (pattern text : String) → Option Bool) (server : Server) (tokens : List String)
    (reference : Option TestList)
    → read_common_passed_tests re_match server tokens ≡ ok reference
    → read_common_passed_tests re_match server tokens ≡ ok none
unfolding read_common_passed_tests
read_common_passed_tests-ok re_match server [] reference h = refl
read_common_passed_tests-ok re_match server (token ∷ tokens) reference h =
    common_of-ok (read_all_results re_match server (token ∷ tokens)) reference h

module _ (env : Env) (types include_list exclude_list refs : List String) (server : Server) where
  -- Where the expressions of both lists compile and the reading of the references does not raise:
  -- `get_tests` returns, leaves the server as it is, and selects exactly the tests of the given
  -- types for which the include list is empty or has an expression that matches, and the exclude
  -- list has none, each as often as the types list it. The reference tokens restrict nothing.
  pub get_tests_lem :
      (u : String) (reference : Option TestList)
      → AllCompile env.re_match include_list
      → AllCompile env.re_match exclude_list
      → read_common_passed_tests env.re_match server refs ≡ ok reference
      → (get_tests env types include_list exclude_list refs server
          ≡ (ok (selection env types include_list exclude_list server), server))
        × (count u (all_tests (selection env types include_list exclude_list server)) ≡ (
            if selected env.re_match include_list exclude_list u
            then named env.re_match include_list exclude_list u server.automatic server.manual types
            else 0))
  unfolding get_tests count
  get_tests_lem u reference inc exc read =
      let free = read_common_passed_tests-ok env.re_match server refs reference read in
      let chosen =
        select_types_lem env.re_match include_list exclude_list
          (λ test. is_valid_test_lem env.re_match include_list exclude_list test inc exc) u
          server.automatic server.manual types [] in
      (ground (arith, free, chosen.1), ground (arith, chosen.1, chosen.2))

module _ (env : Env) (token : String) (tests : TestList)
    (types include_list exclude_list : List String) (timeouts : Dict ℕ) (refs urls : List String)
    (user_agent : String) (labels : List String) (server : Server) where
  -- The session that `create_session` makes of complete settings.
  abbrev pub created : Session
  created =
      new_session env token tests types
        (with_default "manual" 300000 (with_default "automatic" 60000 timeouts)) refs urls
        user_agent labels none (selection env types include_list exclude_list server)

  -- With types that are known, an include list and an exclude list whose expressions compile, no
  -- expiration date, and references whose reading does not raise: `create_session` returns a
  -- session which is cached under its token, is pending, and holds exactly the tests of its types
  -- for which the include list is empty or has an expression that matches, and the exclude list
  -- has none, each as often as the types list it; the other sessions stay. The reference
  -- tokens restrict nothing.
  pub create_session_lem :
      (u j : String) (reference : Option TestList)
      → any_of (λ type. not (is_test_type type)) types ≡ false
      → get "include" tests ≡ some include_list
      → get "exclude" tests ≡ some exclude_list
      → AllCompile env.re_match include_list
      → AllCompile env.re_match exclude_list
      → read_common_passed_tests env.re_match server refs ≡ ok reference
      → (value
            (create_session env token tests (some types) timeouts refs urls user_agent labels none)
            server
          ≡ ok created)
        × (get j
              (after
                (create_session env token tests
                  (some types)
                  timeouts
                  refs
                  urls
                  user_agent
                  labels
                  none)
                server).sessions
            ≡ (if token == j then some created else get j server.sessions))
        × (created.status ≡ pending)
        × (held u created.pending_tests created.running_tests ≡ (
            if selected env.re_match include_list exclude_list u
            then named env.re_match include_list exclude_list u server.automatic server.manual types
            else 0))
  unfolding create_session push_session count has
  create_session_lem u j reference known including excluding inc exc read =
      let chosen =
        get_tests_lem env types include_list exclude_list refs server u reference inc exc read in
      let e : create_session env token tests (some types) timeouts refs urls user_agent labels none
            server
          ≡ (ok created, push_session created server) =
        simp known (simp (including, excluding, chosen.0) refl) in
      (
        ground (arith, e),
        subst
            (λ r.
              get j (r.1).sessions ≡ (if token == j then some created else get j server.sessions))
            (sym e) (ground (arith, get-put token j created server.sessions)),
        refl,
        ground (arith, chosen.1),
      )
