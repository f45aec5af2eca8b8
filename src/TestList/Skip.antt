-- ===== src/TestList/Skip.antt =====
-- `skip_to` of tools/wave/testing/tests_manager.py: what is left behind a completed test, and how
-- it is filed.
use wmas.Prelude.{
  ◌+◌, String, Bool, true, false, not, ◌&&◌, Option, none, some, List, [], ◌∷◌, ◌++◌, ◌≡◌, refl,
  arith, ◌==◌, if◌then◌else◌, count, mem_text, Bool-cases, inl, inr, starts_with, ◌+s◌,
}
use wmas.Prelude.Dict.{get, has, put}
use wmas.Data.{TestList}
use wmas.TestList.{
  api_of, all_tests, group_remaining, sort_tests_by_execution, after_first, skip_to,
}
use wmas.TestList.Moves.{count-append, count-put, count-one}

-- Opening a list that is not there adds no test.
count-open :
    (u api : String) (d : TestList)
    → has api d ≡ false
    → count u (all_tests (put api [] d)) ≡ count u (all_tests d)
unfolding has count
count-open u api d absent = ground (arith, count-put u api [] d)

abbrev opened : Bool → String → TestList → TestList
opened moves current by_api =
    if moves && not (has current by_api) then put current [] by_api else by_api

absent_of : (a b : Bool) → (a && not b) ≡ true → b ≡ false
absent_of a b h = ground arith

count-opened :
    (u current : String) (moves : Bool) (d : TestList)
    → count u (all_tests (opened moves current d)) ≡ count u (all_tests d)
count-opened u current moves d = elim (Bool-cases (moves && not (has current d))) [
  | inl e ↦ simp e (count-open u current d (absent_of moves (has current d) e))
  | inr e ↦ simp e refl
]

-- The tests are filed, each once, or the grouping fails.
count-group_remaining :
    (u current_api : String) (rest : List String) (by_api result : TestList)
    → group_remaining current_api rest by_api ≡ some result
    → count u (all_tests result) ≡ count u (all_tests by_api) + count u rest
unfolding group_remaining count
count-group_remaining u cur [] by_api result h = ground arith
count-group_remaining u cur (test ∷ rest) by_api result h =
    go (count-group_remaining u current rest) (get current d) refl h
  where
    moves : Bool
    moves = not (starts_with test ("/" +s cur)) && not (starts_with test cur)

    current : String
    current = if moves then api_of test else cur

    d : TestList
    d = opened moves current by_api

    go :
        ((by res : TestList)
          → group_remaining current rest by ≡ some res
          → count u (all_tests res) ≡ count u (all_tests by) + count u rest)
        → (o : Option (List String)) → get current d ≡ o
        → (elim o [
          | none ↦ none
          | some tests ↦ group_remaining current rest (put current (tests ++ test ∷ []) d)
        ])
          ≡ some result
        → count u (all_tests result)
          ≡ count u (all_tests by_api) + ((if test == u then 1 else 0) + count u rest)
    go ih none e g = cc
    go ih (some tests) e g = ground (
      arith,
      ih (put current (tests ++ test ∷ []) d) result g,
      e,
      count-put u current (tests ++ test ∷ []) d,
      count-append u tests (test ∷ []),
      count-one u test,
      count-opened u current moves by_api,
    )

-- Where the completed test is one of the listed tests and the grouping does not fail, `skip_to`
-- leaves exactly the tests behind it in the order of execution: each as often as it stands there.
count-skip_to :
    (u test : String) (test_list result : TestList)
    → mem_text test (sort_tests_by_execution test_list) ≡ true
    → skip_to test_list test ≡ some result
    → count u (all_tests result) ≡ count u (after_first test (sort_tests_by_execution test_list))
unfolding skip_to count
count-skip_to u test test_list result h e = ground (
  arith,
  count-group_remaining u "___" (after_first test (sort_tests_by_execution test_list)) [] result,
  h,
  e,
)
