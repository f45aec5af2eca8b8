-- ===== src/TestList/Moves.antt =====
-- Adding and removing a test: `add_test_to_list` and `remove_test_from_list` of
-- tools/wave/testing/tests_manager.py, by how often a test stands in the lists.
use wmas.Prelude.{
  ◌+◌, ◌≤◌, String, true, false, none, List, [], ◌∷◌, ◌++◌, ◌≡◌, refl, arith, ◌==◌, eq_iff, eqb,
  if◌then◌else◌, length, count, mem_text, remove_first, Bool-cases, inl, inr,
}
use wmas.Prelude.Dict.{get, has, put, del, Distinct}
use wmas.Data.{TestList}
use wmas.TestList.{api_of, tests_of, all_tests, remove_test_from_list, add_test_to_list}

pub count-append : (u : String) (xs ys : List String) → count u (xs ++ ys) ≡ count u xs + count u ys
unfolding count
count-append u [] ys = omega arith
count-append u (x ∷ xs) ys = ground (arith, count-append u xs ys)

count-remove_first :
    (u t : String) (xs : List String)
    → mem_text t xs ≡ true
    → count u (remove_first t xs) + (if t == u then 1 else 0) ≡ count u xs
unfolding count remove_first mem_text
count-remove_first u t [] h = cc
count-remove_first u t (x ∷ xs) h =
    ground (arith, eq_iff x t, eq_iff x u, eq_iff t u, count-remove_first u t xs)

-- Replacing the tests of an API.
pub count-put :
    (u k : String) (tests : List String) (d : TestList)
    → count u (all_tests (put k tests d)) + count u (tests_of k d)
      ≡ count u (all_tests d) + count u tests
unfolding put get count
count-put u k tests [] = omega (arith, count-append u tests [])
count-put u k tests ((j, old) ∷ d) = elim (Bool-cases (j == k)) [
  | inl e ↦
      simp e (omega (arith, count-append u old (all_tests d), count-append u tests (all_tests d)))
  | inr e ↦ simp e (
      omega (
        arith,
        count-append u old (all_tests d),
        count-append u old (all_tests (put k tests d)),
        count-put u k tests d,
      ))
]

del-absent : (k : String) (d : TestList) → get k d ≡ none → del k d ≡ d
unfolding get del
del-absent k [] h = refl
del-absent k ((j, old) ∷ d) h = ground (arith, del-absent k d)

count-del :
    (u k : String) (d : TestList)
    → Distinct d
    → count u (all_tests (del k d)) + count u (tests_of k d) ≡ count u (all_tests d)
unfolding del get count
count-del u k [] h = omega arith
count-del u k ((j, old) ∷ d) h = elim (Bool-cases (j == k)) [
  | inl e ↦
      let absent : get k d ≡ none = rw (← (eq_iff j k).0 e) h.0 in
      simp (e, del-absent k d absent) (omega (arith, count-append u old (all_tests d)))
  | inr e ↦ simp e (
      omega (
        arith,
        count-append u old (all_tests d),
        count-append u old (all_tests (del k d)),
        count-del u k d h.1,
      ))
]

pub count-le-length : (u : String) (xs : List String) → count u xs ≤ length xs
unfolding count
count-le-length u [] = omega arith
count-le-length u (x ∷ xs) = ground (arith, count-le-length u xs)

pub count-one : (u t : String) → count u (t ∷ []) ≡ (if t == u then 1 else 0)
unfolding count
count-one u t = ground arith

has_of_listed :
    (test api : String) (d : TestList) → mem_text test (tests_of api d) ≡ true → has api d ≡ true
unfolding has mem_text
has_of_listed test api d listed = ground arith

-- Removing a listed test takes one occurrence of it, and nothing else, out of the lists; the APIs
-- of the lists are distinct.
pub count-remove_test_from_list :
    (u test : String) (d : TestList)
    → Distinct d
    → mem_text test (tests_of (api_of test) d) ≡ true
    → count u (all_tests (remove_test_from_list d test)) + (if test == u then 1 else 0)
      ≡ count u (all_tests d)
unfolding remove_test_from_list
count-remove_test_from_list u test d h listed =
    let api = api_of test in
    let tests = tests_of api d in
    let rest = remove_first test tests in
    simp (has_of_listed test api d listed, listed)
      (elim (Bool-cases (eqb (length rest) 0)) [
        | inl e ↦ simp e (
            ground (
              arith,
              count-del u api d h,
              count-remove_first u test tests listed,
              count-le-length u rest,
            ))
        | inr e ↦
            simp e (ground (arith, count-put u api rest d, count-remove_first u test tests listed))
      ])

-- Adding a test that its API does not list puts one occurrence of it, and nothing else, into the
-- lists.
pub count-add_test_to_list :
    (u test : String) (d : TestList)
    → mem_text test (tests_of (api_of test) d) ≡ false
    → count u (all_tests (add_test_to_list d test))
      ≡ count u (all_tests d) + (if test == u then 1 else 0)
unfolding add_test_to_list
count-add_test_to_list u test d absent =
    let api = api_of test in
    let tests = tests_of api d in
    elim (Bool-cases (has api d)) [
      | inl e ↦
          simp (e, absent)
            (ground (
              arith,
              count-put u api (tests ++ test ∷ []) d,
              count-append u tests (test ∷ []),
              count-one u test,
            ))
      | inr e ↦ simp e (
          ground (
            arith,
            count-put u api (tests ++ test ∷ []) d,
            count-append u tests (test ∷ []),
            count-one u test,
          ))
    ]
