-- ===== src/TestList.antt =====
-- The lists of tests of tools/wave/testing/tests_manager.py: which test comes next, adding and
-- removing a test, the order of execution, and skipping to a test.
pub mod Next
pub mod Skip
pub mod Moves
use wmas.Prelude.{
  ℕ, zero, suc, ◌+◌, String, Bool, true, false, not, ◌&&◌, ◌||◌, Option, none, some, List, [], ◌∷◌,
  ◌++◌, ◌==◌, eqb, if◌then◌else◌, length, get_elem?, sort_by, path_parts, contains_text,
  without_char, lower, codes_le, or_else, mem_text, remove_first, map, starts_with, ◌+s◌, is_some,
}
use wmas.Prelude.Dict.{Dict, get, has, put, del, keys}
use wmas.Data.{TestList}

abbrev pub first {ℓ} : {A : Type ℓ} → List A → Option A
first [] = none
first (x ∷ xs) = some x

-- The API of a test: the first part of its path that is not empty. Where there is none, the
-- code's `None` is "", which is no such part.
unfoldable pub api_of : String → String
api_of test = or_else (first (path_parts test)) ""

unfoldable pub is_manual : String → Bool
is_manual test = contains_text "manual" test

unfoldable pub is_https : String → Bool
is_https test = contains_text "https" test

-- The tests of an API, if it is there.
abbrev pub tests_of : String → TestList → List String
tests_of api tests = or_else (get api tests) []

-- `remove_test_from_list`
unfoldable pub remove_test_from_list : TestList → String → TestList
remove_test_from_list test_list test =
    let api = api_of test in
    let rest = remove_first test (tests_of api test_list) in
    if not (has api test_list)
    then test_list
    else if not (mem_text test (tests_of api test_list))
    then test_list
    else if eqb (length rest) 0
    then del api test_list
    else put api rest test_list

-- `add_test_to_list`
unfoldable pub add_test_to_list : TestList → String → TestList
add_test_to_list test_list test =
    let api = api_of test in
    if has api test_list && mem_text test (tests_of api test_list)
    then test_list
    else put api (tests_of api test_list ++ test ∷ []) test_list

-- `key=lambda api: api.lower()`
unfoldable pub api_le : String → String → Bool
api_le a b = codes_le (lower a) (lower b)

-- `key=lambda api: api.replace("/", "").lower()`
unfoldable pub test_le : String → String → Bool
test_le a b = codes_le (lower (without_char b'/' a)) (lower (without_char b'/' b))

-- `_get_next_test_from_list` sorts the tests of each API in place ...
unfoldable pub sort_tests : TestList → TestList
sort_tests [] = []
sort_tests ((api, tests) ∷ d) = (api, sort_by test_le tests) ∷ sort_tests d

-- ... and goes through the APIs in their order: `tests[api]` for each.
unfoldable pub sorted_rows : TestList → List (List String)
sorted_rows tests = map (λ api. tests_of api tests) (sort_by api_le (keys tests))

-- The four conditions under which the loop returns the test that it looks at.
unfoldable pub is_accepted : (has_http has_manual : Bool) → String → Bool
is_accepted has_http has_manual test =
    if is_manual test
    then (if is_https test then not has_http else true)
    else if is_https test
    then not has_manual && not has_http
    else not has_manual

-- The `while test is None` loop, over the rows `tests[apis[0]]`, `tests[apis[1]]`, ...
-- `none` means that the fuel ran out.
unfoldable pub scan :
    (rows : List (List String)) (fuel : ℕ) (has_http has_manual : Bool)
    (current_api current_test : ℕ)
    → Option (Option String)
scan rows zero has_http has_manual current_api current_test = none
scan rows (suc fuel) has_http has_manual current_api current_test =
    elim (get_elem? rows current_api) [
      | none ↦ some none
      | some row ↦ elim (get_elem? row current_test) [
        | some test ↦ elim (is_accepted has_http has_manual test) [
          | true ↦ some (some test)
          | false ↦ scan rows fuel has_http has_manual current_api (suc current_test)
        ]
        | none ↦ elim (eqb (suc current_api) (length rows)) [
          | false ↦ scan rows fuel has_http has_manual (suc current_api) 0
          | true ↦ elim has_http [
            | true ↦ scan rows fuel false has_manual 0 0
            | false ↦ elim has_manual [ true ↦ scan rows fuel true false 0 0 | false ↦ some none ]
          ]
        ]
      ]
    ]

-- The rounds of one pass over the rows: one for each test, and one at the end of each row.
abbrev pub row_rounds : List String → ℕ → ℕ
row_rounds [] k = k
row_rounds (t ∷ ts) k = suc (row_rounds ts k)

abbrev pub pass_rounds : List (List String) → ℕ → ℕ
pass_rounds [] k = k
pass_rounds (r ∷ rs) k = row_rounds r (suc (pass_rounds rs k))

-- Four passes, and a round for a list with no API.
abbrev pub scan_fuel : List (List String) → ℕ
scan_fuel rows = pass_rounds rows (pass_rounds rows (pass_rounds rows (pass_rounds rows 1)))

-- `_get_next_test_from_list`
unfoldable pub next_test_from_list : TestList → Option (Option String)
next_test_from_list tests =
    let rows = sorted_rows (sort_tests tests) in scan rows (scan_fuel rows) true true 0 0

-- `compare`, a function inside of `_sort_tests_by_execution`: does `test_a` come first?
unfoldable pub precedes : String → String → Bool
precedes test_a test_b =
    let api_a = api_of test_a in
    let api_b = api_of test_b in
    let micro_test_list =
      if api_a == api_b
      then put api_a (test_a ∷ test_b ∷ []) []
      else put api_b (test_b ∷ []) (put api_a (test_a ∷ []) []) in
    elim (next_test_from_list micro_test_list) [ some (some next) ↦ next == test_a | _ ↦ false ]

abbrev pub all_tests : TestList → List String
all_tests [] = []
all_tests ((api, tests) ∷ d) = tests ++ all_tests d

-- `_sort_tests_by_execution`
unfoldable pub sort_tests_by_execution : TestList → List String
sort_tests_by_execution tests = sort_by precedes (all_tests tests)

-- What stands behind the first occurrence: `sorted_tests[sorted_tests.index(test) + 1:]`.
unfoldable pub after_first : String → List String → List String
after_first test [] = []
after_first test (t ∷ ts) = let rest = after_first test ts in if t == test then ts else rest

-- The last loop of `skip_to`. `none` is the KeyError of `remaining_tests_by_api[current_api]`.
unfoldable pub group_remaining : String → List String → TestList → Option TestList
group_remaining current_api [] by_api = some by_api
group_remaining current_api (test ∷ rest) by_api =
    let moves = not (starts_with test ("/" +s current_api)) && not (starts_with test current_api) in
    let current = if moves then api_of test else current_api in
    let opened = if moves && not (has current by_api) then put current [] by_api else by_api in
    elim (get current opened) [
      | none ↦ none
      | some tests ↦ group_remaining current rest (put current (tests ++ test ∷ []) opened)
    ]

-- `skip_to`
unfoldable pub skip_to : TestList → String → Option TestList
skip_to test_list test =
    let sorted_tests = sort_tests_by_execution test_list in
    if not (mem_text test sorted_tests)
    then some test_list
    else group_remaining "___" (after_first test sorted_tests) []
