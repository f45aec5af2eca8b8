-- ===== src/Loader.antt =====
-- The tests that the server knows: tools/wave/testing/test_loader.py. The functions take the tests
-- that are loaded as arguments; `get_tests` takes the result of `read_common_passed_tests`.
pub mod Filter
use wmas.Prelude.{
  ℕ, String, Bool, true, false, not, ◌&&◌, Option, none, some, List, [], ◌∷◌, ◌++◌, map, ◌==◌, eqb,
  if◌then◌else◌, length, any_of, mem_text, remove_first, starts_with, ◌+s◌, or_else, find_first,
  is_some,
}
use wmas.Prelude.Dict.{Dict, get, has, put, keys}
use wmas.Data.{TestList, re_error, key_error}
use wmas.Exec.{Result, ok, raised}
use wmas.Checked.{◌>>=◌}
use wmas.TestList.{api_of, is_manual, tests_of}

-- `none` of `re_match` is an expression that does not compile.
module _ (re_match : (pattern text : String) → Option Bool) where
  -- A loop over patterns: one that matches ends it.
  unfoldable pub matches_any : List String → String → Result Bool
  matches_any [] test_path = ok false
  matches_any (pattern ∷ patterns) test_path = elim (re_match pattern test_path) [
    | none ↦ raised re_error
    | some true ↦ ok true
    | some false ↦ matches_any patterns test_path
  ]

  -- `_is_valid_test`; `none` stands for a list that is not given.
  unfoldable pub is_valid_test :
      String → (exclude_list include_list : Option (List String)) → Result Bool
  is_valid_test test_path exclude_list include_list = do
    included ← elim include_list [
      | none ↦ ok true
      | some [] ↦ ok true
      | some (p ∷ ps) ↦ matches_any (p ∷ ps) test_path
    ]
    if not included then ok false else elim exclude_list [
      | none ↦ ok true
      | some patterns ↦ (do excluded ← matches_any patterns test_path; ok (not excluded))
    ]

  -- `loaded_tests[api].append(test_path)`, with the list made where it is missing.
  unfoldable pub append_test : String → String → TestList → TestList
  append_test api test_path tests = put api (tests_of api tests ++ test_path ∷ []) tests

  -- `_load_tests`, on the paths of the manifest's items.
  unfoldable pub load_paths :
      List String → (exclude_list include_list : Option (List String)) → TestList → Result TestList
  load_paths [] exclude_list include_list loaded_tests = ok loaded_tests
  load_paths (path ∷ rest) exclude_list include_list loaded_tests =
      let test_path = if starts_with path "/" then path else "/" +s path in
      (do
        valid ← is_valid_test test_path exclude_list include_list
        load_paths rest exclude_list include_list
            (if valid then append_test (api_of test_path) test_path loaded_tests else loaded_tests))

  -- The last loop of `load_tests`, on the tests of one API: the tests that are manual leave the
  -- automatic ones, and join the manual ones if they are included.
  unfoldable pub move_manual :
      String
      → List String
      → (include_list : List String) → List String × TestList
      → Result (List String × TestList)
  move_manual api [] include_list acc = ok acc
  move_manual api (test_path ∷ rest) include_list (automatic, manual) =
      if not (is_manual test_path)
      then move_manual api rest include_list (automatic, manual)
      else (do
        valid ← is_valid_test test_path none (some include_list)
        move_manual api rest include_list (
          remove_first test_path automatic,
          if valid then append_test api test_path manual else manual,
        ))

  unfoldable pub move_all_manual : TestList → List String → TestList → Result (TestList × TestList)
  move_all_manual [] include_list manual = ok ([], manual)
  move_all_manual ((api, tests) ∷ d) include_list manual = do
    moved ← move_manual api tests include_list (tests, manual)
    rest ← move_all_manual d include_list (moved.1)
    ok ((api, moved.0) ∷ rest.0, rest.1)

  -- `load_tests`, on the items of the manifest and the two lists of patterns; the result is the
  -- automatic and the manual tests.
  unfoldable pub load_tests :
      (testharness manual : Option (List String)) (include_list exclude_list : List String)
      → Result (TestList × TestList)
  load_tests testharness manual include_list exclude_list = do
    automatic_tests ← elim testharness [
      | none ↦ ok []
      | some paths ↦ load_paths paths (some exclude_list) none []
    ]
    manual_tests ← elim manual [
      | none ↦ ok []
      | some paths ↦ load_paths paths none (some include_list) []
    ]
    move_all_manual automatic_tests include_list manual_tests

  -- What `reference_results` leaves of a test; `none` is the KeyError of `reference_results[api]`.
  unfoldable pub passes_reference : Option TestList → String → String → Option Bool
  passes_reference none api test_path = some true
  passes_reference (some results) api test_path = elim (get api results) [
    | none ↦ none
    | some passed ↦ some (mem_text test_path passed)
  ]

  -- The innermost loop of `get_tests`, over the tests of an API.
  unfoldable pub select_tests :
      (include_list exclude_list : List String)
      → Option TestList
      → String
      → List String
      → TestList
      → Result TestList
  select_tests include_list exclude_list reference api [] loaded_tests = ok loaded_tests
  select_tests include_list exclude_list reference api (test_path ∷ rest) loaded_tests =
      elim (is_valid_test test_path (some exclude_list) (some include_list)) [
        | raised e ↦ raised e
        | ok false ↦ select_tests include_list exclude_list reference api rest loaded_tests
        | ok true ↦ elim (passes_reference reference api test_path) [
          | none ↦ raised key_error
          | some false ↦ select_tests include_list exclude_list reference api rest loaded_tests
          | some true ↦
              select_tests include_list exclude_list reference api rest
                (append_test api test_path loaded_tests)
        ]
      ]

  unfoldable pub select_apis :
      (include_list exclude_list : List String)
      → Option TestList
      → TestList
      → TestList
      → Result TestList
  select_apis include_list exclude_list reference [] loaded_tests = ok loaded_tests
  select_apis include_list exclude_list reference ((api, tests) ∷ d) loaded_tests =
      elim (select_tests include_list exclude_list reference api tests loaded_tests) [
        | raised e ↦ raised e
        | ok loaded ↦ select_apis include_list exclude_list reference d loaded
      ]

  -- The loop of `get_tests` over the types; a type that is not known is passed over.
  unfoldable pub select_types :
      (automatic manual : TestList) (types include_list exclude_list : List String)
      → Option TestList
      → TestList
      → Result TestList
  select_types automatic manual [] include_list exclude_list reference loaded_tests =
      ok loaded_tests
  select_types automatic manual (type ∷ types) include_list exclude_list reference loaded_tests =
      let tests =
        if type == "automatic" then automatic else if type == "manual" then manual else [] in
      elim (select_apis include_list exclude_list reference tests loaded_tests) [
        | raised e ↦ raised e
        | ok loaded ↦ select_types automatic manual types include_list exclude_list reference loaded
      ]

-- An entry of `api_titles`, and of the list that `get_apis` returns.
pub record ApiTitle : Type 0 where
  pub title : String
  pub path : String

abbrev has_path : String → ApiTitle → Bool
has_path path item = item.path == path

-- The loops of `get_apis`, over the APIs of the automatic tests and then of the manual ones.
unfoldable pub add_apis : List ApiTitle → List String → List ApiTitle → List ApiTitle
add_apis api_titles [] apis = apis
add_apis api_titles (api ∷ rest) apis =
    let path = "/" +s api in
    let title : String = elim (find_first (has_path path) api_titles) [
      | none ↦ api
      | some item ↦ item.title
    ] in
    add_apis api_titles rest (
      if any_of (has_path path) apis
      then apis
      else apis ++ (record { title = title; path = path }) ∷ [])

-- `get_apis`
unfoldable pub get_apis : (automatic manual : TestList) → List ApiTitle → List ApiTitle
get_apis automatic manual api_titles =
    add_apis api_titles (keys manual) (add_apis api_titles (keys automatic) [])
