-- ===== src/Results.antt =====
-- The parts of tools/wave/testing/results_manager.py that compute with results, with no session
-- and no file.
pub mod Counting
pub mod Statuses
pub mod Merging
use wmas.Prelude.{
  ℕ, zero, suc, ◌+◌, String, Bool, true, false, not, ◌&&◌, Option, none, some, List, [], ◌∷◌, ◌++◌,
  map, ◌==◌, eqb, if◌then◌else◌, length, mem_text, remove_first,
}
use wmas.Prelude.Dict.{Dict, get, has, put}
use wmas.Data.{
  RawStatus, number, name, is_status, Subtest, TestResult, Results, ApiState, Error, key_error,
}
use wmas.Exec
use wmas.Exec.{ok, raised}

-- `harness_status_map[status]`; the map takes the names to themselves.
unfoldable pub harness_status : RawStatus → Option RawStatus
harness_status (number n) =
    if eqb n 0
    then some (name "OK")
    else if eqb n 1
    then some (name "ERROR")
    else if eqb n 2
    then some (name "TIMEOUT")
    else if eqb n 3
    then some (name "NOTRUN")
    else none
harness_status (name s) =
    if mem_text s ("OK" ∷ "ERROR" ∷ "TIMEOUT" ∷ "NOTRUN" ∷ []) then some (name s) else none

-- `subtest_status_map[status]`
unfoldable pub subtest_status : RawStatus → Option RawStatus
subtest_status (number n) =
    if eqb n 0
    then some (name "PASS")
    else if eqb n 1
    then some (name "FAIL")
    else if eqb n 2
    then some (name "TIMEOUT")
    else if eqb n 3
    then some (name "NOTRUN")
    else none
subtest_status (name s) =
    if mem_text s ("PASS" ∷ "FAIL" ∷ "TIMEOUT" ∷ "NOTRUN" ∷ []) then some (name s) else none

-- The loop over `result["tests"]`.
unfoldable pub prepare_subtests : List Subtest → Option (List Subtest)
prepare_subtests [] = some []
prepare_subtests (test ∷ rest) = elim (subtest_status test.status) [
  | none ↦ none
  | some status ↦ elim (prepare_subtests rest) [
    | none ↦ none
    | some others ↦ some ((record test { status = status; stack = none }) ∷ others)
  ]
]

-- `if "tests" in result`: the prepared tests become the subtests.
unfoldable pub move_tests : TestResult → Option TestResult
move_tests result = elim result.tests [
  | none ↦ some result
  | some tests ↦ elim (prepare_subtests tests) [
    | none ↦ none
    | some prepared ↦ some (record result { subtests = some prepared; tests = none })
  ]
]

-- `prepare_result`; `none` is the KeyError of a status that the maps lack.
unfoldable pub prepare_result : TestResult → Option TestResult
prepare_result result = elim (move_tests result) [
  | none ↦ none
  | some moved ↦ elim (harness_status moved.status) [
    | none ↦ none
    | some status ↦ some (record moved { status = status; stack = none })
  ]
]

-- One more subtest in the counts of an API.
unfoldable pub count_subtest : Subtest → ApiState → ApiState
count_subtest test state =
    if is_status test.status "PASS"
    then record state { pass = suc state.pass }
    else if is_status test.status "FAIL"
    then record state { fail = suc state.fail }
    else if is_status test.status "TIMEOUT"
    then record state { timeout = suc state.timeout }
    else if is_status test.status "NOTRUN"
    then record state { not_run = suc state.not_run }
    else state

unfoldable pub count_subtests : List Subtest → ApiState → ApiState
count_subtests [] state = state
count_subtests (test ∷ rest) state = count_subtests rest (count_subtest test state)

-- The status of a result with no subtests.
unfoldable pub count_harness : RawStatus → ApiState → ApiState
count_harness status state =
    if is_status status "OK"
    then record state { pass = suc state.pass }
    else if is_status status "ERROR"
    then record state { fail = suc state.fail }
    else if is_status status "TIMEOUT"
    then record state { timeout = suc state.timeout }
    else if is_status status "NOTRUN"
    then record state { not_run = suc state.not_run }
    else state

-- What one result does to the counts of its API, in `_update_test_state` and in
-- `parse_test_state`.
unfoldable pub count_result : TestResult → ApiState → ApiState
count_result result state =
    let counted : ApiState = elim result.subtests [
      | none ↦ count_harness result.status state
      | some tests ↦ count_subtests tests state
    ] in
    record counted { complete = suc counted.complete }

unfoldable pub count_results : List TestResult → ApiState → ApiState
count_results [] state = state
count_results (result ∷ rest) state = count_results rest (count_result result state)

abbrev pub fresh_state : ℕ → ApiState
fresh_state total = record {
  pass = 0;
  fail = 0;
  timeout = 0;
  not_run = 0;
  total = total;
  complete = 0;
}

-- `parse_test_state`
unfoldable pub parse_test_state : Results → Dict ApiState
parse_test_state [] = []
parse_test_state ((api, results) ∷ d) =
    (api, count_results results (fresh_state (length results))) ∷ parse_test_state d

-- The two loops of `_combine_results_by_api`.
unfoldable pub combine_left : Results → Results → Results → Results
combine_left [] result_b combined = combined
combine_left ((api, results) ∷ result_a) result_b combined = combine_left result_a result_b (
    put api (elim (get api result_b) [ none ↦ results | some others ↦ results ++ others ]) combined)

unfoldable pub combine_right : Results → Results → Results
combine_right [] combined = combined
combine_right ((api, results) ∷ result_b) combined =
    combine_right result_b (if has api combined then combined else put api results combined)

-- `_combine_results_by_api`
unfoldable pub combine_results_by_api : Results → Results → Results
combine_results_by_api result_a result_b =
    combine_right result_b (combine_left result_a result_b [])

-- `all(subtest["status"] == "PASS")`, as the loop of `read_common_passed_tests` computes it.
unfoldable pub all_pass : List Subtest → Bool
all_pass [] = true
all_pass (subtest ∷ rest) = is_status subtest.status "PASS" && all_pass rest

-- The dictionaries `passed_tests` and `failed_tests`.
pub record Common : Type 0 where
  pub passed_tests : List String
  pub failed_tests : List String

-- One result in the loops of `read_common_passed_tests`, on the lists of its API.
unfoldable pub note_result : Bool → String → Common → Common
note_result passed test c =
    if passed
    then (if mem_text test c.failed_tests
        then c
        else if mem_text test c.passed_tests
        then c
        else record c { passed_tests = c.passed_tests ++ test ∷ [] })
    else (let passed_tests =
          if mem_text test c.passed_tests
          then remove_first test c.passed_tests
          else c.passed_tests in
        if mem_text test c.failed_tests
        then record c { passed_tests = passed_tests }
        else record { passed_tests = passed_tests; failed_tests = c.failed_tests ++ test ∷ [] })

-- The loop over the results of an API; `none` is the KeyError of a result with no subtests.
unfoldable pub note_results : List TestResult → Common → Option Common
note_results [] c = some c
note_results (result ∷ rest) c = elim result.subtests [
  | none ↦ none
  | some subtests ↦ note_results rest (note_result (all_pass subtests) result.test c)
]

unfoldable pub note_apis : Results → Dict Common → Option (Dict Common)
note_apis [] commons = some commons
note_apis ((api, results) ∷ d) commons =
    let before : Common = elim (get api commons) [
      | none ↦ record { passed_tests = []; failed_tests = [] }
      | some c ↦ c
    ] in
    elim (note_results results before) [ none ↦ none | some c ↦ note_apis d (put api c commons) ]

unfoldable pub note_sessions : List Results → Dict Common → Option (Dict Common)
note_sessions [] commons = some commons
note_sessions (results ∷ rest) commons = elim (note_apis results commons) [
  | none ↦ none
  | some c ↦ note_sessions rest c
]
