-- ===== src/Results/Counting.antt =====
-- The counts of an API: `_update_test_state` and `parse_test_state` of
-- tools/wave/testing/results_manager.py.
use wmas.Prelude.{
  suc, ◌+◌, String, none, some, List, [], ◌∷◌, ◌++◌, ◌≡◌, refl, ap, ◌∙◌, arith, eq_iff, length,
  Option-cases, inl, inr,
}
use wmas.Prelude.Dict.{get}
use wmas.Data.{ApiState, TestResult, Results, RawStatus, Subtest}
use wmas.Results.{
  count_subtest, count_subtests, count_harness, count_result, count_results, fresh_state,
  parse_test_state,
}

-- Two states of an API that differ at most in the counts by status.
pub record SameProgress (a b : ApiState) : Type 0 where
  pub total : a.total ≡ b.total
  pub complete : a.complete ≡ b.complete

count_subtest-progress : (t : Subtest) (s : ApiState) → SameProgress (count_subtest t s) s
unfolding count_subtest
count_subtest-progress t s = record { total = ground arith; complete = ground arith }

count_subtests-progress : (ts : List Subtest) (s : ApiState) → SameProgress (count_subtests ts s) s
unfolding count_subtests
count_subtests-progress [] s = record { total = refl; complete = refl }
count_subtests-progress (t ∷ ts) s =
    let head = count_subtest-progress t s in
    let tail = count_subtests-progress ts (count_subtest t s) in
    record { total = tail.total ∙ head.total; complete = tail.complete ∙ head.complete }

count_harness-progress : (h : RawStatus) (s : ApiState) → SameProgress (count_harness h s) s
unfolding count_harness
count_harness-progress h s = record { total = ground arith; complete = ground arith }

pub total-count_result : (r : TestResult) (s : ApiState) → (count_result r s).total ≡ s.total
unfolding count_result
total-count_result r s = elim (Option-cases r.subtests) [
  | inl e ↦ simp e ((count_harness-progress r.status s).total)
  | inr (ts, e) ↦ simp e ((count_subtests-progress ts s).total)
]

pub complete-count_result :
    (r : TestResult) (s : ApiState) → (count_result r s).complete ≡ suc s.complete
unfolding count_result
complete-count_result r s = elim (Option-cases r.subtests) [
  | inl e ↦ simp e (ap suc (count_harness-progress r.status s).complete)
  | inr (ts, e) ↦ simp e (ap suc (count_subtests-progress ts s).complete)
]

-- Every result counts once, whatever its statuses are.
pub count_results-progress :
    (rs : List TestResult) (s : ApiState)
    → ((count_results rs s).complete ≡ s.complete + length rs)
      × ((count_results rs s).total ≡ s.total)
unfolding count_results
count_results-progress [] s = (omega arith, refl)
count_results-progress (r ∷ rs) s =
    let rest = count_results-progress rs (count_result r s) in
    (omega (arith, rest.0, complete-count_result r s), rest.1 ∙ total-count_result r s)

pub count_results-append :
    (rs qs : List TestResult) (s : ApiState)
    → count_results (rs ++ qs) s ≡ count_results qs (count_results rs s)
unfolding count_results
count_results-append [] qs s = refl
count_results-append (r ∷ rs) qs s = count_results-append rs qs (count_result r s)

abbrev pub recount : List TestResult → ApiState
recount results = count_results results (fresh_state (length results))

pub get-parse_test_state :
    (api : String) (d : Results)
    → get api (parse_test_state d)
      ≡ (elim (get api d) [ none ↦ none | some results ↦ some (recount results) ])
unfolding parse_test_state get
get-parse_test_state api [] = refl
get-parse_test_state api ((other, results) ∷ d) =
    ground (arith, eq_iff other api, get-parse_test_state api d)

-- `parse_test_state` has counts for every API with saved results, and there the API is complete:
-- as many tests are completed as there are results, and this is the total.
pub parse_test_state-complete :
    (api : String) (d : Results) (results : List TestResult)
    → get api d ≡ some results
    → (get api (parse_test_state d) ≡ some (recount results))
      × ((recount results).complete ≡ length results)
      × ((recount results).total ≡ length results)
parse_test_state-complete api d results saved =
    let progress = count_results-progress results (fresh_state (length results)) in
    (
      ground (arith, get-parse_test_state api d, saved),
      ground (arith, progress.0),
      ground (arith, progress.1),
    )
