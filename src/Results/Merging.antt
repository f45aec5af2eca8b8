-- ===== src/Results/Merging.antt =====
-- `_combine_results_by_api` of tools/wave/testing/results_manager.py, API by API.
use wmas.Prelude.{String, Option, none, some, List, [], ◌∷◌, ◌++◌, ◌≡◌, refl, ◌∙◌, arith, eq_iff}
use wmas.Prelude.Dict.{get, has, put, get-put, Distinct}
use wmas.Data.{TestResult, Results}
use wmas.Results.{combine_left, combine_right, combine_results_by_api}

-- The results of an API in either dictionary, those of the first one in front.
pub merged : Option (List TestResult) → Option (List TestResult) → Option (List TestResult)
merged none b = b
merged (some a) none = some a
merged (some a) (some b) = some (a ++ b)

abbrev joined : List TestResult → Option (List TestResult) → List TestResult
joined rs none = rs
joined rs (some others) = rs ++ others

merged-joined :
    (rs : List TestResult) (o : Option (List TestResult)) → merged (some rs) o ≡ some (joined rs o)
unfolding merged
merged-joined rs none = refl
merged-joined rs (some others) = refl

-- What the first loop leaves for an API.
after_left :
    Option (List TestResult)
    → Option (List TestResult)
    → Option (List TestResult)
    → Option (List TestResult)
after_left none b combined = combined
after_left (some rs) b combined = merged (some rs) b

get-combine_left :
    (api : String) (a b combined : Results)
    → Distinct a
    → get api (combine_left a b combined) ≡ after_left (get api a) (get api b) (get api combined)
unfolding combine_left get after_left
get-combine_left api [] b combined h = refl
get-combine_left api ((k, rs) ∷ a) b combined h =
    let value : List TestResult = elim (get k b) [ none ↦ rs | some others ↦ rs ++ others ] in
    ground (
      arith,
      eq_iff k api,
      h.0,
      get-combine_left api a b (put k value combined) h.1,
      get-put k api value combined,
      merged-joined rs (get k b),
    )

get-combine_right :
    (api : String) (b combined : Results)
    → get api (combine_right b combined)
      ≡ (elim (get api combined) [ none ↦ get api b | some rs ↦ some rs ])
unfolding combine_right get has
get-combine_right api [] combined = ground arith
get-combine_right api ((k, rs) ∷ b) combined = ground (
  arith,
  eq_iff k api,
  get-combine_right api b combined,
  get-combine_right api b (put k rs combined),
  get-put k api rs combined,
)

after_left-right :
    (a b : Option (List TestResult))
    → (elim (after_left a b none) [ none ↦ b | some rs ↦ some rs ]) ≡ merged a b
unfolding after_left merged
after_left-right none b = ground arith
after_left-right (some rs) none = refl
after_left-right (some rs) (some qs) = refl

-- For every API the combined results are those of the first dictionary followed by those of the
-- second one, where the keys of the first one are distinct: no result is lost, and the merging
-- repeats none.
pub get-combine_results_by_api :
    (api : String) (a b : Results)
    → Distinct a
    → get api (combine_results_by_api a b) ≡ merged (get api a) (get api b)
unfolding combine_results_by_api
get-combine_results_by_api api a b h =
    let left : get api (combine_left a b []) ≡ after_left (get api a) (get api b) none =
      unfold get in get-combine_left api a b [] h in
    get-combine_right api b (combine_left a b [])
    ∙ rw left (after_left-right (get api a) (get api b))
