-- ===== src/Results/Statuses.antt =====
-- The statuses that `prepare_result` of tools/wave/testing/results_manager.py leaves.
use wmas.Prelude.{
  Bool, true, false, Option, none, some, List, [], ◌∷◌, ◌≡◌, refl, arith, mem_text, eqb,
  if◌then◌else◌, subst,
}
use wmas.Data.{RawStatus, number, name, Subtest, TestResult}
use wmas.Results.{harness_status, subtest_status, prepare_subtests, move_tests, prepare_result}

-- One test of a status map: what it gives is mapped to itself.
one_status :
    (f : RawStatus → Option RawStatus) (b : Bool) (u : RawStatus) (others : Option RawStatus)
    (t : RawStatus)
    → f u ≡ some u
    → (others ≡ some t → f t ≡ some t)
    → (if b then some u else others) ≡ some t
    → f t ≡ some t
one_status f true u others t hu rest e = cc
one_status f false u others t hu rest e = rest e

harness_status_idem : (s t : RawStatus) → harness_status s ≡ some t → harness_status t ≡ some t
unfolding harness_status mem_text
harness_status_idem (number n) t h =
    one_status harness_status (eqb n 0) (name "OK") _ t refl
      (one_status harness_status (eqb n 1) (name "ERROR") _ t refl (
        one_status harness_status (eqb n 2) (name "TIMEOUT") _ t refl
          (one_status harness_status (eqb n 3) (name "NOTRUN") none t refl (λ e. cc))))
      h
harness_status_idem (name s) t h = ground arith

subtest_status_idem : (s t : RawStatus) → subtest_status s ≡ some t → subtest_status t ≡ some t
unfolding subtest_status mem_text
subtest_status_idem (number n) t h =
    one_status subtest_status (eqb n 0) (name "PASS") _ t refl
      (one_status subtest_status (eqb n 1) (name "FAIL") _ t refl (
        one_status subtest_status (eqb n 2) (name "TIMEOUT") _ t refl
          (one_status subtest_status (eqb n 3) (name "NOTRUN") none t refl (λ e. cc))))
      h
subtest_status_idem (name s) t h = ground arith

prepare_subtests_idem :
    (ts us : List Subtest) → prepare_subtests ts ≡ some us → prepare_subtests us ≡ some us
unfolding prepare_subtests
prepare_subtests_idem [] us h = ground arith
prepare_subtests_idem (t ∷ ts) us h =
    go (subtest_status t.status) (prepare_subtests ts) (subtest_status_idem t.status)
      (prepare_subtests_idem ts) h
  where
    built : RawStatus → List Subtest → List Subtest
    built s others = (record t { status = s; stack = none }) ∷ others

    go :
        (st : Option RawStatus) (rest : Option (List Subtest))
        → ((s : RawStatus) → st ≡ some s → subtest_status s ≡ some s)
        → ((qs : List Subtest) → rest ≡ some qs → prepare_subtests qs ≡ some qs)
        → (elim st [
          | none ↦ none
          | some s ↦ elim rest [ none ↦ none | some others ↦ some (built s others) ]
        ])
          ≡ some us
        → prepare_subtests us ≡ some us
    go none rest hs hr e = cc
    go (some s) none hs hr e = cc
    go (some s) (some others) hs hr e =
        let same : built s others ≡ us = cc in
        subst (λ (l : List Subtest). prepare_subtests l ≡ some l) same
          (ground (arith, hs s refl, hr others refl))

-- `move_tests` leaves no tests, or changes nothing where there were none.
move_tests_idem : (r m : TestResult) → move_tests r ≡ some m → (m.tests ≡ none)
unfolding move_tests
move_tests_idem r m h = ground arith

abbrev IsPrepared : TestResult → Type 0
IsPrepared r = (prepare_result r ≡ some r) × (r.tests ≡ none) × (r.stack ≡ none)

with_status-IsPrepared :
    (m : TestResult) (s : RawStatus)
    → m.tests ≡ none
    → harness_status s ≡ some s
    → IsPrepared (record m { status = s; stack = none })
unfolding prepare_result move_tests
with_status-IsPrepared m s no_tests mapped = (ground arith, no_tests, refl)

-- What `prepare_result` returns is prepared: it has no "tests" and no "stack", and preparing it
-- again succeeds and changes nothing.
pub prepare_result_idem :
    (posted result : TestResult)
    → prepare_result posted ≡ some result
    → (prepare_result result ≡ some result) × (result.tests ≡ none) × (result.stack ≡ none)
unfolding prepare_result
prepare_result_idem posted result h = go (move_tests posted) (move_tests_idem posted) h
  where
    finish :
        (m : TestResult) (st : Option RawStatus)
        → m.tests ≡ none
        → ((s : RawStatus) → st ≡ some s → harness_status s ≡ some s)
        → (elim st [
          | none ↦ none
          | some status ↦ some (record m { status = status; stack = none })
        ])
          ≡ some result
        → IsPrepared result
    finish m none no_tests hs e = cc
    finish m (some s) no_tests hs e =
        let same : (record m { status = s; stack = none }) ≡ result = cc in
        subst IsPrepared same (with_status-IsPrepared m s no_tests (hs s refl))

    go :
        (moved : Option TestResult)
        → ((m : TestResult) → moved ≡ some m → m.tests ≡ none)
        → (elim moved [
          | none ↦ none
          | some m ↦ elim (harness_status m.status) [
            | none ↦ none
            | some status ↦ some (record m { status = status; stack = none })
          ]
        ])
          ≡ some result
        → IsPrepared result
    go none hm e = cc
    go (some m) hm e =
        finish m (harness_status m.status) (hm m refl) (harness_status_idem m.status) e
