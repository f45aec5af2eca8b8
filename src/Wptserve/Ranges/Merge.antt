-- ===== src/Wptserve/Ranges/Merge.antt =====
-- What `coalesce_ranges` of tools/wptserve/wptserve/ranges.py returns.
use wmas.Prelude.{
  ℕ, ◌<◌, ◌≤◌, Bool, ◌||◌, Option, none, some, List, [], ◌∷◌, ◌≡◌, ◌≢◌, refl, map, ltb, All, any_of,
  arith, sort_by, insert_by, ◌∙◌, Bool-cases, inl, inr, subst,
}
use mathlib.Core.List.{reverse}
use wmas.Checked.{◌>>=◌}
use wmas.Exec.{ok}
use wmas.Wptserve.Ranges.{Range, range_le, max, min, new_range, coalesce, merge, coalesce_ranges}
use wmas.Wptserve.Ranges.Order.{
  holds, covered, Ascending, Descending, covered-reverse-sort_by, All-reverse-sort_by,
  reverse-sort_by-Descending,
}

-- A range of a file of this size that is not empty.
abbrev pub IsWithin : ℕ → Range → Type 0
IsWithin size r = (r.lower < r.upper) × (r.upper ≤ size) × (r.file_size ≡ size)

-- What an accepted range is.
pub new_range-IsWithin :
    (lower upper : Option ℕ) (size : ℕ) (r : Range)
    → new_range lower upper size ≡ ok r
    → IsWithin size r
unfolding new_range
new_range-IsWithin none none size r h = ground arith
new_range-IsWithin none (some u) size r h = ground arith
new_range-IsWithin (some l) none size r h = ground arith
new_range-IsWithin (some l) (some u) size r h = ground arith

-- The range from the lower one of the lower ends to the upper one of the upper ends.
abbrev joined : ℕ → Range → Range → Range
joined size a b = record {
  lower = min a.lower b.lower;
  upper = max a.upper b.upper;
  file_size = size;
}

coalesce-apart :
    (size : ℕ) (a b : Range)
    → IsWithin size a
    → IsWithin size b
    → b.upper < a.lower
    → coalesce a b ≡ ok (b ∷ a ∷ [])
unfolding coalesce sort_by insert_by
coalesce-apart size a b ha hb apart = ground arith

coalesce-joined :
    (size : ℕ) (a b : Range)
    → IsWithin size a
    → IsWithin size b
    → b.lower ≤ a.lower
    → a.lower ≤ b.upper
    → coalesce a b ≡ ok (joined size a b ∷ [])
unfolding coalesce new_range
coalesce-joined size a b ha hb le near = ground arith

-- The ranges of the result are ranges of the file in the order of their lower ends, and hold the
-- same positions as those in `given`.
pub record Coalesced (size : ℕ) (given : ℕ → Bool) (result : List Range) : Type 0 where
  pub within : All (IsWithin size) result
  pub ascending : Ascending result
  pub same : (i : ℕ) → covered i result ≡ given i

lower_bounds :
    (a b : ℕ) (ranges : List Range)
    → a ≤ b
    → All (λ (s : Range). b ≤ s.lower) ranges
    → All (λ (s : Range). a ≤ s.lower) ranges
lower_bounds a b [] le all = tt
lower_bounds a b (r ∷ ranges) le all = (omega arith, lower_bounds a b ranges le all.1)

-- The positions of the target, of the finished ranges and of those to come.
abbrev all_of : Range → List Range → List Range → ℕ → Bool
all_of target rv rest i = holds i target || covered i rv || covered i rest

all_of-apart :
    (t c : Range) (rv rest : List Range) (i : ℕ)
    → all_of c (t ∷ rv) rest i ≡ all_of t rv (c ∷ rest) i
unfolding any_of
all_of-apart t c rv rest i = ground arith

all_of-joined :
    (size : ℕ) (t c : Range) (rv rest : List Range) (i : ℕ)
    → IsWithin size t
    → IsWithin size c
    → c.lower ≤ t.lower
    → t.lower ≤ c.upper
    → all_of (joined size t c) rv rest i ≡ all_of t rv (c ∷ rest) i
unfolding any_of
all_of-joined size t c rv rest i ht hc le near = ground arith

upper_bounds-joined :
    (size : ℕ) (t c : Range) (ranges : List Range)
    → c.lower ≤ t.lower
    → All (λ (s : Range). s.lower ≤ c.lower) ranges
    → All (λ (s : Range). s.lower ≤ (joined size t c).lower) ranges
upper_bounds-joined size t c [] le all = tt
upper_bounds-joined size t c (r ∷ ranges) le all =
    (ground arith, upper_bounds-joined size t c ranges le all.1)

merge-two :
    (target current first second : Range) (rv rest : List Range)
    → coalesce target current ≡ ok (first ∷ second ∷ [])
    → merge target rv (current ∷ rest) ≡ merge first (second ∷ rv) rest
unfolding merge
merge-two target current first second rv rest e = rw (e, merge) refl

merge-one :
    (target current first : Range) (rv rest : List Range)
    → coalesce target current ≡ ok (first ∷ [])
    → merge target rv (current ∷ rest) ≡ merge first rv rest
unfolding merge
merge-one target current first rv rest e = rw (e, merge) refl

merge-Coalesced :
    (size : ℕ) (target : Range) (rv rest : List Range)
    → IsWithin size target
    → All (IsWithin size) rv
    → All (IsWithin size) rest
    → Ascending (target ∷ rv)
    → Descending (target ∷ rest)
    → (result : List Range) × (merge target rv rest ≡ ok result)
      × Coalesced size (all_of target rv rest) result
unfolding merge
merge-Coalesced size target rv [] ht hv hr up down = (
  target ∷ rv,
  refl,
  record { within = (ht, hv); ascending = up; same = λ i. unfold any_of in ground arith },
)
merge-Coalesced size target rv (current ∷ rest) ht hv hr up down =
    elim (Bool-cases (ltb current.upper target.lower)) [
      | inl e ↦
          let apart : current.upper < target.lower = ground arith in
          let (result, eq, c) =
            merge-Coalesced size current (target ∷ rv) rest hr.0 (ht, hv) hr.1
              ((ground arith, lower_bounds current.lower target.lower rv (ground arith) up.0), up)
              down.1 in
          (
            result,
            merge-two target current current target rv rest
                  (coalesce-apart size target current ht hr.0 apart)
                ∙ eq,
            record {
              within = c.within;
              ascending = c.ascending;
              same = λ i. c.same i ∙ all_of-apart target current rv rest i;
            },
          )
      | inr e ↦
          let near : target.lower ≤ current.upper = ground arith in
          let le : current.lower ≤ target.lower = down.0.0 in
          let (result, eq, c) =
            merge-Coalesced size (joined size target current) rv rest (ground arith) hv hr.1
              (
                lower_bounds (joined size target current).lower target.lower rv (ground arith) up.0,
                up.1,
              )
              (upper_bounds-joined size target current rest le down.1.0, down.1.1) in
          (
            result,
            merge-one target current (joined size target current) rv rest
                  (coalesce-joined size target current ht hr.0 le near)
                ∙ eq,
            record {
              within = c.within;
              ascending = c.ascending;
              same = λ i. c.same i ∙ all_of-joined size target current rv rest i ht hr.0 le near;
            },
          )
    ]

merge_sorted :
    (size : ℕ) (d : List Range)
    → d ≢ []
    → All (IsWithin size) d
    → Descending d
    → (result : List Range) × ((elim d [
      | [] ↦ ok (none ∷ [])
      | target ∷ rest ↦ do rv ← merge target [] rest; ok (map some rv)
    ])
        ≡ ok (map some result))
      × Coalesced size (λ i. covered i d) result
merge_sorted size [] some_range within down = elim (some_range refl) [ ]
merge_sorted size (target ∷ rest) some_range within down =
    let (result, eq, c) = merge-Coalesced size target [] rest within.0 tt within.1 (tt, tt) down in
    (
      result,
      rw eq refl,
      record {
        within = c.within;
        ascending = c.ascending;
        same = λ i. c.same i ∙ unfold any_of in ground arith;
      },
    )

sorted_some :
    (size : ℕ) (ranges : List Range)
    → ranges ≢ []
    → All (IsWithin size) ranges
    → reverse (sort_by range_le ranges) ≢ []
sorted_some size [] some_range within empty = some_range refl
sorted_some size (r ∷ ranges) some_range within empty =
    let same : covered r.lower [] ≡ covered r.lower (r ∷ ranges) =
      subst (λ d. covered r.lower d ≡ covered r.lower (r ∷ ranges)) empty
        (covered-reverse-sort_by r.lower (r ∷ ranges)) in
    unfold any_of in ground arith

-- For ranges of a file, at least one of them: `coalesce_ranges` returns ranges of the file that
-- hold the same positions, in the order of their lower ends.
pub coalesce_ranges-Coalesced :
    (size : ℕ) (ranges : List Range)
    → ranges ≢ []
    → All (IsWithin size) ranges
    → (result : List Range) × (coalesce_ranges ranges ≡ ok (map some result))
      × Coalesced size (λ i. covered i ranges) result
unfolding coalesce_ranges
coalesce_ranges-Coalesced size ranges some_range within =
    let (result, eq, c) =
      merge_sorted size (reverse (sort_by range_le ranges))
        (sorted_some size ranges some_range within)
        (All-reverse-sort_by (IsWithin size) ranges within) (reverse-sort_by-Descending ranges) in
    (
      result,
      eq,
      record {
        within = c.within;
        ascending = c.ascending;
        same = λ i. c.same i ∙ covered-reverse-sort_by i ranges;
      },
    )
