-- ===== src/Wptserve/Ranges/Order.antt =====
-- Ranges in the order of their lower ends.
use wmas.Prelude.{
  ℕ, ◌≤◌, Bool, ◌&&◌, ◌||◌, List, [], ◌∷◌, ◌≡◌, refl, ltb, leb, All, any_of, arith, sort_by,
  insert_by, Bool-cases, inl, inr,
}
use mathlib.Core.List.{reverse, reverse_aux}
use wmas.Wptserve.Ranges.{Range, range_le}

-- Does a range hold the position?
abbrev pub holds : ℕ → Range → Bool
holds i r = leb r.lower i && ltb i r.upper

-- Does one of the ranges hold the position?
abbrev pub covered : ℕ → List Range → Bool
covered i ranges = any_of (holds i) ranges

covered-insert_by :
    (i : ℕ) (r : Range) (ranges : List Range)
    → covered i (insert_by range_le r ranges) ≡ (holds i r || covered i ranges)
unfolding insert_by any_of
covered-insert_by i r [] = refl
covered-insert_by i r (s ∷ ranges) = ground (arith, covered-insert_by i r ranges)

covered-sort_by :
    (i : ℕ) (ranges : List Range) → covered i (sort_by range_le ranges) ≡ covered i ranges
unfolding sort_by any_of
covered-sort_by i [] = refl
covered-sort_by i (r ∷ ranges) =
    ground (arith, covered-insert_by i r (sort_by range_le ranges), covered-sort_by i ranges)

covered-reverse_aux :
    (i : ℕ) (ranges acc : List Range)
    → covered i (reverse_aux ranges acc) ≡ (covered i ranges || covered i acc)
unfolding any_of
covered-reverse_aux i [] acc = refl
covered-reverse_aux i (r ∷ ranges) acc = ground (arith, covered-reverse_aux i ranges (r ∷ acc))

-- Sorting and turning around changes no position.
pub covered-reverse-sort_by :
    (i : ℕ) (ranges : List Range) → covered i (reverse (sort_by range_le ranges)) ≡ covered i ranges
unfolding any_of
covered-reverse-sort_by i ranges =
    ground (arith, covered-reverse_aux i (sort_by range_le ranges) [], covered-sort_by i ranges)

-- The lower ends go down.
abbrev pub Descending : List Range → Type 0
Descending [] = Unit
Descending (r ∷ ranges) = All (λ (s : Range). s.lower ≤ r.lower) ranges × Descending ranges

-- The lower ends go up.
abbrev pub Ascending : List Range → Type 0
Ascending [] = Unit
Ascending (r ∷ ranges) = All (λ (s : Range). r.lower ≤ s.lower) ranges × Ascending ranges

module _ (P : Range → Type 0) where
  All-insert_by :
      (r : Range) (ranges : List Range) → P r → All P ranges → All P (insert_by range_le r ranges)
  unfolding insert_by
  All-insert_by r [] p all = (p, tt)
  All-insert_by r (s ∷ ranges) p all = ground (arith, All-insert_by r ranges p all.1)

  All-sort_by : (ranges : List Range) → All P ranges → All P (sort_by range_le ranges)
  unfolding sort_by
  All-sort_by [] all = tt
  All-sort_by (r ∷ ranges) all =
      All-insert_by r (sort_by range_le ranges) all.0 (All-sort_by ranges all.1)

  All-reverse_aux :
      (ranges acc : List Range) → All P ranges → All P acc → All P (reverse_aux ranges acc)
  All-reverse_aux [] acc all rest = rest
  All-reverse_aux (r ∷ ranges) acc all rest = All-reverse_aux ranges (r ∷ acc) all.1 (all.0, rest)

  pub All-reverse-sort_by :
      (ranges : List Range) → All P ranges → All P (reverse (sort_by range_le ranges))
  All-reverse-sort_by ranges all =
      All-reverse_aux (sort_by range_le ranges) [] (All-sort_by ranges all) tt

weaken :
    (a b : ℕ) (ranges : List Range)
    → a ≤ b
    → All (λ (s : Range). b ≤ s.lower) ranges
    → All (λ (s : Range). a ≤ s.lower) ranges
weaken a b [] le all = tt
weaken a b (r ∷ ranges) le all = (omega arith, weaken a b ranges le all.1)

insert_by-Ascending :
    (r : Range) (ranges : List Range) → Ascending ranges → Ascending (insert_by range_le r ranges)
unfolding insert_by
insert_by-Ascending r [] asc = (tt, tt)
insert_by-Ascending r (s ∷ ranges) asc = elim (Bool-cases (ltb s.lower r.lower)) [
  | inl e ↦ simp e (
    All-insert_by (λ (t : Range). s.lower ≤ t.lower) r ranges (ground arith) asc.0,
    insert_by-Ascending r ranges asc.1,
  )
  | inr e ↦
      simp e ((ground arith, weaken r.lower s.lower ranges (ground arith) asc.0), (asc.0, asc.1))
]

sort_by-Ascending : (ranges : List Range) → Ascending (sort_by range_le ranges)
unfolding sort_by
sort_by-Ascending [] = tt
sort_by-Ascending (r ∷ ranges) =
    insert_by-Ascending r (sort_by range_le ranges) (sort_by-Ascending ranges)

-- All ranges of the second list stand below those of the first one.
Below : List Range → List Range → Type 0
Below [] acc = Unit
Below (r ∷ ranges) acc = All (λ (s : Range). s.lower ≤ r.lower) acc × Below ranges acc

Below-cons :
    (r : Range) (ranges acc : List Range)
    → All (λ (s : Range). r.lower ≤ s.lower) ranges
    → Below ranges acc
    → Below ranges (r ∷ acc)
unfolding Below
Below-cons r [] acc all below = tt
Below-cons r (s ∷ ranges) acc all below = ((all.0, below.0), Below-cons r ranges acc all.1 below.1)

reverse_aux-Descending :
    (ranges acc : List Range)
    → Ascending ranges
    → Below ranges acc
    → Descending acc
    → Descending (reverse_aux ranges acc)
unfolding Below
reverse_aux-Descending [] acc asc below desc = desc
reverse_aux-Descending (r ∷ ranges) acc asc below desc =
    reverse_aux-Descending ranges (r ∷ acc) asc.1 (Below-cons r ranges acc asc.0 below.1)
      (below.0, desc)

Below-nil : (ranges : List Range) → Below ranges []
unfolding Below
Below-nil [] = tt
Below-nil (r ∷ ranges) = (tt, Below-nil ranges)

pub reverse-sort_by-Descending :
    (ranges : List Range) → Descending (reverse (sort_by range_le ranges))
reverse-sort_by-Descending ranges =
    reverse_aux-Descending (sort_by range_le ranges) [] (sort_by-Ascending ranges)
      (Below-nil (sort_by range_le ranges)) tt
