-- ===== src/Examples/Ranges.antt =====
-- Headers with ranges.
use wmas.Prelude.{ℕ, true, none, some, List, [], ◌∷◌, ◌≡◌, refl, split, drop_text, arith}
use wmas.Exec.{ok}
use wmas.Checked.{each}
use wmas.Wptserve.Ranges.{Range, read_item, parse_ranges, coalesce_ranges}
use wmas.Wptserve.Ranges.Order.{holds}
use wmas.Wptserve.Ranges.Parsed.{Answer, parse_ranges-Answer, coalesce_ranges-overlap}

abbrev range : ℕ → ℕ → Range
range lower upper = record { lower = lower; upper = upper; file_size = 100 }

parse_two : parse_ranges "bytes=0-9,5-14" 100 ≡ ok (some (range 0 15) ∷ [])
unfolding parse_ranges wmas.Prelude.starts_with each split drop_text read_item
    wmas.Wptserve.Ranges.read_component wmas.Wptserve.Ranges.read_int wmas.Wptserve.Ranges.new_range
    coalesce_ranges wmas.Prelude.sort_by wmas.Wptserve.Ranges.merge wmas.Wptserve.Ranges.coalesce
parse_two = refl

parse_last : parse_ranges "bytes=-30,90-" 100 ≡ ok (some (range 70 100) ∷ [])
unfolding parse_ranges wmas.Prelude.starts_with each split drop_text read_item
    wmas.Wptserve.Ranges.read_component wmas.Wptserve.Ranges.read_int wmas.Wptserve.Ranges.new_range
    coalesce_ranges wmas.Prelude.sort_by wmas.Wptserve.Ranges.merge wmas.Wptserve.Ranges.coalesce
parse_last = refl

parse_ranges-Answer_example :
    Answer 100
      (each (read_item 100) (split b',' (drop_text 6 "bytes=0-9,5-14")))
      (parse_ranges "bytes=0-9,5-14" 100)
parse_ranges-Answer_example = parse_ranges-Answer "bytes=0-9,5-14" 100

coalesce_ranges-overlap_example :
    (coalesce_ranges (range 20 30 ∷ range 10 15 ∷ range 5 25 ∷ [])
      ≡ ok (some (range 5 25) ∷ some (range 20 30) ∷ []))
    × (holds 20 (range 5 25) ≡ true)
    × (holds 20 (range 20 30) ≡ true)
coalesce_ranges-overlap_example =
    coalesce_ranges-overlap 100 (range 20 30) (range 10 15) (range 5 25)
      (omega arith, omega arith, refl) (omega arith, omega arith, refl)
      (omega arith, omega arith, refl) (omega arith) (omega arith) (omega arith)
