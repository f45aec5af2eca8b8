-- ===== src/Wptserve/Ranges.antt =====
-- Byte ranges of a request: tools/wptserve/wptserve/ranges.py.
pub mod Order
pub mod Merge
pub mod Parsed
use wmas.Prelude.{
  ℕ, zero, suc, ◌+◌, ◌-◌, ◌*◌, String, Bool, true, false, not, ◌&&◌, ◌||◌, Option, none, some, List,
  [], ◌∷◌, ◌++◌, map, eqb, ltb, leb, ◌==◌, if◌then◌else◌, codes, split, starts_with, sort_by,
  any_of, drop_text,
}
use mathlib.Core.List.{reverse}
use wmas.Data.{Error, value_error, assertion_error, index_error, http_exception}
use wmas.Exec.{Result, ok, raised}
use wmas.Checked.{◌>>=◌, ◌>>◌, require, or_raised, instead, each}

-- `Range`; `upper` is the first position behind the range.
pub record Range : Type 0 where
  pub lower : ℕ
  pub upper : ℕ
  pub file_size : ℕ

abbrev pub max : ℕ → ℕ → ℕ
max a b = if ltb a b then b else a

abbrev pub min : ℕ → ℕ → ℕ
min a b = if ltb b a then b else a

-- `_abs`. `max(0, file_size - upper)` is the subtraction that stops at 0.
unfoldable pub absolute : Option ℕ → Option ℕ → ℕ → ℕ × ℕ
absolute none none file_size = (0, file_size)
absolute none (some upper) file_size = (file_size - upper, file_size)
absolute (some lower) none file_size = (lower, file_size)
absolute (some lower) (some upper) file_size = (lower, min file_size (upper + 1))

-- `Range.__init__`
unfoldable pub new_range : Option ℕ → Option ℕ → ℕ → Result Range
unfolding absolute
new_range lower upper file_size =
    let (l, u) = absolute lower upper file_size in
    if leb u l || leb file_size l
    then raised value_error
    else ok (record { lower = l; upper = u; file_size = file_size })

-- `__lt__` and what `sorted` makes of it: `a` may stand before `b`.
abbrev pub range_le : Range → Range → Bool
range_le a b = not (ltb b.lower a.lower)

-- `coalesce`
unfoldable pub coalesce : Range → Range → Result (List Range)
unfolding sort_by
coalesce self other = do
  require (eqb self.file_size other.file_size) assertion_error
  if ltb self.upper other.lower || ltb other.upper self.lower
      then ok (sort_by range_le (self ∷ other ∷ []))
      else (do
        merged ←
            new_range (some (min self.lower other.lower)) (some (max self.upper other.upper - 1))
              self.file_size
        ok (merged ∷ []))

-- The loop of `coalesce_ranges` behind its first round, and the last `append`: the result is `rv`
-- from its end. `coalesce` returns one range or two.
unfoldable pub merge : Range → List Range → List Range → Result (List Range)
merge target rv [] = ok (target ∷ rv)
merge target rv (current ∷ rest) = elim (coalesce target current) [
  | raised e ↦ raised e
  | ok new ↦ elim new [
    | [] ↦ raised index_error
    | first ∷ others ↦ merge first (elim others [ [] ↦ rv | second ∷ more ↦ second ∷ rv ]) rest
  ]
]

-- `coalesce_ranges`; for no range at all the list holds the `None` of `target`.
unfoldable pub coalesce_ranges : List Range → Result (List (Option Range))
coalesce_ranges ranges = elim (reverse (sort_by range_le ranges)) [
  | [] ↦ ok (none ∷ [])
  | target ∷ rest ↦ do rv ← merge target [] rest; ok (map some rv)
]

-- white space, among the ASCII characters
abbrev is_space : ℕ → Bool
is_space c = leb 9 c && leb c 13 || leb 28 c && leb c 32

abbrev skip_spaces : List ℕ → List ℕ
skip_spaces [] = []
skip_spaces (c ∷ cs) = if is_space c then skip_spaces cs else c ∷ cs

-- The digits of a number and the spaces behind them; `none` where there is something else.
unfoldable pub read_digits : ℕ → List ℕ → Option ℕ
read_digits n [] = some n
read_digits n (c ∷ cs) =
    let more = read_digits (n * 10 + (c - b'0')) cs in
    if leb b'0' c && leb c b'9'
    then more
    else elim (skip_spaces (c ∷ cs)) [ [] ↦ some n | d ∷ ds ↦ none ]

abbrev starts_with_digit : List ℕ → Bool
starts_with_digit [] = false
starts_with_digit (c ∷ cs) = leb b'0' c && leb c b'9'

abbrev skip_sign : List ℕ → List ℕ
skip_sign [] = []
skip_sign (c ∷ cs) = if eqb c b'+' then skip_spaces cs else c ∷ cs

-- `int(component)` of Python 2, for a text with no "-": `none` is the ValueError.
unfoldable pub read_int : List ℕ → Option ℕ
unfolding read_digits
read_int text =
    let number = skip_sign (skip_spaces text) in
    if starts_with_digit number then read_digits 0 number else none

-- A component of an item: `None` for "", else a number.
unfoldable pub read_component : String → Result (Option ℕ)
read_component component = if component == "" then ok none else elim (read_int (codes component)) [
  | none ↦ raised (http_exception 416)
  | some n ↦ ok (some n)
]

-- The body of the loop over the items, behind `item.split("-")`.
unfoldable pub read_parts : ℕ → List String → Result Range
read_parts file_size (a ∷ b ∷ []) = do
  lower ← read_component a
  upper ← read_component b
  instead (http_exception 416) (new_range lower upper file_size)
read_parts file_size _ = raised (http_exception 416)

unfoldable pub read_item : ℕ → String → Result Range
unfolding read_parts split
read_item file_size item = read_parts file_size (split b'-' item)

abbrev pub all_ascii : List ℕ → Bool
all_ascii [] = true
all_ascii (c ∷ cs) = ltb c 128 && all_ascii cs

-- `RangeParser.__call__`, on the bytes of the header as characters.
unfoldable pub parse_ranges : String → ℕ → Result (List (Option Range))
parse_ranges header file_size = do
  require (all_ascii (codes header)) (http_exception 400)
  require (starts_with header "bytes=") (http_exception 416)
  ranges ← each (read_item file_size) (split b',' (drop_text 6 header))
  coalesce_ranges ranges
