-- ===== src/Wptserve/Ranges/Parsed.antt =====
-- What `RangeParser` of tools/wptserve/wptserve/ranges.py answers to a header, and where its ranges
-- overlap.
use wmas.Prelude.{
  ℕ, ◌<◌, String, Bool, true, false, Option, some, List, [], ◌∷◌, ◌≡◌, ◌≢◌, refl, map, eqb, All,
  arith, sort_by, insert_by, ap, if◌then◌else◌, inl, inr, ◌⊎◌, split, push_char, codes, starts_with,
  drop_text,
}
use Prim.Native.Char.{code}
use wmas.Exec.{Result, ok, raised}
use wmas.Checked.{◌>>=◌, ◌>>◌, each, require, instead}
use wmas.Data.{Error, http_exception}
use wmas.Wptserve.Ranges.{
  Range, new_range, coalesce, merge, coalesce_ranges, read_item, parse_ranges, read_parts,
  all_ascii, read_component,
}
use wmas.Wptserve.Ranges.Order.{holds, covered}
use wmas.Wptserve.Ranges.Merge.{IsWithin, new_range-IsWithin, Coalesced, coalesce_ranges-Coalesced}

-- Let a, b and c be ranges of one file where b ends before a begins, and c begins before b and ends
-- after the beginning of a. Then coalesce_ranges of the three returns c and a, which
-- overlap: both hold the first position of a.
pub coalesce_ranges-overlap :
    (size : ℕ) (a b c : Range)
    → IsWithin size a
    → IsWithin size b
    → IsWithin size c
    → c.lower < b.lower
    → b.upper < a.lower
    → a.lower < c.upper
    → (coalesce_ranges (a ∷ b ∷ c ∷ []) ≡ ok (some c ∷ some a ∷ []))
      × (holds a.lower c ≡ true)
      × (holds a.lower a ≡ true)
unfolding coalesce_ranges merge coalesce sort_by insert_by new_range
coalesce_ranges-overlap size a b c ha hb hc cb ba ac = ground arith

read_component-416 : (s : String) (e : Error) → read_component s ≡ raised e → e ≡ http_exception 416
unfolding read_component
read_component-416 s e h = ground arith

bind-416 :
    (a : Result (Option ℕ)) (f : Option ℕ → Result Range) (e : Error)
    → ((e' : Error) → a ≡ raised e' → e' ≡ http_exception 416)
    → ((n : Option ℕ) (e' : Error) → f n ≡ raised e' → e' ≡ http_exception 416)
    → a >>= f ≡ raised e
    → e ≡ http_exception 416
bind-416 (ok n) f e ha hf h = hf n e h
bind-416 (raised e') f e ha hf h = ha e (ground arith)

instead-416 :
    (r : Result Range) (e : Error)
    → instead (http_exception 416) r ≡ raised e
    → e ≡ http_exception 416
instead-416 (ok r) e h = ground arith
instead-416 (raised e') e h = ground arith

read_parts-416 :
    (size : ℕ) (parts : List String) (e : Error)
    → read_parts size parts ≡ raised e
    → e ≡ http_exception 416
unfolding read_parts
read_parts-416 size [] e h = ground arith
read_parts-416 size (a ∷ []) e h = ground arith
read_parts-416 size (a ∷ b ∷ []) e h =
    bind-416 (read_component a) _ e (read_component-416 a)
      (λ l e'.
        bind-416 (read_component b) _ e' (read_component-416 b)
          (λ u. instead-416 (new_range l u size)))
      h
read_parts-416 size (a ∷ b ∷ c ∷ parts) e h = ground arith

read_item-416 :
    (size : ℕ) (item : String) (e : Error) → read_item size item ≡ raised e → e ≡ http_exception 416
unfolding read_item
read_item-416 size item e h = read_parts-416 size (split b'-' item) e h

bind-ok :
    (a : Result (Option ℕ)) (f : Option ℕ → Result Range) (r : Range)
    → a >>= f ≡ ok r
    → (n : Option ℕ) × (f n ≡ ok r)
bind-ok (ok n) f r h = (n, h)
bind-ok (raised e') f r h = ground arith

instead-ok : (x : Result Range) (r : Range) → instead (http_exception 416) x ≡ ok r → x ≡ ok r
instead-ok (ok x) r h = h
instead-ok (raised e') r h = ground arith

read_parts-IsWithin :
    (size : ℕ) (parts : List String) (r : Range) → read_parts size parts ≡ ok r → IsWithin size r
unfolding read_parts
read_parts-IsWithin size [] r h = ground arith
read_parts-IsWithin size (a ∷ []) r h = ground arith
read_parts-IsWithin size (a ∷ b ∷ []) r h =
    let (l, hl) = bind-ok (read_component a) _ r h in
    let (u, hu) = bind-ok (read_component b) _ r hl in
    new_range-IsWithin l u size r (instead-ok (new_range l u size) r hu)
read_parts-IsWithin size (a ∷ b ∷ c ∷ parts) r h = ground arith

read_item-IsWithin :
    (size : ℕ) (item : String) (r : Range) → read_item size item ≡ ok r → IsWithin size r
unfolding read_item
read_item-IsWithin size item r h = read_parts-IsWithin size (split b'-' item) r h

-- The ranges that the items give.
Accepted : ℕ → Result (List Range) → Type 0
Accepted size (ok ranges) = All (IsWithin size) ranges
Accepted size (raised e) = e ≡ http_exception 416

cons-Accepted :
    (size : ℕ) (x : Result Range) (xs : Result (List Range))
    → ((r : Range) → x ≡ ok r → IsWithin size r)
    → ((e : Error) → x ≡ raised e → e ≡ http_exception 416)
    → Accepted size xs
    → Accepted size (do y ← x; ys ← xs; ok (y ∷ ys))
unfolding Accepted
cons-Accepted size (raised e) xs hr he all = he e refl
cons-Accepted size (ok r) (raised e) hr he all = all
cons-Accepted size (ok r) (ok ranges) hr he all = (hr r refl, all)

each-Accepted : (size : ℕ) (items : List String) → Accepted size (each (read_item size) items)
unfolding each Accepted
each-Accepted size [] = tt
each-Accepted size (item ∷ items) =
    cons-Accepted size (read_item size item) (each (read_item size) items)
      (read_item-IsWithin size item) (read_item-416 size item) (each-Accepted size items)

each-some : (size : ℕ) (items : List String) → items ≢ [] → each (read_item size) items ≢ ok []
unfolding each
each-some size [] some_item h = some_item refl
each-some size (item ∷ items) some_item h = ground arith

split-some : (sep : ℕ) (s : String) → split sep s ≢ []
unfolding split
split-some sep String.[] e = ground arith
split-some sep (String.◌∷◌ c s) e =
    elim (split sep s) as (λ l. (if eqb (code c) sep then "" ∷ l else push_char c l) ≢ []) [
      | [] ↦ ground arith
      | w ∷ ws ↦ ground arith
    ]
      e

-- What the parser answers: 400, 416, or the ranges that `coalesce_ranges` makes of the items'.
abbrev pub Answer : ℕ → Result (List Range) → Result (List (Option Range)) → Type 0
Answer size items r =
    (r ≡ raised (http_exception 400))
    ⊎ ((r ≡ raised (http_exception 416))
        ⊎ ((ranges : List Range) × (result : List Range) × (items ≡ ok ranges)
            × (r ≡ ok (map some result))
            × Coalesced size (λ i. covered i ranges) result))

coalesced-Answer :
    (size : ℕ) (items : Result (List Range))
    → Accepted size items
    → items ≢ ok []
    → Answer size items (items >>= coalesce_ranges)
unfolding Accepted
coalesced-Answer size (raised e) all some_item = inr (inl (ap raised all))
coalesced-Answer size (ok ranges) all some_item =
    let (result, eq, c) = coalesce_ranges-Coalesced size ranges (λ e. some_item (ap ok e)) all in
    inr (inr (ranges, result, refl, eq, c))

require-Answer :
    (size : ℕ) (items : Result (List Range)) (a b : Bool) (m : Result (List (Option Range)))
    → Answer size items m
    → Answer size items (do require a (http_exception 400); require b (http_exception 416); m)
require-Answer size items false b m h = inl refl
require-Answer size items true false m h = inr (inl refl)
require-Answer size items true true m h = h

-- Every header has an answer: the error 400, the error 416, or, where each item gives a range,
-- ranges of the file in the order of their lower ends that hold the same positions as the ranges
-- of the items.
pub parse_ranges-Answer :
    (header : String) (size : ℕ)
    → Answer size
        (each (read_item size) (split b',' (drop_text 6 header)))
        (parse_ranges header size)
unfolding parse_ranges
parse_ranges-Answer header size =
    let parts = split b',' (drop_text 6 header) in
    require-Answer size (each (read_item size) parts) (all_ascii (codes header))
      (starts_with header "bytes=") (each (read_item size) parts >>= coalesce_ranges)
      (coalesced-Answer size (each (read_item size) parts) (each-Accepted size parts)
        (each-some size parts (split-some b',' (drop_text 6 header))))
