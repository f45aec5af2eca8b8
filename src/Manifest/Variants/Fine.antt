-- ===== src/Manifest/Variants/Fine.antt =====
-- What the variants of a test can raise in tools/manifest/sourcefile.py.
use wmas.Prelude.{
  ℕ, String, Bool, true, false, not, List, [], ◌∷◌, ◌≡◌, refl, arith, sym, subst, if◌then◌else◌,
  split, starts_with, drop_text, strip, is_byte_space, Bool-cases, inl, inr, minus_texts,
  union_texts, keep, mem_text, contains_text, replace_text,
}
use wmas.Exec.{Result}
use wmas.Checked.Outcome.{Outcome, Outcome-bind, Outcome-if}
use wmas.Manifest.Content.Fine.{Fine, expected}
use wmas.Manifest.Variants.{
  get_any_variants, get_default_any_variants, apply_item, apply_items, parse_variants,
  collect_suffixes, global_suffixes, global_variant_url, replace_end,
}
use wmas.Manifest.Variants.Suffixes.{
  known, get_any_variants-known, known-keep, known-union_texts, collect_suffixes-total,
}

abbrev Known : Result (List String) → Type 0
Known m = Outcome expected (λ names. known names ≡ true) m

get_any_variants-Known : (item : String) → Known (get_any_variants item)
unfolding get_any_variants
get_any_variants-Known item = elim (Bool-cases (starts_with item "!")) [
  | inl e ↦ rw (e, get_any_variants) refl
  | inr e ↦ let (names, eq, k) = get_any_variants-known item e in subst Known (sym eq) k
]

apply_item-Known :
    (globals : List String) (piece : String)
    → known globals ≡ true
    → Known (apply_item globals piece)
unfolding apply_item minus_texts
apply_item-Known globals piece k =
    let item = strip is_byte_space piece in
    Outcome-if expected (λ names. known names ≡ true) (starts_with item "!") _ _
      (λ e.
        Outcome-bind expected (λ names. known names ≡ true) (λ names. known names ≡ true)
          (get_any_variants (drop_text 1 item)) _ (get_any_variants-Known (drop_text 1 item))
          (λ names h. known-keep _ globals k))
      (λ e.
        Outcome-bind expected (λ names. known names ≡ true) (λ names. known names ≡ true)
          (get_any_variants item) _ (get_any_variants-Known item)
          (λ names h. known-union_texts globals names k h))

apply_items-Known :
    (globals pieces : List String) → known globals ≡ true → Known (apply_items globals pieces)
unfolding apply_items
apply_items-Known globals [] k = k
apply_items-Known globals (piece ∷ pieces) k =
    Outcome-bind expected (λ names. known names ≡ true) (λ names. known names ≡ true)
      (apply_item globals piece) _ (apply_item-Known globals piece k)
      (λ names h. apply_items-Known names pieces h)

collect_suffixes-Fine :
    (names : List String) → known names ≡ true → Fine (collect_suffixes [] names)
collect_suffixes-Fine names k =
    let (suffixes, eq) = collect_suffixes-total [] names k in subst Fine (sym eq) tt

pub global_suffixes-Fine : (value : String) → Fine (global_suffixes value)
unfolding global_suffixes parse_variants get_default_any_variants wmas.Prelude.Dict.get
global_suffixes-Fine value =
    Outcome-bind expected (λ names. known names ≡ true) (λ a. Unit) (parse_variants value) _
      (apply_items-Known get_default_any_variants (split b',' value) refl)
      (λ names k. collect_suffixes-Fine names k)

pub replace_end-Fine : (s old new : String) → Fine (replace_end s old new)
unfolding replace_end
replace_end-Fine s old new = ground arith

pub global_variant_url-Fine : (url suffix : String) → Fine (global_variant_url url suffix)
unfolding global_variant_url
global_variant_url-Fine url suffix = replace_end-Fine _ ".js" suffix
