-- ===== src/Manifest/Variants/Suffixes.antt =====
-- Which variants a text of tools/manifest/sourcefile.py can name.
use wmas.Prelude.{
  String, Bool, true, false, ◌&&◌, Option, none, some, List, [], ◌∷◌, ◌++◌, ◌≡◌, refl, ◌==◌, arith,
  split, starts_with, drop_text, strip, is_byte_space, Bool-cases, Option-cases, inl, inr, ◌∙◌,
  any_of, union_texts, minus_texts, add_text, keep, is_some, or_else, subst, sym, if-true, if-false,
}
use wmas.Prelude.Dict.{Dict, get}
use wmas.Exec.{Result, ok}
use wmas.Checked.{◌>>=◌}
use wmas.Manifest.Variants.{
  Variant, any_variants, get_any_variants, get_default_any_variants, apply_item, apply_items,
  parse_variants, collect_suffixes, add_suffix, suffix_of, global_suffixes,
}

-- Every name of the list is a key of `_any_variants`.
abbrev pub known : List String → Bool
known [] = true
known (w ∷ ws) = is_some (get w any_variants) && known ws

-- Does the item, without the spaces around it, begin with two "!"?
abbrev pub negated_twice : String → Bool
negated_twice piece =
    let item = strip is_byte_space piece in
    starts_with item "!" && starts_with (drop_text 1 item) "!"

known-append : (xs ys : List String) → known xs ≡ true → known ys ≡ true → known (xs ++ ys) ≡ true
known-append [] ys hx hy = hy
known-append (x ∷ xs) ys hx hy = ground (arith, known-append xs ys (ground arith) hy)

known-add_text :
    (x : String) (xs : List String)
    → is_some (get x any_variants) ≡ true
    → known xs ≡ true
    → known (add_text x xs) ≡ true
unfolding add_text
known-add_text x xs hx hxs = ground (arith, known-append xs (x ∷ []) hxs (ground arith))

pub known-union_texts :
    (xs ys : List String) → known xs ≡ true → known ys ≡ true → known (union_texts xs ys) ≡ true
unfolding union_texts
known-union_texts xs [] hx hy = hx
known-union_texts xs (y ∷ ys) hx hy =
    known-union_texts (add_text y xs) ys (known-add_text y xs (ground arith) hx) (ground arith)

pub known-keep : (f : String → Bool) (xs : List String) → known xs ≡ true → known (keep f xs) ≡ true
unfolding keep
known-keep f [] h = refl
known-keep f (x ∷ xs) h = ground (arith, known-keep f xs (ground arith))

abbrev longhand_known : Option (List String) → Bool
longhand_known none = true
longhand_known (some names) = known names

abbrev all_longhands_known : Dict Variant → Bool
all_longhands_known [] = true
all_longhands_known ((k, v) ∷ d) = longhand_known v.longhand && all_longhands_known d

abbrev known_option : Option Variant → Bool
known_option none = true
known_option (some v) = longhand_known v.longhand

get-longhand_known :
    (item : String) (v : Variant) (d : Dict Variant)
    → all_longhands_known d ≡ true
    → get item d ≡ some v
    → longhand_known v.longhand ≡ true
unfolding get
get-longhand_known item v [] all h = ground arith
get-longhand_known item v ((k, w) ∷ d) all h = elim (Bool-cases (k == item)) [
  | inl e ↦
      let found : get item ((k, w) ∷ d) ≡ some w = simp e refl in
      subst (λ o. known_option o ≡ true) (sym found ∙ h) (ground arith)
  | inr e ↦
      let found : get item ((k, w) ∷ d) ≡ get item d = simp e refl in
      get-longhand_known item v d (ground arith) (sym found ∙ h)
]

known-longhand :
    (item : String) (names : Option (List String))
    → is_some (get item any_variants) ≡ true
    → longhand_known names ≡ true
    → known (or_else names (item ∷ [])) ≡ true
known-longhand item none h k = ground arith
known-longhand item (some names) h k = k

pub get_any_variants-known :
    (item : String)
    → starts_with item "!" ≡ false
    → (names : List String) × (get_any_variants item ≡ ok names) × (known names ≡ true)
unfolding get_any_variants get
get_any_variants-known item plain = elim (Option-cases (get item any_variants)) [
  | inl e ↦ ([], simp (plain, e) refl, refl)
  | inr (v, e) ↦ (
    or_else v.longhand (item ∷ []),
    simp (plain, e) refl,
    known-longhand item v.longhand (simp e refl) (get-longhand_known item v any_variants refl e),
  )
]

bind-ok :
    (m : Result (List String)) (f : List String → List String) (names : List String)
    → m ≡ ok names
    → (do x ← m; ok (f x)) ≡ ok (f names)
bind-ok m f names e = rw e refl

apply_item-known :
    (globals : List String) (piece : String)
    → known globals ≡ true
    → negated_twice piece ≡ false
    → (names : List String) × (apply_item globals piece ≡ ok names) × (known names ≡ true)
unfolding apply_item minus_texts
apply_item-known globals piece k once =
    let item = strip is_byte_space piece in
    elim (Bool-cases (starts_with item "!")) [
      | inl e ↦
          let (names, eq, all) = get_any_variants-known (drop_text 1 item) (ground arith) in
          (
            minus_texts globals names,
            if-true (starts_with item "!") _ _ e ∙ bind-ok _ (minus_texts globals) names eq,
            known-keep _ globals k,
          )
      | inr e ↦
          let (names, eq, all) = get_any_variants-known item e in
          (
            union_texts globals names,
            if-false (starts_with item "!") _ _ e ∙ bind-ok _ (union_texts globals) names eq,
            known-union_texts globals names k all,
          )
    ]

apply_items-known :
    (globals pieces : List String)
    → known globals ≡ true
    → any_of negated_twice pieces ≡ false
    → (names : List String) × (apply_items globals pieces ≡ ok names) × (known names ≡ true)
unfolding apply_items any_of
apply_items-known globals [] k once = (globals, refl, k)
apply_items-known globals (piece ∷ pieces) k once =
    let (names, eq, all) = apply_item-known globals piece k (ground arith) in
    let (rest, eq', all') = apply_items-known names pieces all (ground arith) in
    (rest, rw eq eq', all')

pub collect_suffixes-total :
    (rv : List (String × Bool)) (names : List String)
    → known names ≡ true
    → (suffixes : List (String × Bool)) × (collect_suffixes rv names ≡ ok suffixes)
unfolding collect_suffixes
collect_suffixes-total rv [] k = (rv, refl)
collect_suffixes-total rv (name ∷ names) k = elim (Option-cases (get name any_variants)) [
  | inl e ↦ ground (arith, e)
  | inr (v, e) ↦
      let (suffixes, eq) =
        collect_suffixes-total (add_suffix (suffix_of name v) rv) names (ground arith) in
      (suffixes, rw (e, collect_suffixes) eq)
]

-- Unless one of the items between the commas, without the spaces around it, begins with two "!":
-- global_suffixes returns suffixes. It never fails to find a variant in _any_variants, whatever
-- names the value holds, and parse_variants returns keys of _any_variants only.
pub global_suffixes-total :
    (value : String)
    → any_of negated_twice (split b',' value) ≡ false
    → (names : List String) × (parse_variants value ≡ ok names)
      × (known names ≡ true)
      × ((suffixes : List (String × Bool)) × (global_suffixes value ≡ ok suffixes))
unfolding parse_variants global_suffixes get_default_any_variants get
global_suffixes-total value once =
    let (names, eq, all) =
      apply_items-known get_default_any_variants (split b',' value) refl once in
    let (suffixes, eq') = collect_suffixes-total [] names all in
    (names, eq, all, (suffixes, rw eq eq'))
