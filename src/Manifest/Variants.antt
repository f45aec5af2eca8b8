-- ===== src/Manifest/Variants.antt =====
-- The variants of a test that runs in several global scopes: tools/manifest/sourcefile.py.
-- A set is a list in which nothing stands twice.
pub mod Suffixes
pub mod Fine
use wmas.Prelude.{
  ℕ, ◌-◌, String, Bool, true, false, not, ◌&&◌, ◌||◌, Option, none, some, List, [], ◌∷◌, ◌++◌, ◌==◌,
  if◌then◌else◌, ◌+s◌, text_length, split, starts_with, ends_with, contains_text, drop_text,
  take_text, replace_text, strip, is_byte_space, union_texts, minus_texts, or_else,
}
use wmas.Prelude.Dict.{Dict, get}
use wmas.Data.{Error, assertion_error, key_error}
use wmas.Exec.{Result, ok, raised}
use wmas.Checked.{◌>>=◌, ◌>>◌, require, or_raised}

-- `replace_end`; `s[:-0]` is the empty text.
unfoldable pub replace_end : String → String → String → Result String
replace_end s old new = do
  require (ends_with s old) assertion_error
  ok (if old == "" then new else take_text (text_length s - text_length old) s +s new)

-- The dictionaries in `_any_variants`. Nothing reads `force_https`.
pub record Variant : Type 0 where
  pub longhand : Option (List String)
  pub suffix : Option String

abbrev with_longhand : List String → Variant
with_longhand names = record { longhand = some names; suffix = none }

abbrev with_suffix : String → Variant
with_suffix text = record { longhand = none; suffix = some text }

abbrev plain : Variant
plain = record { longhand = none; suffix = none }

abbrev default_names : List String
default_names = "window" ∷ "dedicatedworker" ∷ []

-- `_any_variants`
abbrev pub any_variants : Dict Variant
any_variants =
    ("default", with_longhand default_names)
    ∷ ("window", with_suffix ".any.html")
    ∷ ("serviceworker", plain)
    ∷ ("sharedworker", plain)
    ∷ ("dedicatedworker", with_suffix ".any.worker.html")
    ∷ ("worker", with_longhand ("dedicatedworker" ∷ "sharedworker" ∷ "serviceworker" ∷ []))
    ∷ ("jsshell", with_suffix ".any.js")
    ∷ []

-- `get_any_variants`
unfoldable pub get_any_variants : String → Result (List String)
get_any_variants item = do
  require (not (starts_with item "!")) assertion_error
  elim (get item any_variants) [
    | none ↦ ok []
    | some variant ↦ ok (or_else variant.longhand (item ∷ []))
  ]

-- `get_default_any_variants`
unfoldable pub get_default_any_variants : List String
get_default_any_variants = default_names

-- The body of the loop of `parse_variants`.
unfoldable pub apply_item : List String → String → Result (List String)
unfolding get_any_variants
apply_item globals piece =
    let item = strip is_byte_space piece in
    if starts_with item "!"
    then (do names ← get_any_variants (drop_text 1 item); ok (minus_texts globals names))
    else (do names ← get_any_variants item; ok (union_texts globals names))

unfoldable pub apply_items : List String → List String → Result (List String)
apply_items globals [] = ok globals
apply_items globals (item ∷ items) = do names ← apply_item globals item; apply_items names items

-- `parse_variants`
unfoldable pub parse_variants : String → Result (List String)
unfolding apply_items get_default_any_variants split
parse_variants value = apply_items get_default_any_variants (split b',' value)

-- `rv.add((suffix, jsshell))`
abbrev has_suffix : String × Bool → List (String × Bool) → Bool
has_suffix p [] = false
has_suffix (s, b) ((t, c) ∷ rest) = (s == t && (b && c || not b && not c)) || has_suffix (s, b) rest

abbrev pub add_suffix : String × Bool → List (String × Bool) → List (String × Bool)
add_suffix p rv = if has_suffix p rv then rv else rv ++ (p ∷ [])

abbrev pub suffix_of : String → Variant → String × Bool
suffix_of global_type variant =
    (or_else variant.suffix (".any." +s global_type +s ".html"), global_type == "jsshell")

-- The loop of `global_suffixes`.
unfoldable pub collect_suffixes : List (String × Bool) → List String → Result (List (String × Bool))
collect_suffixes rv [] = ok rv
collect_suffixes rv (global_type ∷ rest) = do
  variant ← or_raised key_error (get global_type any_variants)
  collect_suffixes (add_suffix (suffix_of global_type variant) rv) rest

-- `global_suffixes`
unfoldable pub global_suffixes : String → Result (List (String × Bool))
unfolding collect_suffixes parse_variants
global_suffixes value = do global_types ← parse_variants value; collect_suffixes [] global_types

-- `global_variant_url`
unfoldable pub global_variant_url : String → String → Result String
unfolding replace_end replace_text contains_text
global_variant_url url suffix =
    let short = replace_text url ".any." "." in
    let plain_url =
      if contains_text ".https." short && starts_with suffix ".https."
      then replace_text short ".https." "."
      else short in
    replace_end plain_url ".js" suffix
