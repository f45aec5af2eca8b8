-- ===== src/Manifest/Classify.antt =====
-- The items of a file: `SourceFile.manifest_items` of tools/manifest/sourcefile.py.

pub mod Branches
pub mod Types
use wmas.Prelude.{
  ℕ, String, Bool, true, false, not, ◌&&◌, ◌||◌, Option, none, some, List, [], ◌∷◌, ◌++◌, map, ◌==◌,
  if◌then◌else◌, ◌+s◌, codes, codes_le, sort_by, or_else,
}
use wmas.Exec.{Result, ok, raised}
use wmas.Checked.{◌>>=◌, ◌>>◌, or_raised, each}
use wmas.Data.{Error, type_error}
use wmas.Manifest.Variants.{replace_end, global_suffixes, global_variant_url}
use wmas.Manifest.Names.{
  SourceFile, name_is_non_test, name_is_stub, name_is_manual, name_is_conformance,
  in_conformance_checker_dir, name_is_visual, name_is_multi_global, name_is_worker, name_is_window,
  name_is_webdriver, name_is_reference, url_of,
}
use wmas.Manifest.Content.{
  Environment, script_metadata, timeout, viewport_size, dpi, content_is_testharness, has_testdriver,
}
use wmas.Manifest.References.{
  test_variants, references, content_is_ref_node, content_is_css_manual, content_is_css_visual,
}
use wmas.Manifest.Items.{
  Item, Extra, text, UrlData, testharness_test, manual_test, conformance_checker_test, visual_test,
  stub, web_driver_spec_test, support_file, new_ref_test_node,
}

abbrev pub Items : Type 0
Items = String × List Item

-- A URL item of the file with the default `url_base`.
abbrev pub at_url : SourceFile → String → UrlData
at_url file url = record { source_file = file; given_url = url; url_base = "/" }

abbrev pub as_extra : Option String → Option Extra
as_extra none = none
as_extra (some t) = some (text t)

-- One item of the file, at its own URL.
abbrev pub single : SourceFile → String → (UrlData → Item) → Result Items
single file type new = do url ← url_of file; ok (type, new (at_url file url) ∷ [])

abbrev pub truth : Option Bool → Bool
truth none = false
truth (some b) = b

-- The tests at a URL, one for each variant.
abbrev pub with_variants :
    SourceFile → String → Option String → Bool → Bool → List String → List Item
with_variants file url time testdriver jsshell variants =
    map
      (λ variant.
        testharness_test (at_url file (url +s variant))
          (record { timeout = as_extra time; testdriver = testdriver; jsshell = jsshell }))
      variants

-- the order of the tuples in `sorted(global_suffixes(globals))`
abbrev pub suffix_le : String × Bool → String × Bool → Bool
suffix_le (s, b) (t, c) = if s == t then not b || c else codes_le (codes s) (codes t)

-- The first value of the key "global".
abbrev pub globals_of : List (String × String) → String
globals_of [] = ""
globals_of ((key, value) ∷ rest) =
    let others = globals_of rest in if key == "global" then value else others

-- One round of the comprehension over the suffixes.
abbrev pub suffix_tests : Environment → SourceFile → String × Bool → Result (List Item)
suffix_tests env file (suffix, jsshell) = do
  variants ← test_variants env file
  url ← url_of file
  test_url ← global_variant_url url suffix
  time ← timeout env file
  ok (with_variants file test_url time false jsshell variants)

abbrev pub join_lists {ℓ} : {A : Type ℓ} → List (List A) → List A
join_lists [] = []
join_lists (xs ∷ xss) = xs ++ join_lists xss

-- The branch of `name_is_multi_global`.
unfoldable pub multi_global_items : Environment → SourceFile → Result Items
multi_global_items env file = do
  metadata ← script_metadata env file
  pairs ← or_raised type_error metadata
  suffixes ← global_suffixes (globals_of pairs)
  tests ← each (suffix_tests env file) (sort_by suffix_le suffixes)
  ok ("testharness", join_lists tests)

-- The branches of `name_is_worker` and `name_is_window`, for the end of the URL and the new one.
unfoldable pub script_items : Environment → SourceFile → String → String → Result Items
script_items env file old new = do
  url ← url_of file
  test_url ← replace_end url old new
  variants ← test_variants env file
  time ← timeout env file
  ok ("testharness", with_variants file test_url time false false variants)

-- The branch of `content_is_testharness`.
unfoldable pub harness_items : Environment → SourceFile → Result Items
harness_items env file = do
  testdriver ← has_testdriver env file
  variants ← test_variants env file
  url ← url_of file
  time ← timeout env file
  ok ("testharness", with_variants file url time (truth testdriver) false variants)

-- The branch of `content_is_ref_node`.
unfoldable pub ref_items : Environment → SourceFile → Result Items
unfolding new_ref_test_node
ref_items env file = do
  url ← url_of file
  refs ← references env file
  time ← timeout env file
  size ← viewport_size env file
  ratio ← dpi env file
  node ← new_ref_test_node (at_url file url) (record {
    references = refs;
    timeout = as_extra time;
    viewport_size = as_extra size;
    dpi = as_extra ratio;
  })
  ok ("reftest_node", node ∷ [])

-- `a and not self.name_is_reference`; the name is looked at where `a` holds.
abbrev pub and_no_reference : SourceFile → Option Bool → Result Bool
and_no_reference file found =
    if truth found then (do r ← name_is_reference file; ok (not r)) else ok false

-- The branches that look at the content.
unfoldable pub content_items : Environment → SourceFile → Result Items
unfolding harness_items ref_items
content_items env file = do
  css_manual ← content_is_css_manual env file
  manual ← and_no_reference file css_manual
  if manual then single file "manual" manual_test else (do
    harness ← content_is_testharness env file
    if truth harness then harness_items env file else (do
      ref_node ← content_is_ref_node env file
      if ref_node then ref_items env file else (do
        css_visual ← content_is_css_visual env file
        visual ← and_no_reference file css_visual
        if visual
            then single file "visual" visual_test
            else ok ("support", support_file file ∷ []))))

-- `manifest_items` behind the cache.
unfoldable pub find_items : Environment → SourceFile → Result Items
unfolding multi_global_items script_items content_items
find_items env file =
    if name_is_non_test env.isdir file
    then ok ("support", support_file file ∷ [])
    else if name_is_stub file
    then single file "stub" stub
    else if name_is_manual file
    then single file "manual" manual_test
    else if name_is_conformance file
    then single file "conformancechecker" conformance_checker_test
    else if in_conformance_checker_dir file
    then ok ("support", support_file file ∷ [])
    else if name_is_visual file
    then single file "visual" visual_test
    else if name_is_multi_global file
    then multi_global_items env file
    else if name_is_worker file
    then script_items env file ".worker.js" ".worker.html"
    else if name_is_window file
    then script_items env file ".window.js" ".window.html"
    else if name_is_webdriver file
    then (do
      url ← url_of file
      time ← timeout env file
      ok ("wdspec", web_driver_spec_test (at_url file url) (as_extra time) ∷ []))
    else content_items env file

-- A file with its `items_cache`.
pub record Source : Type 0 where
  pub file : SourceFile
  pub items_cache : Option Items

-- `self.items_cache = rv`, where there is an `rv`
unfoldable pub keep_items : Source → Result Items → Result Items × Source
keep_items source (raised e) = (raised e, source)
keep_items source (ok rv) = (ok rv, record source { items_cache = some rv })

-- `manifest_items`
unfoldable pub manifest_items : Environment → Source → Result Items × Source
unfolding find_items keep_items
manifest_items env source = elim source.items_cache [
  | some rv ↦ (ok rv, source)
  | none ↦ keep_items source (find_items env source.file)
]
