-- ===== src/Manifest/Classify/Branches.antt =====
-- The items of the single branches of `manifest_items` of tools/manifest/sourcefile.py.
use wmas.Prelude.{
  String, Bool, true, false, Option, none, some, List, [], ◌∷◌, ◌++◌, ◌≡◌, refl, arith, All,
  is_some, sort_by,
}
use wmas.Exec.{Result, ok}
use wmas.Checked.{◌>>=◌, or_raised, each}
use wmas.Checked.Outcome.{Outcome, Outcome-bind, Outcome-if, Outcome-each, Outcome-known}
use wmas.Data.{type_error}
use wmas.Manifest.Variants.{replace_end, global_suffixes, global_variant_url}
use wmas.Manifest.Variants.Fine.{global_suffixes-Fine, replace_end-Fine, global_variant_url-Fine}
use wmas.Manifest.Names.{SourceFile, name_is_reference, url_of}
use wmas.Manifest.Content.{
  Environment, Element, root, script_metadata, timeout, viewport_size, dpi, has_testdriver,
}
use wmas.Manifest.Content.Fine.{
  Fine, expected, bind-Fine, url_of-Fine, name_is_reference-Fine, timeout-Fine, viewport_size-Fine,
  dpi-Fine, has_testdriver-Fine,
}
use wmas.Manifest.References.{test_variants, references}
use wmas.Manifest.References.Fine.{
  is_script, script_metadata-some, test_variants-script, test_variants-markup, IsReference,
  references-IsReference,
}
use wmas.Manifest.Items.{
  Item, item_type, UrlData, new_ref_test_node, check_references, Reftest, References,
}
use wmas.Manifest.Classify.{
  Items, at_url, single, truth, with_variants, globals_of, suffix_tests, join_lists,
  and_no_reference, suffix_le, multi_global_items, script_items, harness_items, ref_items,
}

-- Every item is of the type that is returned beside the items.
abbrev pub IsTyped : Items → Type 0
IsTyped (type, items) = All (λ (i : Item). item_type i ≡ type) items

-- Typed items, or an error that is expected.
abbrev pub Typed : Result Items → Type 0
Typed m = Outcome expected IsTyped m

pub bind-Typed :
    {A : Type 0} (m : Result A) (f : A → Result Items)
    → Fine m
    → ((a : A) → m ≡ ok a → Typed (f a))
    → Typed (m >>= f)
bind-Typed m f hm hf =
    Outcome-bind expected (λ a. Unit × (m ≡ ok a)) IsTyped m f
      (Outcome-known expected (λ a. Unit) m hm) (λ a h. hf a h.1)

pub single-Typed :
    (file : SourceFile) (type : String) (new : UrlData → Item)
    → ((u : UrlData) → item_type (new u) ≡ type)
    → Typed (single file type new)
single-Typed file type new h =
    bind-Typed (url_of file) _ (url_of-Fine file) (λ url e. (h (at_url file url), tt))

abbrev Harnesses : List Item → Type 0
Harnesses items = All (λ (i : Item). item_type i ≡ "testharness") items

with_variants-type :
    (file : SourceFile) (url : String) (time : Option String) (testdriver jsshell : Bool)
    (variants : List String)
    → Harnesses (with_variants file url time testdriver jsshell variants)
unfolding item_type
with_variants-type file url time testdriver jsshell [] = tt
with_variants-type file url time testdriver jsshell (v ∷ vs) =
    (refl, with_variants-type file url time testdriver jsshell vs)

pub script_items-Typed :
    (env : Environment) (file : SourceFile) (old new : String)
    → is_script file ≡ true
    → Typed (script_items env file old new)
unfolding script_items
script_items-Typed env file old new script = bind-Typed (url_of file) _ (url_of-Fine file) (λ url e.
    bind-Typed (replace_end url old new) _ (replace_end-Fine url old new) (λ test_url e'.
      bind-Typed (test_variants env file) _ (test_variants-script env file script) (λ variants h.
        bind-Typed (timeout env file) _ (timeout-Fine env file)
          (λ time h'. with_variants-type file test_url time false false variants))))

pub harness_items-Typed :
    (env : Environment) (file : SourceFile) (elements : List Element)
    → root env file ≡ ok (some elements)
    → Typed (harness_items env file)
unfolding harness_items
harness_items-Typed env file elements found =
    bind-Typed (has_testdriver env file) _ (has_testdriver-Fine env file) (λ driver e.
      bind-Typed (test_variants env file) _ (test_variants-markup env file elements found)
        (λ variants e'. bind-Typed (url_of file) _ (url_of-Fine file) (λ url h.
          bind-Typed (timeout env file) _ (timeout-Fine env file)
            (λ time h'. with_variants-type file url time (truth driver) false variants))))

pub and_no_reference-Fine :
    (file : SourceFile) (found : Option Bool) → Fine (and_no_reference file found)
and_no_reference-Fine file found =
    Outcome-if expected (λ a. Unit) (truth found) _ _
      (λ e. bind-Fine (name_is_reference file) _ (name_is_reference-Fine file) (λ r h. tt))
      (λ e. tt)

check_references-ok : (refs : References) → All IsReference refs → check_references refs ≡ ok tt
check_references-ok [] all = refl
check_references-ok ((url, t) ∷ refs) all = ground (arith, check_references-ok refs all.1)

new_ref_test_node-Typed :
    (u : UrlData) (r : Reftest)
    → All IsReference r.references
    → Typed (do node ← new_ref_test_node u r; ok ("reftest_node", node ∷ []))
unfolding new_ref_test_node item_type
new_ref_test_node-Typed u r all =
    rw (check_references-ok r.references all, new_ref_test_node) (refl, tt)

pub ref_items-Typed : (env : Environment) (file : SourceFile) → Typed (ref_items env file)
unfolding ref_items
ref_items-Typed env file = bind-Typed (url_of file) _ (url_of-Fine file) (λ url e.
    Outcome-bind expected (All IsReference) IsTyped (references env file) _
      (references-IsReference env file)
      (λ refs all. bind-Typed (timeout env file) _ (timeout-Fine env file) (λ time h.
        bind-Typed (viewport_size env file) _ (viewport_size-Fine env file) (λ size h'.
          bind-Typed (dpi env file) _ (dpi-Fine env file)
            (λ ratio h''. new_ref_test_node-Typed (at_url file url) _ all)))))

suffix_tests-type :
    (env : Environment) (file : SourceFile) (s : String × Bool)
    → is_script file ≡ true
    → Outcome expected Harnesses (suffix_tests env file s)
suffix_tests-type env file (suffix, jsshell) script =
    Outcome-bind expected (λ a. Unit) Harnesses (test_variants env file) _
      (test_variants-script env file script)
      (λ variants e.
        Outcome-bind expected (λ a. Unit) Harnesses (url_of file) _ (url_of-Fine file)
          (λ url e'.
            Outcome-bind expected (λ a. Unit) Harnesses (global_variant_url url suffix) _
              (global_variant_url-Fine url suffix)
              (λ test_url h.
                Outcome-bind expected (λ a. Unit) Harnesses (timeout env file) _
                  (timeout-Fine env file)
                  (λ time h'. with_variants-type file test_url time false jsshell variants))))

Harnesses-append : (xs ys : List Item) → Harnesses xs → Harnesses ys → Harnesses (xs ++ ys)
Harnesses-append [] ys hx hy = hy
Harnesses-append (x ∷ xs) ys hx hy = (hx.0, Harnesses-append xs ys hx.1 hy)

join_lists-type : (tests : List (List Item)) → All Harnesses tests → Harnesses (join_lists tests)
join_lists-type [] all = tt
join_lists-type (xs ∷ xss) all =
    Harnesses-append xs (join_lists xss) all.0 (join_lists-type xss all.1)

global_tests-Typed :
    (env : Environment) (file : SourceFile) (metadata : Option (List (String × String)))
    → is_script file ≡ true
    → is_some metadata ≡ true
    → Typed (do
      pairs ← or_raised type_error metadata
      suffixes ← global_suffixes (globals_of pairs)
      tests ← each (suffix_tests env file) (sort_by suffix_le suffixes)
      ok ("testharness", join_lists tests))
global_tests-Typed env file none script h = ground arith
global_tests-Typed env file (some pairs) script h =
    bind-Typed (global_suffixes (globals_of pairs)) _ (global_suffixes-Fine (globals_of pairs))
      (λ suffixes e.
        Outcome-bind expected (All Harnesses) IsTyped
          (each (suffix_tests env file) (sort_by suffix_le suffixes)) _
          (Outcome-each expected Harnesses (suffix_tests env file) (sort_by suffix_le suffixes)
            (λ s. suffix_tests-type env file s script))
          (λ tests all. join_lists-type tests all))

pub multi_global_items-Typed :
    (env : Environment) (file : SourceFile)
    → is_script file ≡ true
    → Typed (multi_global_items env file)
unfolding multi_global_items
multi_global_items-Typed env file script =
    Outcome-bind expected (λ metadata. is_some metadata ≡ true) IsTyped (script_metadata env file) _
      (script_metadata-some env file script)
      (λ metadata h. global_tests-Typed env file metadata script h)
