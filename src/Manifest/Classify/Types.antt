-- ===== src/Manifest/Classify/Types.antt =====
-- What `manifest_items` of tools/manifest/sourcefile.py returns and raises.
use wmas.Prelude.{
  Bool, true, Option, none, some, List, [], ◌∷◌, ◌≡◌, refl, arith, if◌then◌else◌, subst, sym, ◌∙◌,
  Option-cases, inl, inr,
}
use wmas.Exec.{Result, ok, raised}
use wmas.Checked.{◌>>=◌}
use wmas.Checked.Outcome.{Outcome-if}
use wmas.Manifest.Names.{
  SourceFile, name_is_non_test, name_is_stub, name_is_manual, name_is_conformance,
  in_conformance_checker_dir, name_is_visual, name_is_multi_global, name_is_worker, name_is_window,
  name_is_webdriver, url_of,
}
use wmas.Manifest.Content.{Environment, Element, root, timeout, content_is_testharness}
use wmas.Manifest.Content.Fine.{expected, url_of-Fine, timeout-Fine, content_is_testharness-Fine}
use wmas.Manifest.References.{content_is_ref_node, content_is_css_manual, content_is_css_visual}
use wmas.Manifest.References.Fine.{
  content_is_ref_node-Fine, content_is_css_manual-Fine, content_is_css_visual-Fine,
}
use wmas.Manifest.Items.{
  item_type, manual_test, conformance_checker_test, visual_test, stub, web_driver_spec_test,
}
use wmas.Manifest.Classify.{
  Items, at_url, truth, and_no_reference, as_extra, multi_global_items, script_items, content_items,
  find_items, Source, manifest_items, keep_items,
}
use wmas.Manifest.Classify.Branches.{
  IsTyped, Typed, bind-Typed, single-Typed, script_items-Typed, harness_items-Typed,
  and_no_reference-Fine, ref_items-Typed, multi_global_items-Typed,
}

root_of :
    (r : Result (Option (List Element))) (f : List Element → Result (Option Bool))
    (found : Option Bool)
    → (do tree ← r; elim tree [ none ↦ ok none | some elements ↦ f elements ]) ≡ ok found
    → truth found ≡ true
    → (elements : List Element) × (r ≡ ok (some elements))
root_of (raised e) f found h t = ground arith
root_of (ok none) f none h t = ground arith
root_of (ok none) f (some b) h t = ground arith
root_of (ok (some elements)) f found h t = (elements, refl)

-- Where a file holds a test of the harness, it has a root.
content_is_testharness-root :
    (env : Environment) (file : SourceFile) (found : Option Bool)
    → content_is_testharness env file ≡ ok found
    → truth found ≡ true
    → (elements : List Element) × (root env file ≡ ok (some elements))
unfolding content_is_testharness
content_is_testharness-root env file found h t = root_of (root env file) _ found h t

content_items-Typed : (env : Environment) (file : SourceFile) → Typed (content_items env file)
unfolding content_items item_type
content_items-Typed env file =
    bind-Typed (content_is_css_manual env file) _ (content_is_css_manual-Fine env file)
      (λ css_manual e.
        bind-Typed (and_no_reference file css_manual) _ (and_no_reference-Fine file css_manual)
          (λ manual e'.
            Outcome-if expected IsTyped manual _ _
              (λ h. single-Typed file "manual" manual_test (λ u. refl))
              (λ h.
                bind-Typed (content_is_testharness env file) _
                  (content_is_testharness-Fine env file)
                  (λ harness q.
                    Outcome-if expected IsTyped (truth harness) _ _
                      (λ t.
                        let (elements, found) = content_is_testharness-root env file harness q t in
                        harness_items-Typed env file elements found)
                      (λ t.
                        bind-Typed (content_is_ref_node env file) _
                          (content_is_ref_node-Fine env file)
                          (λ ref_node q'.
                            Outcome-if expected IsTyped ref_node _ _
                              (λ t'. ref_items-Typed env file)
                              (λ t'.
                                bind-Typed (content_is_css_visual env file) _
                                  (content_is_css_visual-Fine env file)
                                  (λ css_visual r.
                                    bind-Typed (and_no_reference file css_visual) _
                                      (and_no_reference-Fine file css_visual)
                                      (λ visual r'.
                                        Outcome-if expected IsTyped visual _ _
                                          (λ v. single-Typed file "visual" visual_test (λ u. refl))
                                          (λ v. (refl, tt)))))))))))

script_files-Typed :
    (env : Environment) (file : SourceFile)
    → Typed (
        if name_is_multi_global file
        then multi_global_items env file
        else if name_is_worker file
        then script_items env file ".worker.js" ".worker.html"
        else if name_is_window file
        then script_items env file ".window.js" ".window.html"
        else if name_is_webdriver file
        then (do
          url ← url_of file
          time ← timeout env file
          ok ("wdspec", web_driver_spec_test (at_url file url) (as_extra time) ∷ []))
        else content_items env file)
unfolding item_type
script_files-Typed env file =
    Outcome-if expected IsTyped (name_is_multi_global file) _ _
      (λ e. multi_global_items-Typed env file (ground arith))
      (λ e.
        Outcome-if expected IsTyped (name_is_worker file) _ _
          (λ e'. script_items-Typed env file ".worker.js" ".worker.html" (ground arith))
          (λ e'.
            Outcome-if expected IsTyped (name_is_window file) _ _
              (λ h. script_items-Typed env file ".window.js" ".window.html" (ground arith))
              (λ h.
                Outcome-if expected IsTyped (name_is_webdriver file) _ _
                  (λ h'. bind-Typed (url_of file) _ (url_of-Fine file) (λ url q.
                    bind-Typed (timeout env file) _ (timeout-Fine env file)
                      (λ time q'. (refl, tt))))
                  (λ h'. content_items-Typed env file))))

find_items-Typed : (env : Environment) (file : SourceFile) → Typed (find_items env file)
unfolding find_items item_type
find_items-Typed env file =
    Outcome-if expected IsTyped (name_is_non_test env.isdir file) _ _ (λ e. (refl, tt))
      (λ e.
        Outcome-if expected IsTyped (name_is_stub file) _ _
          (λ e. single-Typed file "stub" stub (λ u. refl))
          (λ e.
            Outcome-if expected IsTyped (name_is_manual file) _ _
              (λ e. single-Typed file "manual" manual_test (λ u. refl))
              (λ e.
                Outcome-if expected IsTyped (name_is_conformance file) _ _
                  (λ e. single-Typed file "conformancechecker" conformance_checker_test (λ u. refl))
                  (λ e.
                    Outcome-if expected IsTyped (in_conformance_checker_dir file) _ _
                      (λ e. (refl, tt))
                      (λ e.
                        Outcome-if expected IsTyped (name_is_visual file) _ _
                          (λ e. single-Typed file "visual" visual_test (λ u. refl))
                          (λ e. script_files-Typed env file))))))

abbrev pub IsCached : Option Items → Type 0
IsCached none = Unit
IsCached (some items) = IsTyped items

keep_items-Typed :
    (source : Source) (found : Result Items)
    → IsCached source.items_cache
    → Typed found
    → Typed (keep_items source found).0 × IsCached ((keep_items source found).1).items_cache
unfolding keep_items
keep_items-Typed source (raised e) cached typed = (typed, cached)
keep_items-Typed source (ok rv) cached typed = (typed, typed)

-- Whatever the file: each of the items that manifest_items returns is of the type that it returns
-- beside them, provided that this holds of the items in the cache; it holds again of the cache that
-- is left; and an error is an assertion that fails, a file that cannot be read, an empty url_base,
-- a variant that is not UTF-8, or a reference that urljoin refuses, never an attribute or an
-- iteration of None or a missing key.
pub manifest_items-Typed :
    (env : Environment) (source : Source)
    → IsCached source.items_cache
    → Typed (manifest_items env source).0 × IsCached ((manifest_items env source).1).items_cache
unfolding manifest_items
manifest_items-Typed env source cached = elim (Option-cases source.items_cache) [
  | inl q ↦
      rw (q, manifest_items)
        (keep_items-Typed source (find_items env source.file) cached
          (find_items-Typed env source.file))
  | inr (rv, q) ↦
      let typed : IsTyped rv = subst IsCached q cached in rw (q, manifest_items) (typed, cached)
]

keep_items-kept :
    (source after : Source) (found : Result Items) (rv : Items)
    → keep_items source found ≡ (ok rv, after)
    → after.items_cache ≡ some rv
unfolding keep_items
keep_items-kept source after (raised e) rv h = ground arith
keep_items-kept source after (ok found) rv h = ground arith

manifest_items-cached :
    (env : Environment) (source : Source) (rv : Items)
    → source.items_cache ≡ some rv
    → manifest_items env source ≡ (ok rv, source)
unfolding manifest_items
manifest_items-cached env source rv q = simp (q, manifest_items) refl

manifest_items-fresh :
    (env : Environment) (source : Source)
    → source.items_cache ≡ none
    → manifest_items env source ≡ keep_items source (find_items env source.file)
unfolding manifest_items
manifest_items-fresh env source q = simp (q, manifest_items) refl

same_cache :
    (source after : Source) (found rv : Items)
    → ◌≡◌ {A = Result Items × Source} (ok found, source) (ok rv, after)
    → source.items_cache ≡ some found
    → after.items_cache ≡ some rv
same_cache source after found rv h q = ground arith

-- Once manifest_items returned items, every later call for the same file returns the same items
-- and changes nothing, whatever the files hold by then.
pub manifest_items-again :
    (env later : Environment) (source after : Source) (rv : Items)
    → manifest_items env source ≡ (ok rv, after)
    → manifest_items later after ≡ (ok rv, after)
unfolding manifest_items
manifest_items-again env later source after rv h =
    manifest_items-cached later after rv (elim (Option-cases source.items_cache) [
      | inl q ↦
          keep_items-kept source after (find_items env source.file) rv
            (sym (manifest_items-fresh env source q) ∙ h)
      | inr (found, q) ↦
          same_cache source after found rv (sym (manifest_items-cached env source found q) ∙ h) q
    ])
