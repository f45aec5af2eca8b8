-- ===== src/Manifest/Items/Json.antt =====
-- Items that are written to JSON and read again: tools/manifest/item.py.
use wmas.Prelude.{String, Bool, true, false, Option, none, some, List, [], ◌≡◌, refl, ap, sym, ◌∙◌}
use wmas.Prelude.Dict.{Dict, get, put}
use wmas.Exec.{ok, raised}
use wmas.Manifest.Names.{SourceFile}
use wmas.Manifest.Items.{
  Item, ItemClass, Entry, Extra, UrlData, Reftest, testharness_test, ref_test_node, ref_test,
  manual_test, conformance_checker_test, visual_test, stub, web_driver_spec_test, support_file,
  testharness, reftest_node, reftest, manual, conformancechecker, visual, stub_class, wdspec,
  support, to_json, read_entry, from_json, cached_file, url_data, source_of, joined_url,
  new_ref_test_node, to_ref_test, put_some, put_flag, check_references, harness_of, reftest_of,
  entry_url,
}

-- The class of an item.
abbrev pub class_of : Item → ItemClass
class_of (testharness_test u h) = testharness
class_of (ref_test_node u r) = reftest_node
class_of (ref_test u r) = reftest
class_of (manual_test u) = manual
class_of (conformance_checker_test u) = conformancechecker
class_of (visual_test u) = visual
class_of (stub u) = stub_class
class_of (web_driver_spec_test u t) = wdspec
class_of (support_file f) = support

-- What is written of the URL: reftests write the joined one.
abbrev pub IsStable : (String → String → String) → Item → Type 0
IsStable urljoin (ref_test_node u r) =
    (joined_url urljoin u ≡ u.given_url) × (check_references r.references ≡ ok tt)
IsStable urljoin (ref_test u r) =
    (joined_url urljoin u ≡ u.given_url) × (check_references r.references ≡ ok tt)
IsStable urljoin item = Unit

-- The manifest has the `url_base` of the item.
abbrev pub HasBase : String → Item → Type 0
HasBase base item = elim (url_data item) [ none ↦ Unit | some u ↦ u.url_base ≡ base ]

harness-extras :
    (t : Option Extra) (d j : Bool)
    → harness_of (put_flag "jsshell" j (put_flag "testdriver" d (put_some "timeout" t [])))
      ≡ record { timeout = t; testdriver = d; jsshell = j }
unfolding put get
harness-extras none true true = refl
harness-extras none true false = refl
harness-extras none false true = refl
harness-extras none false false = refl
harness-extras (some x) true true = refl
harness-extras (some x) true false = refl
harness-extras (some x) false true = refl
harness-extras (some x) false false = refl

reftest-extras :
    (refs : List (String × String)) (t v d : Option Extra)
    → reftest_of refs (put_some "dpi" d (put_some "viewport_size" v (put_some "timeout" t [])))
      ≡ record { references = refs; timeout = t; viewport_size = v; dpi = d }
unfolding put get
reftest-extras refs none none none = refl
reftest-extras refs none none (some z) = refl
reftest-extras refs none (some y) none = refl
reftest-extras refs none (some y) (some z) = refl
reftest-extras refs (some x) none none = refl
reftest-extras refs (some x) none (some z) = refl
reftest-extras refs (some x) (some y) none = refl
reftest-extras refs (some x) (some y) (some z) = refl

timeout-extras : (t : Option Extra) → get "timeout" (put_some "timeout" t []) ≡ t
unfolding put get
timeout-extras none = refl
timeout-extras (some x) = refl

from_json-found :
    (cls : ItemClass) (root base path : String) (entry : Entry) (file : SourceFile)
    (files : Dict SourceFile)
    → get path files ≡ some file
    → from_json cls root base path entry files ≡ (
      read_entry cls
          (record { source_file = file; given_url = entry_url entry; url_base = base })
          entry,
      files,
    )
unfolding from_json cached_file
from_json-found cls root base path entry file files found = simp (found, cached_file) refl

-- The URL of a record that is built anew.
rebuilt :
    (u : UrlData) (url base : String)
    → url ≡ u.given_url
    → u.url_base ≡ base
    → record { source_file = u.source_file; given_url = url; url_base = base } ≡ u
rebuilt u url base same_url same_base =
    ap (λ x. record { source_file = u.source_file; given_url = x; url_base = base }) same_url
    ∙ ap (λ x. record { source_file = u.source_file; given_url = u.given_url; url_base = x })
        (sym same_base)

new_ref_test_node-valid :
    (u v : UrlData) (r s : Reftest)
    → v ≡ u
    → s ≡ r
    → check_references r.references ≡ ok tt
    → new_ref_test_node v s ≡ ok (ref_test_node u r)
unfolding new_ref_test_node
new_ref_test_node-valid u v r s eu er valid =
    ap (λ x. new_ref_test_node x s) eu
    ∙ ap (new_ref_test_node u) er
    ∙ rw (valid, new_ref_test_node) refl

read_entry-to_json :
    (urljoin : String → String → String) (item : Item) (base : String)
    → HasBase base item
    → IsStable urljoin item
    → read_entry
        (class_of item)
        (record {
          source_file = source_of item;
          given_url = entry_url (to_json urljoin item);
          url_base = base;
        })
        (to_json urljoin item)
      ≡ ok item
unfolding to_json read_entry url_data source_of to_ref_test
read_entry-to_json urljoin (testharness_test u h) base same stable =
    ap
      (λ v. ok (
        testharness_test v (
          harness_of (
            put_flag "jsshell" h.jsshell
              (put_flag "testdriver" h.testdriver (put_some "timeout" h.timeout []))))))
      (rebuilt u u.given_url base refl same)
    ∙ ap (λ k. ok (testharness_test u k)) (harness-extras h.timeout h.testdriver h.jsshell)
read_entry-to_json urljoin (ref_test_node u r) base same stable =
    new_ref_test_node-valid u _ r _ (rebuilt u (joined_url urljoin u) base stable.0 same)
      (reftest-extras r.references r.timeout r.viewport_size r.dpi) stable.1
read_entry-to_json urljoin (ref_test u r) base same stable =
    ap (λ m. elim m [ raised e ↦ raised e | ok item ↦ ok (to_ref_test item) ])
      (new_ref_test_node-valid u _ r _ (rebuilt u (joined_url urljoin u) base stable.0 same)
        (reftest-extras r.references r.timeout r.viewport_size r.dpi) stable.1)
read_entry-to_json urljoin (manual_test u) base same stable =
    ap (λ v. ok (manual_test v)) (rebuilt u u.given_url base refl same)
read_entry-to_json urljoin (conformance_checker_test u) base same stable =
    ap (λ v. ok (conformance_checker_test v)) (rebuilt u u.given_url base refl same)
read_entry-to_json urljoin (visual_test u) base same stable =
    ap (λ v. ok (visual_test v)) (rebuilt u u.given_url base refl same)
read_entry-to_json urljoin (stub u) base same stable =
    ap (λ v. ok (stub v)) (rebuilt u u.given_url base refl same)
read_entry-to_json urljoin (web_driver_spec_test u t) base same stable =
    ap (λ v. ok (web_driver_spec_test v (get "timeout" (put_some "timeout" t []))))
      (rebuilt u u.given_url base refl same)
    ∙ ap (λ k. ok (web_driver_spec_test u k)) (timeout-extras t)
read_entry-to_json urljoin (support_file f) base same stable = refl

-- For an item whose file the cache of files holds and whose url_base is the manifest's; of a
-- reftest, besides, the URL is one that urljoin leaves alone and the relations are valid: from_json
-- of the item's class returns the item from what to_json wrote, and leaves the cache.
pub from_json-to_json :
    (urljoin : String → String → String) (item : Item) (root base path : String)
    (files : Dict SourceFile)
    → get path files ≡ some (source_of item)
    → HasBase base item
    → IsStable urljoin item
    → from_json (class_of item) root base path (to_json urljoin item) files ≡ (ok item, files)
from_json-to_json urljoin item root base path files found same stable =
    from_json-found (class_of item) root base path (to_json urljoin item) (source_of item) files
      found
    ∙ ap (λ r. (r, files)) (read_entry-to_json urljoin item base same stable)
