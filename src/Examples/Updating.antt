-- ===== src/Examples/Updating.antt =====
-- A manifest that is updated.
use wmas.Prelude.{String, Bool, true, false, none, some, List, [], ◌∷◌, ◌≡◌, refl}
use wmas.Prelude.Dict.{Dict, get}
use wmas.Exec.{ok, value, after}
use wmas.Manifest.Names.{SourceFile}
use wmas.Manifest.Items.{
  Item, ItemClass, UrlData, Reftest, Entry, url_entry, ref_test, ref_test_node, manual_test, manual,
  testharness,
}
use wmas.Manifest.Classify.{with_variants}
use wmas.Manifest.TypeData.{Setting, TypeData}
use wmas.Manifest.Reftests.{Hashing, Graph, inbound, compute_reftests}
use wmas.Manifest.Reftests.Roles.{IsGraphOf, compute_reftests-IsGraphOf}
use wmas.Manifest.Update.{Manifest, World, Progress, update_file, delete_path}
use wmas.Manifest.Update.Stale.{delete_path-unloaded, update_file-stale}
use wmas.Examples.Manifest.{env, page, file_at}

abbrev hashing : Hashing
hashing = record { urljoin = λ base url. url; hash_of = λ file. ok "hash-2" }

abbrev setting : Setting
setting = record { url_base = "/"; meta_filters = []; urljoin = λ base url. url }

abbrev world : World
world = record { setting = setting; env = env; hashing = hashing }

abbrev node_data : String → String → UrlData
node_data name stem = record {
  source_file = file_at "" name stem ".html" [];
  given_url = name;
  url_base = "/";
}

abbrev refers_to : String → Reftest
refers_to url = record {
  references = (url, "==") ∷ [];
  timeout = none;
  viewport_size = none;
  dpi = none;
}

-- The page a refers to b, and b to c.
abbrev nodes : List Item
nodes =
    ref_test_node (node_data "a.html" "a") (refers_to "b.html")
    ∷ ref_test_node (node_data "b.html" "b") (refers_to "c.html")
    ∷ []

abbrev graph : Graph
graph = record {
  reftests = ("a.html", ref_test (node_data "a.html" "a") (refers_to "b.html") ∷ []) ∷ [];
  reference_nodes =
      ("b.html", ref_test_node (node_data "b.html" "b") (refers_to "c.html") ∷ []) ∷ [];
  changed_hashes = ("a.html", ("hash-2", "reftest")) ∷ [];
  by_url =
      ("a.html", ref_test (node_data "a.html" "a") (refers_to "b.html"))
      ∷ ("b.html", ref_test_node (node_data "b.html" "b") (refers_to "c.html"))
      ∷ [];
}

compute_reftests-IsGraphOf_example : IsGraphOf hashing nodes graph
unfolding inbound wmas.Prelude.add_text wmas.Prelude.mem_text compute_reftests wmas.Prelude.Dict.put
    wmas.Prelude.any_of get
compute_reftests-IsGraphOf_example =
    compute_reftests-IsGraphOf (λ e. false) hashing nodes (λ file. tt) (refl, (refl, tt))

abbrev table_of : ItemClass → Dict (List Entry) → Dict (List Item) → TypeData
table_of cls json_data items = record {
  type_cls = cls;
  json_data = some json_data;
  tests_root = "/tests";
  item_data = items;
}

abbrev manifest_with : TypeData → Manifest
manifest_with table = record {
  path_hash = ("a.html", ("hash-1", "manual")) ∷ [];
  tables = ("manual", table) ∷ ("testharness", table_of testharness [] []) ∷ [];
  nodes_by_url = none;
  files = [];
}

abbrev progress : TypeData → Progress
progress table = record {
  manifest = manifest_with table;
  reftest_nodes = [];
  seen_files = [];
  changed = false;
  reftest_changes = false;
}

-- The table of the manual tests as it is read from a file.
abbrev unloaded : TypeData
unloaded = table_of manual (("a.html", url_entry "/a.html" [] ∷ []) ∷ []) []

delete_path-unloaded_example :
    (value (delete_path setting "a.html") (progress unloaded) ≡ ok tt)
    × (get "a.html" ((after (delete_path setting "a.html") (progress unloaded)).manifest).path_hash
        ≡ none)
    × (((after (delete_path setting "a.html") (progress unloaded)).manifest).tables
        ≡ (manifest_with unloaded).tables)
unfolding get
delete_path-unloaded_example =
    delete_path-unloaded setting "a.html" "manual" "hash-1" (progress unloaded) unloaded refl refl
      refl

-- The table of the manual tests with the item of the page.
abbrev with_page : TypeData
with_page = table_of manual [] (("a.html", manual_test (node_data "a.html" "a") ∷ []) ∷ [])

update_file-stale_example :
    (value (update_file world page) (progress with_page) ≡ ok tt)
    × (get "a.html" ((after (update_file world page) (progress with_page)).manifest).path_hash
        ≡ some ("hash-2", "testharness"))
    × (get "manual" ((after (update_file world page) (progress with_page)).manifest).tables
        ≡ some with_page)
unfolding get wmas.Manifest.Classify.manifest_items wmas.Manifest.Names.name_is_non_test
    wmas.Prelude.starts_with wmas.Prelude.ends_with wmas.Prelude.split wmas.Prelude.any_of
    wmas.Prelude.mem_text wmas.Manifest.Names.name_is_stub wmas.Manifest.Names.name_is_manual
    wmas.Manifest.Names.name_is_conformance wmas.Manifest.Names.name_is_visual
    wmas.Manifest.Names.name_is_multi_global wmas.Manifest.Names.name_is_worker
    wmas.Manifest.Names.name_is_window wmas.Manifest.Names.name_is_webdriver
    wmas.Manifest.References.content_is_css_manual wmas.Manifest.Names.markup_type
    wmas.Prelude.drop_text wmas.Prelude.keep wmas.Prelude.◌+s◌
    wmas.Manifest.Content.content_is_testharness wmas.Manifest.Content.has_testdriver
    wmas.Manifest.References.test_variants wmas.Manifest.Names.url_of wmas.Manifest.Content.timeout
update_file-stale_example =
    update_file-stale world page "hash-2" "hash-1" "testharness" "manual"
      (with_variants page.file "/a.html" none false false ("" ∷ [])) (progress with_page)
      (table_of testharness [] []) refl refl refl refl refl refl refl refl
