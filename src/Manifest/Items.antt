-- ===== src/Manifest/Items.antt =====
-- The items of the manifest: tools/manifest/item.py. `urljoin` and `urlparse(url).path` are
-- parameters.
pub mod Json
use wmas.Prelude.{
  ℕ, String, Bool, true, false, not, ◌&&◌, ◌||◌, Option, none, some, List, [], ◌∷◌, ◌++◌, ◌==◌,
  if◌then◌else◌, mem_text, split, eqb,
}
use wmas.Prelude.Dict.{Dict, get, has, put}
use wmas.Data.{Error, value_error, key_error}
use wmas.Exec.{Result, ok, raised, Exec, pure, raise, gets, lift, ◌>>=◌, ◌>>◌, modify}
use wmas.Manifest.Names.{SourceFile, new_source_file}

-- A value of an item's extras in JSON.
pub data Extra : Type 0 where
  text : String → Extra
  flag : Bool → Extra

abbrev pub References : Type 0
References = List (String × String)

-- `URLManifestItem`; `given_url` is `_url`.
pub record UrlData : Type 0 where
  pub source_file : SourceFile
  pub given_url : String
  pub url_base : String

-- The fields of `TestharnessTest` and of `RefTestNode`.
pub record Harness : Type 0 where
  pub timeout : Option Extra
  pub testdriver : Bool
  pub jsshell : Bool

pub record Reftest : Type 0 where
  pub references : References
  pub timeout : Option Extra
  pub viewport_size : Option Extra
  pub dpi : Option Extra

-- The classes of items.
pub data Item : Type 0 where
  testharness_test : UrlData → Harness → Item
  ref_test_node : UrlData → Reftest → Item
  ref_test : UrlData → Reftest → Item
  manual_test : UrlData → Item
  conformance_checker_test : UrlData → Item
  visual_test : UrlData → Item
  stub : UrlData → Item
  web_driver_spec_test : UrlData → Option Extra → Item
  support_file : SourceFile → Item

-- The classes themselves, by their `item_type`; that of `Stub` is `stub_class`.
pub data ItemClass : Type 0 where
  testharness reftest_node reftest manual conformancechecker : ItemClass
  visual stub_class wdspec support : ItemClass

-- `item_type`
unfoldable pub item_type : Item → String
item_type (testharness_test u h) = "testharness"
item_type (ref_test_node u r) = "reftest_node"
item_type (ref_test u r) = "reftest"
item_type (manual_test u) = "manual"
item_type (conformance_checker_test u) = "conformancechecker"
item_type (visual_test u) = "visual"
item_type (stub u) = "stub"
item_type (web_driver_spec_test u t) = "wdspec"
item_type (support_file f) = "support"

-- What `URLManifestItem` holds of an item.
unfoldable pub url_data : Item → Option UrlData
url_data (testharness_test u h) = some u
url_data (ref_test_node u r) = some u
url_data (ref_test u r) = some u
url_data (manual_test u) = some u
url_data (conformance_checker_test u) = some u
url_data (visual_test u) = some u
url_data (stub u) = some u
url_data (web_driver_spec_test u t) = some u
url_data (support_file f) = none

-- `source_file`
unfoldable pub source_of : Item → SourceFile
unfolding url_data
source_of (support_file f) = f
source_of (testharness_test u h) = u.source_file
source_of (ref_test_node u r) = u.source_file
source_of (ref_test u r) = u.source_file
source_of (manual_test u) = u.source_file
source_of (conformance_checker_test u) = u.source_file
source_of (visual_test u) = u.source_file
source_of (stub u) = u.source_file
source_of (web_driver_spec_test u t) = u.source_file

-- `path`
unfoldable pub item_path : Item → String
unfolding source_of
item_path item = (source_of item).rel_path

-- `URLManifestItem.url`
unfoldable pub joined_url : (String → String → String) → UrlData → String
joined_url urljoin u = urljoin u.url_base u.given_url

-- `id`, of both classes
unfoldable pub item_id : (String → String → String) → Item → String
unfolding joined_url url_data source_of
item_id urljoin item = elim (url_data item) [
  | none ↦ (source_of item).rel_path
  | some u ↦ joined_url urljoin u
]

-- `key`
unfoldable pub key : (String → String → String) → Item → String × String
unfolding item_type item_id
key urljoin item = (item_type item, item_id urljoin item)

-- `__eq__` of two items
unfoldable pub same_item : (String → String → String) → Item → Item → Bool
unfolding key
same_item urljoin a b =
    let (t, i) = key urljoin a in let (t', i') = key urljoin b in t == t' && i == i'

-- `meta_key`
unfoldable pub meta_key : Item → List (Option Extra)
meta_key (testharness_test u h) = h.timeout ∷ some (flag h.testdriver) ∷ []
meta_key (ref_test_node u r) = r.timeout ∷ r.viewport_size ∷ r.dpi ∷ []
meta_key (ref_test u r) = r.timeout ∷ r.viewport_size ∷ r.dpi ∷ []
meta_key _ = []

abbrev last_text : List String → String
last_text [] = ""
last_text (w ∷ []) = w
last_text (w ∷ v ∷ ws) = last_text (v ∷ ws)

-- `parts[1:-1]`
abbrev without_last : List String → List String
without_last [] = []
without_last (w ∷ []) = []
without_last (w ∷ v ∷ ws) = w ∷ without_last (v ∷ ws)

abbrev inner : List String → List String
inner [] = []
inner (w ∷ ws) = without_last ws

-- `meta_flags` of both classes; `path_part` is `urlparse(url).path`, which has a "/".
unfoldable pub meta_flags : (String → String → String) → (String → String) → Item → List String
unfolding split joined_url url_data source_of
meta_flags urljoin path_part item = elim (url_data item) [
  | none ↦ (source_of item).meta_flags
  | some u ↦ inner (split b'.' (last_text (split b'/' (path_part (joined_url urljoin u)))))
]

-- `https`
unfoldable pub https : (String → String → String) → (String → String) → Item → Bool
unfolding meta_flags
https urljoin path_part item =
    mem_text "https" (meta_flags urljoin path_part item)
    || mem_text "serviceworker" (meta_flags urljoin path_part item)

-- An item in JSON.
pub data Entry : Type 0 where
  empty_entry : Entry
  url_entry : String → Dict Extra → Entry
  ref_entry : String → References → Dict Extra → Entry

abbrev pub put_some : String → Option Extra → Dict Extra → Dict Extra
put_some k none extras = extras
put_some k (some x) extras = put k x extras

abbrev pub put_flag : String → Bool → Dict Extra → Dict Extra
put_flag k false extras = extras
put_flag k true extras = put k (flag true) extras

-- `RefTestNode.to_json`
abbrev ref_to_json : (String → String → String) → UrlData → Reftest → Entry
ref_to_json urljoin u r = ref_entry (joined_url urljoin u) r.references (
    put_some "dpi" r.dpi
      (put_some "viewport_size" r.viewport_size (put_some "timeout" r.timeout [])))

-- `to_json`. What is put under "testdriver" is the true value of the field.
unfoldable pub to_json : (String → String → String) → Item → Entry
unfolding joined_url
to_json urljoin (testharness_test u h) = url_entry u.given_url (
    put_flag "jsshell" h.jsshell
      (put_flag "testdriver" h.testdriver (put_some "timeout" h.timeout [])))
to_json urljoin (ref_test_node u r) = ref_to_json urljoin u r
to_json urljoin (ref_test u r) = ref_to_json urljoin u r
to_json urljoin (manual_test u) = url_entry u.given_url []
to_json urljoin (conformance_checker_test u) = url_entry u.given_url []
to_json urljoin (visual_test u) = url_entry u.given_url []
to_json urljoin (stub u) = url_entry u.given_url []
to_json urljoin (web_driver_spec_test u t) = url_entry u.given_url (put_some "timeout" t [])
to_json urljoin (support_file f) = empty_entry

-- `SourceFileCache.get`, with `make_new`
unfoldable pub cached_file : String → String → String → Exec (Dict SourceFile) SourceFile
unfolding new_source_file
cached_file tests_root url_base path cache = elim (get path cache) [
  | some file ↦ (ok file, cache)
  | none ↦ elim (new_source_file tests_root path url_base none) [
    | raised e ↦ (raised e, cache)
    | ok file ↦ (ok file, put path file cache)
  ]
]

-- `bool(...)`, of what `get` finds
abbrev pub truth : Option Extra → Bool
truth none = false
truth (some (text s)) = not (s == "")
truth (some (flag b)) = b

-- `for _, ref_type in references: if ref_type not in ["==", "!="]: raise ValueError`
abbrev pub check_references : References → Result (Unit {0})
check_references [] = ok tt
check_references ((url, ref_type) ∷ rest) =
    let others = check_references rest in
    if ref_type == "==" || ref_type == "!=" then others else raised value_error

-- `RefTestNode.__init__`
unfoldable pub new_ref_test_node : UrlData → Reftest → Result Item
new_ref_test_node u r = elim (check_references r.references) [
  | raised e ↦ raised e
  | ok x ↦ ok (ref_test_node u r)
]

-- `to_RefTest` and `to_RefTestNode`, which only the two classes of reftests have
unfoldable pub to_ref_test : Item → Item
to_ref_test (ref_test_node u r) = ref_test u r
to_ref_test item = item

unfoldable pub to_ref_test_node : Item → Item
to_ref_test_node (ref_test u r) = ref_test_node u r
to_ref_test_node item = item

abbrev pub harness_of : Dict Extra → Harness
harness_of extras = record {
  timeout = get "timeout" extras;
  testdriver = truth (get "testdriver" extras);
  jsshell = truth (get "jsshell" extras);
}

abbrev pub reftest_of : References → Dict Extra → Reftest
reftest_of refs extras = record {
  references = refs;
  timeout = get "timeout" extras;
  viewport_size = get "viewport_size" extras;
  dpi = get "dpi" extras;
}

-- The part of `from_json` behind the lookup of the file, for each class. An entry of another length
-- does not unpack, which is a ValueError.
unfoldable pub read_entry : ItemClass → UrlData → Entry → Result Item
unfolding new_ref_test_node to_ref_test
read_entry support u entry = ok (support_file u.source_file)
read_entry testharness u (url_entry url extras) = ok (testharness_test u (harness_of extras))
read_entry reftest_node u (ref_entry url refs extras) = new_ref_test_node u (reftest_of refs extras)
read_entry reftest u (ref_entry url refs extras) =
    elim (new_ref_test_node u (reftest_of refs extras)) [
      | raised e ↦ raised e
      | ok item ↦ ok (to_ref_test item)
    ]
read_entry manual u (url_entry url extras) = ok (manual_test u)
read_entry conformancechecker u (url_entry url extras) = ok (conformance_checker_test u)
read_entry visual u (url_entry url extras) = ok (visual_test u)
read_entry stub_class u (url_entry url extras) = ok (stub u)
read_entry wdspec u (url_entry url extras) = ok (web_driver_spec_test u (get "timeout" extras))
read_entry _ u entry = raised value_error

-- The URL that an entry begins with.
abbrev pub entry_url : Entry → String
entry_url empty_entry = ""
entry_url (url_entry url extras) = url
entry_url (ref_entry url refs extras) = url

-- `from_json`, for a manifest with this `url_base`
unfoldable pub from_json :
    ItemClass → String → String → String → Entry → Exec (Dict SourceFile) Item
unfolding cached_file read_entry
from_json cls tests_root url_base path entry = do
  file ← cached_file tests_root url_base path
  lift (
      read_entry cls
        (record { source_file = file; given_url = entry_url entry; url_base = url_base }) entry)
