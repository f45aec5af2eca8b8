-- ===== src/Examples/Manifest.antt =====
-- Files of tests and their items.
use wmas.Prelude.{ℕ, String, Bool, true, false, none, some, List, [], ◌∷◌, ◌≡◌, refl, eqb}
use wmas.Prelude.Dict.{Dict, get}
use wmas.Exec.{ok, raised}
use wmas.Data.{assertion_error}
use wmas.Manifest.Variants.{parse_variants, global_suffixes}
use wmas.Manifest.Variants.Suffixes.{known, global_suffixes-total}
use wmas.Manifest.Names.{SourceFile, new_source_file, name_is_conformance, url_of}
use wmas.Manifest.Names.Flags.{name_is_conformance-false}
use wmas.Manifest.Content.{Environment, Element}
use wmas.Manifest.Items.{
  Item, Extra, text, UrlData, testharness_test, to_json, from_json, testharness,
}
use wmas.Manifest.Items.Json.{from_json-to_json}
use wmas.Manifest.Classify.{Source, manifest_items, find_items, with_variants, at_url}
use wmas.Manifest.Classify.Branches.{Typed}
use wmas.Manifest.Classify.Types.{IsCached, manifest_items-Typed, manifest_items-again}

abbrev script_text : String
script_text = "// META: timeout=long\n// META: variant=?1-5\n// META: variant=?6-last\n\nrun();\n"

-- Every path is a file with a script in it; markup is one element.
abbrev pub env : Environment
env = record {
  isdir = λ path. false;
  read = λ path. some script_text;
  parse = λ markup content. some (
      record {
        tag = "{http://www.w3.org/1999/xhtml}script";
        attrib = ("src", "/resources/testharness.js") ∷ [];
      }
      ∷ []);
  is_html_space = λ c. eqb c 32;
  urljoin = λ base url. some url;
  decode_utf8 = some;
}

abbrev pub file_at : String → String → String → String → List String → SourceFile
file_at dir_path filename stem ext meta_flags = record {
  tests_root = "/tests";
  rel_path = filename;
  url_base = "/";
  contents = none;
  dir_path = dir_path;
  filename = filename;
  stem = stem;
  ext = ext;
  type_flag = none;
  meta_flags = meta_flags;
}

abbrev worker_file : SourceFile
worker_file = record (file_at "dom" "a.worker.js" "a.worker" ".js" ("worker" ∷ [])) {
  rel_path = "dom/a.worker.js";
}

worker_file_made : new_source_file "/tests" "dom/a.worker.js" "/" none ≡ ok worker_file
unfolding new_source_file wmas.Prelude.cut_last wmas.Prelude.strip_right wmas.Prelude.◌+s◌
worker_file_made = refl

-- A worker test that is to be loaded over https.
abbrev https_file : SourceFile
https_file =
    record (file_at "dom" "a.worker.https.js" "a.worker.https" ".js" ("worker" ∷ "https" ∷ [])) {
      rel_path = "dom/a.worker.https.js";
    }

https_file_made : new_source_file "/tests" "dom/a.worker.https.js" "/" none ≡ ok https_file
unfolding new_source_file wmas.Prelude.cut_last wmas.Prelude.strip_right wmas.Prelude.◌+s◌
https_file_made = refl

-- The URL of such a test ends in .https.worker.js, and the assertion on its end fails.
https_items : find_items env https_file ≡ raised assertion_error
unfolding find_items wmas.Manifest.Names.name_is_non_test wmas.Prelude.starts_with
    wmas.Prelude.ends_with wmas.Prelude.split wmas.Prelude.any_of wmas.Prelude.mem_text
    wmas.Manifest.Names.name_is_stub wmas.Manifest.Names.name_is_manual name_is_conformance
    wmas.Manifest.Names.name_is_visual wmas.Manifest.Names.name_is_multi_global
    wmas.Manifest.Names.name_is_worker url_of wmas.Prelude.◌+s◌ wmas.Manifest.Variants.replace_end
https_items = refl

abbrev pub page : Source
page = record { file = file_at "dom" "a.html" "a" ".html" []; items_cache = none }

manifest_items-Typed_example :
    Typed (manifest_items env page).0 × IsCached ((manifest_items env page).1).items_cache
manifest_items-Typed_example = manifest_items-Typed env page tt

page_items :
    (manifest_items env page).0
    ≡ ok ("testharness", with_variants page.file "/a.html" none false false ("" ∷ []))
unfolding manifest_items wmas.Manifest.Names.name_is_non_test wmas.Prelude.starts_with
    wmas.Prelude.ends_with wmas.Prelude.split wmas.Prelude.any_of wmas.Prelude.mem_text
    wmas.Manifest.Names.name_is_stub wmas.Manifest.Names.name_is_manual name_is_conformance
    wmas.Manifest.Names.name_is_visual wmas.Manifest.Names.name_is_multi_global
    wmas.Manifest.Names.name_is_worker wmas.Manifest.Names.name_is_window
    wmas.Manifest.Names.name_is_webdriver wmas.Manifest.References.content_is_css_manual
    wmas.Manifest.Names.markup_type wmas.Prelude.drop_text wmas.Prelude.keep wmas.Prelude.◌+s◌
    wmas.Manifest.Content.content_is_testharness get wmas.Manifest.Content.has_testdriver
    wmas.Manifest.References.test_variants url_of wmas.Manifest.Content.timeout
page_items = refl

-- The files are gone.
abbrev no_files : Environment
no_files = record env { read = λ path. none }

manifest_items-again_example : manifest_items no_files ((manifest_items env page).1) ≡ (
  ok ("testharness", with_variants page.file "/a.html" none false false ("" ∷ [])),
  (manifest_items env page).1,
)
unfolding manifest_items wmas.Manifest.Names.name_is_non_test wmas.Prelude.starts_with
    wmas.Prelude.ends_with wmas.Prelude.split wmas.Prelude.any_of wmas.Prelude.mem_text
    wmas.Manifest.Names.name_is_stub wmas.Manifest.Names.name_is_manual name_is_conformance
    wmas.Manifest.Names.name_is_visual wmas.Manifest.Names.name_is_multi_global
    wmas.Manifest.Names.name_is_worker wmas.Manifest.Names.name_is_window
    wmas.Manifest.Names.name_is_webdriver wmas.Manifest.References.content_is_css_manual
    wmas.Manifest.Names.markup_type wmas.Prelude.drop_text wmas.Prelude.keep wmas.Prelude.◌+s◌
    wmas.Manifest.Content.content_is_testharness get wmas.Manifest.Content.has_testdriver
    wmas.Manifest.References.test_variants url_of wmas.Manifest.Content.timeout
manifest_items-again_example =
    manifest_items-again env no_files page ((manifest_items env page).1)
      ("testharness", with_variants page.file "/a.html" none false false ("" ∷ [])) refl

abbrev item : Item
item =
    testharness_test (at_url worker_file "/dom/a.worker.html?1-5")
      (record { timeout = some (text "long"); testdriver = false; jsshell = true })

abbrev files : Dict SourceFile
files = ("dom/a.worker.js", worker_file) ∷ []

from_json-to_json_example :
    from_json testharness "/tests" "/" "dom/a.worker.js" (to_json (λ base url. url) item) files
    ≡ (ok item, files)
unfolding get wmas.Manifest.Items.source_of
from_json-to_json_example =
    from_json-to_json (λ base url. url) item "/tests" "/" "dom/a.worker.js" files refl refl tt

global_suffixes-total_example :
    (names : List String) × (parse_variants "worker,!window" ≡ ok names)
    × (known names ≡ true)
    × ((suffixes : List (String × Bool)) × (global_suffixes "worker,!window" ≡ ok suffixes))
unfolding wmas.Prelude.any_of wmas.Prelude.split wmas.Prelude.starts_with wmas.Prelude.strip
    wmas.Prelude.strip_right wmas.Prelude.strip_left wmas.Prelude.drop_text
global_suffixes-total_example = global_suffixes-total "worker,!window" refl

abbrev valid_page : SourceFile
valid_page =
    record (file_at "conformance-checkers/html" "a-is-valid.html" "a-is-valid" ".html" []) {
      rel_path = "conformance-checkers/html/a-is-valid.html";
      type_flag = some "valid";
    }

name_is_conformance-false_example : name_is_conformance valid_page ≡ false
unfolding new_source_file wmas.Prelude.cut_last wmas.Prelude.strip_right wmas.Prelude.◌+s◌
name_is_conformance-false_example =
    name_is_conformance-false "/tests" "conformance-checkers/html/a-is-valid.html" "/" none
      valid_page refl
