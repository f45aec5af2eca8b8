-- ===== src/Manifest/Content.antt =====
-- What the content of a file says of it: `SourceFile` of tools/manifest/sourcefile.py. How files
-- are read, how markup is parsed, which characters HTML takes for spaces, how UTF-8 is decoded and
-- how `urljoin` joins are parameters.
pub mod Fine
use Prim.Native.Char.{code}
use wmas.Prelude.{
  ℕ, ◌-◌, ◌≤◌, String, Bool, true, false, not, ◌&&◌, ◌||◌, Option, none, some, List, [], ◌∷◌, ◌++◌,
  ◌==◌, eqb, leb, if◌then◌else◌, ◌+s◌, text_length, split, starts_with, ends_with, drop_text, keep,
  strip, strip_left, words, is_byte_space, mem_text, add_text, union_texts, any_of, is_some,
  or_else, lower, codes, codes_eq,
}
use wmas.Prelude.Dict.{Dict, get, has}
use wmas.Data.{Error, assertion_error, attribute_error, type_error, key_error, io_error}
use wmas.Exec.{Result, ok, raised}
use wmas.Checked.{◌>>=◌, ◌>>◌, require, or_raised}
use wmas.Manifest.Names.{
  SourceFile, Markup, markup_type, url_of, name_is_worker, name_is_multi_global, name_is_window,
  name_is_webdriver,
}

-- An element of a parsed document.
pub record Element : Type 0 where
  pub tag : String
  pub attrib : Dict String

-- What the code uses of other programs. `read` returns what a file holds, by its path; `parse` the
-- elements below the root, in the order of the document, or `none` where the parser raises. `none`
-- of `urljoin` is its ValueError, and `none` of `decode_utf8` a UnicodeDecodeError.
pub record Environment : Type 0 where
  pub isdir : String → Bool
  pub read : String → Option String
  pub parse : Markup → String → Option (List Element)
  pub is_html_space : ℕ → Bool
  pub urljoin : String → String → Option String
  pub decode_utf8 : String → Option String

-- `path`, by `os.path.join`
unfoldable pub path_of : SourceFile → String
path_of file =
    if starts_with file.rel_path "/"
    then file.rel_path
    else if file.tests_root == "" || ends_with file.tests_root "/"
    then file.tests_root +s file.rel_path
    else file.tests_root +s "/" +s file.rel_path

-- `open`, and reading all of it
unfoldable pub open_file : Environment → SourceFile → Result String
unfolding path_of
open_file env file = elim file.contents [
  | some contents ↦ ok contents
  | none ↦ or_raised io_error (env.read (path_of file))
]

-- `root`; `None` stands for no markup and for markup that cannot be parsed.
unfoldable pub root : Environment → SourceFile → Result (Option (List Element))
unfolding open_file
root env file = elim (markup_type file) [
  | none ↦ ok none
  | some markup ↦ do content ← open_file env file; ok (env.parse markup content)
]

-- `element.attrib[name] == value`
abbrev pub has_attribute : String → String → Element → Bool
has_attribute name value e = elim (get name e.attrib) [ none ↦ false | some v ↦ v == value ]

-- `.findall(".//{http://www.w3.org/1999/xhtml}tag[@name='value']")`
abbrev pub find_all : String → String → String → List Element → List Element
find_all tag name value elements =
    keep (λ e. e.tag == "{http://www.w3.org/1999/xhtml}" +s tag && has_attribute name value e)
      elements

-- `self.root.findall(...)`: an attribute of `None` where there is no root.
unfoldable pub find_nodes :
    Environment → SourceFile → String → String → String → Result (List Element)
unfolding root
find_nodes env file tag name value = do
  tree ← root env file
  elements ← or_raised attribute_error tree
  ok (find_all tag name value elements)

-- `timeout_nodes`, `viewport_nodes`, `dpi_nodes`, `testharness_nodes`, `variant_nodes` and
-- `testdriver_nodes`
abbrev pub timeout_nodes : Environment → SourceFile → Result (List Element)
timeout_nodes env file = find_nodes env file "meta" "name" "timeout"

abbrev pub viewport_nodes : Environment → SourceFile → Result (List Element)
viewport_nodes env file = find_nodes env file "meta" "name" "viewport-size"

abbrev pub dpi_nodes : Environment → SourceFile → Result (List Element)
dpi_nodes env file = find_nodes env file "meta" "name" "device-pixel-ratio"

abbrev pub testharness_nodes : Environment → SourceFile → Result (List Element)
testharness_nodes env file = find_nodes env file "script" "src" "/resources/testharness.js"

abbrev pub variant_nodes : Environment → SourceFile → Result (List Element)
variant_nodes env file = find_nodes env file "meta" "name" "variant"

abbrev pub testdriver_nodes : Environment → SourceFile → Result (List Element)
testdriver_nodes env file = find_nodes env file "script" "src" "/resources/testdriver.js"

abbrev is_word_code : ℕ → Bool
is_word_code c =
    leb b'a' c && leb c b'z' || leb b'A' c && leb c b'Z' || leb b'0' c && leb c b'9' || eqb c b'_'

-- `(\w*)=`: the name, and what stands behind the sign.
abbrev read_name : String → Option (String × String)
read_name String.[] = none
read_name (String.◌∷◌ c s) =
    let rest = read_name s in
    if is_word_code (code c)
    then elim rest [ none ↦ none | some (name, value) ↦ some (String.◌∷◌ c name, value) ]
    else if eqb (code c) b'='
    then some ("", s)
    else none

-- `\s*META:\s*(\w*)=(.*)$` behind the mark of a comment, on a line without its line feed
abbrev read_meta : String → String → Option (String × String)
read_meta mark line =
    let body = strip_left is_byte_space (drop_text (text_length mark) line) in
    if starts_with line mark && starts_with body "META:"
    then read_name (strip_left is_byte_space (drop_text 5 body))
    else none

-- `read_script_metadata`
unfoldable pub read_script_metadata : String → List String → List (String × String)
read_script_metadata mark [] = []
read_script_metadata mark (line ∷ lines) = elim (read_meta mark line) [
  | none ↦ []
  | some pair ↦ pair ∷ read_script_metadata mark lines
]

-- `script_metadata`
unfoldable pub script_metadata : Environment → SourceFile → Result (Option (List (String × String)))
unfolding open_file read_script_metadata split
script_metadata env file =
    if name_is_worker file || name_is_multi_global file || name_is_window file
    then (do content ← open_file env file; ok (some (read_script_metadata "//" (split 10 content))))
    else if name_is_webdriver file
    then (do content ← open_file env file; ok (some (read_script_metadata "#" (split 10 content))))
    else ok none

-- the value of an attribute of the first element
abbrev first_content : List Element → Option String
first_content [] = none
first_content (e ∷ es) = get "content" e.attrib

abbrev pub says_long : Option (List (String × String)) → Bool
says_long none = false
says_long (some pairs) = any_of (λ (m : String × String). m.0 == "timeout" && m.1 == "long") pairs

abbrev is_long : Option String → Bool
is_long none = false
is_long (some text) = codes_eq (lower text) (codes "long")

-- The part of `timeout` behind the test of the metadata.
unfoldable pub timeout_of_markup : Environment → SourceFile → Result (Option String)
unfolding root
timeout_of_markup env file = do
  tree ← root env file
  elim tree [
    | none ↦ ok none
    | some elements ↦ (do
      nodes ← timeout_nodes env file
      ok (if is_long (first_content nodes) then some "long" else none))
  ]

-- `timeout`
unfoldable pub timeout : Environment → SourceFile → Result (Option String)
unfolding timeout_of_markup script_metadata
timeout env file = do
  metadata ← script_metadata env file
  if says_long metadata then ok (some "long") else timeout_of_markup env file

-- The common text of `viewport_size` and `dpi`.
abbrev content_of : Environment → SourceFile → Result (List Element) → Result (Option String)
content_of env file found = do
  tree ← root env file
  elim tree [ none ↦ ok none | some elements ↦ (do nodes ← found; ok (first_content nodes)) ]

-- `viewport_size`
unfoldable pub viewport_size : Environment → SourceFile → Result (Option String)
unfolding find_nodes
viewport_size env file = content_of env file (viewport_nodes env file)

-- `dpi`
unfoldable pub dpi : Environment → SourceFile → Result (Option String)
unfolding find_nodes
dpi env file = content_of env file (dpi_nodes env file)

abbrev is_some_element : List Element → Bool
is_some_element [] = false
is_some_element (e ∷ es) = true

-- `content_is_testharness` and `has_testdriver`; `None` where there is no root.
unfoldable pub content_is_testharness : Environment → SourceFile → Result (Option Bool)
unfolding find_nodes
content_is_testharness env file = do
  tree ← root env file
  elim tree [
    | none ↦ ok none
    | some elements ↦ (do nodes ← testharness_nodes env file; ok (some (is_some_element nodes)))
  ]

unfoldable pub has_testdriver : Environment → SourceFile → Result (Option Bool)
unfolding find_nodes
has_testdriver env file = do
  tree ← root env file
  elim tree [
    | none ↦ ok none
    | some elements ↦ (do nodes ← testdriver_nodes env file; ok (some (is_some_element nodes)))
  ]
