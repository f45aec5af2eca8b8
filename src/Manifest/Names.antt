-- ===== src/Manifest/Names.antt =====
-- What the name of a file says of it: `SourceFile` of tools/manifest/sourcefile.py, and
-- `rel_path_to_url` of tools/manifest/utils.py. Paths are those of a POSIX system.
pub mod Flags
use Prim.Native.Char.{code}
use wmas.Prelude.{
  ℕ, ◌-◌, ◌≤◌, String, Bool, true, false, not, ◌&&◌, ◌||◌, Option, none, some, List, [], ◌∷◌, ◌==◌,
  eqb, leb, ltb, if◌then◌else◌, ◌+s◌, text_length, split, starts_with, ends_with, contains_text,
  drop_text, cut_last, strip_right, mem_text, length, any_of,
}
use wmas.Data.{Error, assertion_error, index_error}
use wmas.Exec.{Result, ok, raised}
use wmas.Checked.{◌>>=◌, ◌>>◌, require}

-- `SourceFile`, without the cache of its items; `contents` are those given to the constructor.
pub record SourceFile : Type 0 where
  pub tests_root : String
  pub rel_path : String
  pub url_base : String
  pub contents : Option String
  pub dir_path : String
  pub filename : String
  pub stem : String
  pub ext : String
  pub type_flag : Option String
  pub meta_flags : List String

-- `p.rstrip("/")`, unless nothing would be left
abbrev without_slashes : String → String
without_slashes head =
    let short = strip_right (λ c. eqb c b'/') head in if short == "" then head else short

-- `os.path.split`
unfoldable pub split_path : String → String × String
split_path path = elim (cut_last b'/' path) [
  | none ↦ ("", path)
  | some (head, tail) ↦ (without_slashes (head +s "/"), tail)
]

-- `os.path.splitext` of a file name: dots at its beginning begin no extension.
unfoldable pub split_ext : String → String × String
split_ext String.[] = ("", "")
split_ext (String.◌∷◌ c s) =
    let (root, ext) = split_ext s in
    if eqb (code c) b'.' then (String.◌∷◌ c root, ext) else elim (cut_last b'.' (String.◌∷◌ c s)) [
      | none ↦ (String.◌∷◌ c s, "")
      | some (before, behind) ↦ (before, "." +s behind)
    ]

-- The last part and the first one, as `s.rsplit(sep, 1)[1]` and `s.split(sep)[0]` have them where
-- the separator stands in the text.
abbrev last_part : List String → String
last_part [] = ""
last_part (w ∷ []) = w
last_part (w ∷ v ∷ ws) = last_part (v ∷ ws)

abbrev first_part : List String → String
first_part [] = ""
first_part (w ∷ ws) = w

abbrev rest_of : List String → List String
rest_of [] = []
rest_of (w ∷ ws) = ws

-- The code of `SourceFile.__init__` that sets `type_flag`.
unfoldable pub type_flag_of : String → Option String
unfolding split contains_text
type_flag_of name =
    if contains_text "-" name
    then some (first_part (split b'.' (last_part (split b'-' name))))
    else none

-- `SourceFile.__init__`
unfoldable pub new_source_file : String → String → String → Option String → Result SourceFile
unfolding split_path split_ext type_flag_of
new_source_file tests_root rel_path url_base contents = do
  require (not (starts_with rel_path "/")) assertion_error
  let (dir_path, filename) = split_path rel_path in
      let (name, ext) = split_ext filename in
      ok (record {
        tests_root = tests_root;
        rel_path = rel_path;
        url_base = url_base;
        contents = contents;
        dir_path = dir_path;
        filename = filename;
        stem = name;
        ext = ext;
        type_flag = type_flag_of name;
        meta_flags = rest_of (split b'.' name);
      })

-- `self.type_flag == text`
unfoldable pub has_type_flag : SourceFile → String → Bool
has_type_flag file text = elim file.type_flag [ none ↦ false | some flag ↦ flag == text ]

-- `name_prefix`
unfoldable pub name_prefix : SourceFile → String → Bool
name_prefix file prefix = starts_with file.stem prefix

-- `is_dir`, for `os.path.isdir`
unfoldable pub is_dir : (String → Bool) → SourceFile → Bool
is_dir isdir file = elim file.contents [ some c ↦ false | none ↦ isdir file.rel_path ]

abbrev begins : List String → List String → Bool
begins parts [] = true
begins [] (w ∷ ws) = false
begins (p ∷ parts) (w ∷ ws) = p == w && begins parts ws

-- `in_non_test_dir`, with `root_dir_non_test`, `dir_non_test` and `dir_path_non_test`
unfoldable pub in_non_test_dir : SourceFile → Bool
in_non_test_dir file =
    let parts = split b'/' file.dir_path in
    file.dir_path == ""
    || first_part parts == "common"
    || any_of (λ item. mem_text item ("resources" ∷ "support" ∷ "tools" ∷ [])) parts
    || begins parts ("css21" ∷ "archive" ∷ [])
    || begins parts ("css" ∷ "CSS2" ∷ "archive" ∷ [])
    || begins parts ("css" ∷ "common" ∷ [])

-- `in_conformance_checker_dir`
unfoldable pub in_conformance_checker_dir : SourceFile → Bool
in_conformance_checker_dir file =
    file.dir_path == "conformance-checkers" || starts_with file.dir_path "conformance-checkers/"

-- `name_is_non_test`
unfoldable pub name_is_non_test : (String → Bool) → SourceFile → Bool
unfolding is_dir name_prefix has_type_flag in_non_test_dir
name_is_non_test isdir file =
    is_dir isdir file
    || name_prefix file "MANIFEST"
    || file.filename == "META.yml"
    || starts_with file.filename "."
    || ends_with file.filename ".headers"
    || has_type_flag file "support"
    || in_non_test_dir file

-- `name_is_conformance`
unfoldable pub name_is_conformance : SourceFile → Bool
unfolding in_conformance_checker_dir has_type_flag
name_is_conformance file =
    in_conformance_checker_dir file
    && (has_type_flag file "is-valid" || has_type_flag file "no-valid")

-- `name_is_stub`, `name_is_manual` and `name_is_visual`
unfoldable pub name_is_stub : SourceFile → Bool
unfolding name_prefix
name_is_stub file = name_prefix file "stub-"

unfoldable pub name_is_manual : SourceFile → Bool
unfolding has_type_flag
name_is_manual file = has_type_flag file "manual"

unfoldable pub name_is_visual : SourceFile → Bool
unfolding has_type_flag
name_is_visual file = has_type_flag file "visual"

-- `name_is_multi_global`, `name_is_worker` and `name_is_window`
unfoldable pub name_is_multi_global : SourceFile → Bool
name_is_multi_global file = mem_text "any" file.meta_flags && file.ext == ".js"

unfoldable pub name_is_worker : SourceFile → Bool
name_is_worker file = mem_text "worker" file.meta_flags && file.ext == ".js"

unfoldable pub name_is_window : SourceFile → Bool
name_is_window file = mem_text "window" file.meta_flags && file.ext == ".js"

-- `name_is_webdriver`; `fnmatch` with "*.py" looks at the end of the name.
unfoldable pub name_is_webdriver : SourceFile → Bool
name_is_webdriver file =
    let rel_dir_tree = split b'/' file.rel_path in
    (first_part rel_dir_tree == "webdriver" && ltb 1 (length rel_dir_tree)
      || begins rel_dir_tree ("infrastructure" ∷ "webdriver" ∷ []) && ltb 2 (length rel_dir_tree))
    && not (mem_text file.filename ("__init__.py" ∷ "conftest.py" ∷ []))
    && ends_with file.filename ".py"

-- `[0-9]*([\-_]|$)`; `$` matches before a line feed at the end as well.
abbrev ends_reference : String → Bool
ends_reference String.[] = true
ends_reference (String.◌∷◌ c s) =
    let rest = ends_reference s in
    if leb b'0' (code c) && leb (code c) b'9'
    then rest
    else eqb (code c) b'-' || eqb (code c) b'_' || eqb (code c) 10 && s == ""

-- `(not)?ref[0-9]*([\-_]|$)` at the beginning
abbrev begins_reference : String → Bool
begins_reference s =
    starts_with s "ref" && ends_reference (drop_text 3 s)
    || starts_with s "notref" && ends_reference (drop_text 6 s)

abbrev reference_behind : String → Bool
reference_behind String.[] = false
reference_behind (String.◌∷◌ c s) =
    (eqb (code c) b'-' || eqb (code c) b'_') && begins_reference s || reference_behind s

-- `reference_file_re.search(name)`
unfoldable pub is_reference_name : String → Bool
is_reference_name name = begins_reference name || reference_behind name

abbrev ends_with_slash : String → String
ends_with_slash url_base = if ends_with url_base "/" then url_base else url_base +s "/"

-- `rel_path_to_url`
unfoldable pub rel_path_to_url : String → String → Result String
rel_path_to_url rel_path url_base = do
  require (not (starts_with rel_path "/")) assertion_error
  require (not (url_base == "")) index_error
  ok (ends_with_slash (if starts_with url_base "/" then url_base else "/" +s url_base) +s rel_path)

-- `url`
unfoldable pub url_of : SourceFile → Result String
unfolding rel_path_to_url
url_of file = rel_path_to_url file.rel_path file.url_base

-- `name_is_reference`
unfoldable pub name_is_reference : SourceFile → Result Bool
unfolding url_of
name_is_reference file = do
  url ← url_of file
  ok (
      contains_text "/reference/" url
      || contains_text "/reftest/" url
      || is_reference_name file.stem)

pub data Markup : Type 0 where
  html xhtml svg : Markup

-- `markup_type`
unfoldable pub markup_type : SourceFile → Option Markup
markup_type file =
    let ext = if starts_with file.ext "." then drop_text 1 file.ext else file.ext in
    if file.ext == ""
    then none
    else if mem_text ext ("html" ∷ "htm" ∷ [])
    then some html
    else if mem_text ext ("xhtml" ∷ "xht" ∷ "xml" ∷ [])
    then some xhtml
    else if ext == "svg"
    then some svg
    else none
