-- ===== src/Manifest/References.antt =====
-- The variants, the references and the CSS marks that a file holds: `SourceFile` of
-- tools/manifest/sourcefile.py.
pub mod Fine
use wmas.Prelude.{
  ℕ, String, Bool, true, false, not, ◌&&◌, ◌||◌, Option, none, some, List, [], ◌∷◌, ◌++◌, ◌==◌,
  if◌then◌else◌, starts_with, strip, words, is_text_space, mem_text, add_text, union_texts, any_of,
  is_some,
}
use wmas.Prelude.Dict.{Dict, get}
use wmas.Data.{
  Error, assertion_error, attribute_error, type_error, key_error, unicode_error, value_error,
}
use wmas.Exec.{Result, ok, raised}
use wmas.Checked.{◌>>=◌, ◌>>◌, require, or_raised}
use wmas.Manifest.Names.{SourceFile, url_of}
use wmas.Manifest.Content.{
  Environment, Element, root, find_all, variant_nodes, find_nodes, script_metadata,
}

-- The loop of `test_variants` over the metadata of a script.
unfoldable pub decode_variants : Environment → List (String × String) → Result (List String)
decode_variants env [] = ok []
decode_variants env ((key, value) ∷ pairs) =
    let rest = decode_variants env pairs in
    if not (key == "variant") then rest else (do
      variant ← or_raised unicode_error (env.decode_utf8 value)
      variants ← rest
      ok (variant ∷ variants))

-- The values of an attribute, of the elements that have it.
abbrev pub attributes : String → List Element → List String
attributes name [] = []
attributes name (e ∷ es) =
    let rest = attributes name es in elim (get name e.attrib) [ none ↦ rest | some v ↦ v ∷ rest ]

-- `assert variant == "" or variant[0] in ["#", "?"]`, for each variant
abbrev pub check_variants : List String → Result (Unit {0})
check_variants [] = ok tt
check_variants (v ∷ vs) =
    let rest = check_variants vs in
    if v == "" || starts_with v "#" || starts_with v "?" then rest else raised assertion_error

-- The first part of `test_variants`; an iteration over `None` is a TypeError.
unfoldable pub read_variants : Environment → SourceFile → Result (List String)
unfolding script_metadata find_nodes
read_variants env file =
    if file.ext == ".js"
    then (do
      metadata ← script_metadata env file
      pairs ← or_raised type_error metadata
      decode_variants env pairs)
    else (do nodes ← variant_nodes env file; ok (attributes "content" nodes))

abbrev or_one : List String → List String
or_one [] = "" ∷ []
or_one (v ∷ vs) = v ∷ vs

-- `test_variants`
unfoldable pub test_variants : Environment → SourceFile → Result (List String)
unfolding read_variants
test_variants env file = do rv ← read_variants env file; check_variants rv; ok (or_one rv)

-- `reftest_nodes`
unfoldable pub reftest_nodes : Environment → SourceFile → Result (List Element)
unfolding root
reftest_nodes env file = do
  tree ← root env file
  elim tree [
    | none ↦ ok []
    | some elements ↦
        ok (find_all "link" "rel" "match" elements ++ find_all "link" "rel" "mismatch" elements)
  ]

-- `rel_map`
abbrev pub rel_map : Dict String
rel_map = ("match", "==") ∷ ("mismatch", "!=") ∷ []

-- The loop of `references`.
unfoldable pub collect_references :
    Environment → SourceFile → List Element → Result (List (String × String))
unfolding url_of
collect_references env file [] = ok []
collect_references env file (item ∷ items) = elim (get "href" item.attrib) [
  | none ↦ collect_references env file items
  | some href ↦ (do
    url ← url_of file
    ref_url ← or_raised value_error (env.urljoin url (strip env.is_html_space href))
    rel ← or_raised key_error (get "rel" item.attrib)
    ref_type ← or_raised key_error (get rel rel_map)
    rest ← collect_references env file items
    ok ((ref_url, ref_type) ∷ rest))
]

-- `references`
unfoldable pub references : Environment → SourceFile → Result (List (String × String))
unfolding reftest_nodes collect_references
references env file = do nodes ← reftest_nodes env file; collect_references env file nodes

abbrev some_pair : List (String × String) → Bool
some_pair [] = false
some_pair (p ∷ ps) = true

-- `content_is_ref_node`
unfoldable pub content_is_ref_node : Environment → SourceFile → Result Bool
unfolding references
content_is_ref_node env file = do rv ← references env file; ok (some_pair rv)

-- The elements that a property looks at, none of them where there is no root.
abbrev elements_of : Environment → SourceFile → (String × String × String) → Result (List Element)
elements_of env file (tag, name, value) = do
  tree ← root env file
  elim tree [ none ↦ ok [] | some elements ↦ ok (find_all tag name value elements) ]

-- `css_flag_nodes` and `spec_link_nodes`
unfoldable pub css_flag_nodes : Environment → SourceFile → Result (List Element)
unfolding root
css_flag_nodes env file = elements_of env file ("meta", "name", "flags")

unfoldable pub spec_link_nodes : Environment → SourceFile → Result (List Element)
unfolding root
spec_link_nodes env file = elements_of env file ("link", "rel", "help")

abbrev pub union_words : List String → List String → List String
union_words rv [] = rv
union_words rv (text ∷ texts) = union_words (union_texts rv (words is_text_space text)) texts

-- `css_flags`
unfoldable pub css_flags : Environment → SourceFile → Result (List String)
unfolding css_flag_nodes
css_flags env file = do
  nodes ← css_flag_nodes env file
  ok (union_words [] (attributes "content" nodes))

-- the flags of a manual test
abbrev pub manual_flags : List String
manual_flags = "animated" ∷ "font" ∷ "history" ∷ "interact" ∷ "paged" ∷ "speech" ∷ "userstyle" ∷ []

-- `content_is_css_manual`
unfoldable pub content_is_css_manual : Environment → SourceFile → Result (Option Bool)
unfolding css_flags
content_is_css_manual env file = do
  tree ← root env file
  elim tree [
    | none ↦ ok none
    | some elements ↦ (do
      flags ← css_flags env file
      ok (some (any_of (λ flag. mem_text flag manual_flags) flags)))
  ]

abbrev pub union_links : Environment → List String → List String → List String
union_links env rv [] = rv
union_links env rv (href ∷ hrefs) =
    union_links env (add_text (strip env.is_html_space href) rv) hrefs

-- `spec_links`
unfoldable pub spec_links : Environment → SourceFile → Result (List String)
unfolding spec_link_nodes
spec_links env file = do
  nodes ← spec_link_nodes env file
  ok (union_links env [] (attributes "href" nodes))

abbrev pub some_text : List String → Bool
some_text [] = false
some_text (w ∷ ws) = true

-- the extensions of a visual test
abbrev pub visual_extensions : List String
visual_extensions = ".xht" ∷ ".html" ∷ ".xhtml" ∷ ".htm" ∷ ".xml" ∷ ".svg" ∷ []

-- `content_is_css_visual`
unfoldable pub content_is_css_visual : Environment → SourceFile → Result (Option Bool)
unfolding spec_links
content_is_css_visual env file = do
  tree ← root env file
  elim tree [
    | none ↦ ok none
    | some elements ↦
        if mem_text file.ext visual_extensions
        then (do links ← spec_links env file; ok (some (some_text links)))
        else ok (some false)
  ]
