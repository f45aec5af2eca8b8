-- ===== src/Manifest/References/Fine.antt =====
-- What the variants and the references of a file can raise in tools/manifest/sourcefile.py.
use wmas.Prelude.{
  String, Bool, true, false, ◌||◌, Option, none, some, List, [], ◌∷◌, ◌++◌, ◌==◌, ◌≡◌, refl, arith,
  ap, if◌then◌else◌, starts_with, All, Bool-cases, Option-cases, inl, inr, is_some, keep, strip,
  not, ◌∙◌, sym, eq_iff, ◌⊎◌, mem_text, drop_text,
}
use wmas.Prelude.Dict.{get}
use wmas.Exec.{Result, ok}
use wmas.Checked.{◌>>=◌, or_raised}
use wmas.Checked.Outcome.{Outcome, Outcome-bind, Outcome-if}
use wmas.Data.{Error, type_error, unicode_error, value_error}
use wmas.Manifest.Names.{
  SourceFile, markup_type, name_is_multi_global, name_is_worker, name_is_window, url_of,
}
use wmas.Manifest.Content.{Environment, Element, root, find_all, script_metadata, open_file}
use wmas.Manifest.Content.Fine.{
  Fine, expected, bind-Fine, root-Fine, find_nodes-root, with_root-Fine, url_of-Fine,
  open_file-Fine,
}
use wmas.Manifest.References.{
  check_variants, decode_variants, read_variants, test_variants, reftest_nodes, collect_references,
  references, content_is_ref_node, css_flags, css_flag_nodes, content_is_css_manual,
  spec_link_nodes, spec_links, content_is_css_visual, some_text, visual_extensions,
}

-- The names whose files have metadata in a script.
abbrev pub is_script : SourceFile → Bool
is_script file = name_is_worker file || name_is_multi_global file || name_is_window file

is_script-js : (file : SourceFile) → is_script file ≡ true → (file.ext == ".js") ≡ true
unfolding name_is_worker name_is_multi_global name_is_window
is_script-js file h = ground arith

pub script_metadata-some :
    (env : Environment) (file : SourceFile)
    → is_script file ≡ true
    → Outcome expected (λ metadata. is_some metadata ≡ true) (script_metadata env file)
unfolding script_metadata
script_metadata-some env file script =
    Outcome-if expected (λ metadata. is_some metadata ≡ true) (is_script file) _ _
      (λ e.
        Outcome-bind expected (λ a. Unit) (λ metadata. is_some metadata ≡ true) (open_file env file)
          _ (open_file-Fine env file) (λ c h. refl))
      (λ e. ground arith)

check_variants-Fine : (vs : List String) → Fine (check_variants vs)
check_variants-Fine [] = tt
check_variants-Fine (v ∷ vs) = ground (arith, check_variants-Fine vs)

test_variants-read :
    (env : Environment) (file : SourceFile)
    → Fine (read_variants env file)
    → Fine (test_variants env file)
unfolding test_variants
test_variants-read env file h =
    bind-Fine (read_variants env file) _ h
      (λ rv e. bind-Fine (check_variants rv) _ (check_variants-Fine rv) (λ u e'. tt))

or_raised-Fine :
    {A B : Type 0} (e : Error) (o : Option A) (f : A → Result B)
    → is_some o ≡ true
    → ((a : A) → Fine (f a))
    → Fine (do a ← or_raised e o; f a)
or_raised-Fine e none f h all = ground arith
or_raised-Fine e (some a) f h all = all a

or_expected-Fine :
    {A : Type 0} (e : Error) (o : Option A) → expected e ≡ true → Fine (or_raised e o)
or_expected-Fine e none h = h
or_expected-Fine e (some a) h = tt

decode_variants-Fine :
    (env : Environment) (pairs : List (String × String)) → Fine (decode_variants env pairs)
unfolding decode_variants
decode_variants-Fine env [] = tt
decode_variants-Fine env ((key, value) ∷ pairs) =
    Outcome-if expected (λ a. Unit) (not (key == "variant")) _ _
      (λ e. decode_variants-Fine env pairs)
      (λ e.
        bind-Fine (or_raised unicode_error (env.decode_utf8 value)) _
          (or_expected-Fine unicode_error (env.decode_utf8 value) refl)
          (λ v e'.
            bind-Fine (decode_variants env pairs) _ (decode_variants-Fine env pairs)
              (λ vs e''. tt)))

pub test_variants-script :
    (env : Environment) (file : SourceFile) → is_script file ≡ true → Fine (test_variants env file)
unfolding read_variants
test_variants-script env file script = test_variants-read env file (
    Outcome-if expected (λ a. Unit) (file.ext == ".js") _ _
      (λ e.
        Outcome-bind expected (λ metadata. is_some metadata ≡ true) (λ a. Unit)
          (script_metadata env file) _ (script_metadata-some env file script)
          (λ metadata h. or_raised-Fine type_error metadata _ h (decode_variants-Fine env)))
      (λ e. let js = is_script-js file script in ground arith))

markup_type-js : (file : SourceFile) → (file.ext == ".js") ≡ true → markup_type file ≡ none
unfolding markup_type starts_with drop_text mem_text
markup_type-js file js = rw ((eq_iff file.ext ".js").0 js) refl

root-js :
    (env : Environment) (file : SourceFile) (elements : List Element)
    → root env file ≡ ok (some elements)
    → (file.ext == ".js") ≡ false
unfolding root
root-js env file elements e = elim (Bool-cases (file.ext == ".js")) [
  | inl js ↦
      let nothing : root env file ≡ ok none = rw (markup_type-js file js, root) refl in
      let both : ok none ≡ ok (some elements) = sym nothing ∙ e in ground arith
  | inr other ↦ other
]

pub test_variants-markup :
    (env : Environment) (file : SourceFile) (elements : List Element)
    → root env file ≡ ok (some elements)
    → Fine (test_variants env file)
unfolding read_variants
test_variants-markup env file elements found = test_variants-read env file (
    Outcome-if expected (λ a. Unit) (file.ext == ".js") _ _
      (λ e. let no = root-js env file elements found in ground arith)
      (λ e. rw (find_nodes-root env file elements "meta" "name" "variant" found) tt))

pub reftest_nodes-Fine : (env : Environment) (file : SourceFile) → Fine (reftest_nodes env file)
unfolding reftest_nodes
reftest_nodes-Fine env file = with_root-Fine env file [] (λ elements. ok _) (λ elements e. tt)

-- The relation of an element is one of the two.
abbrev IsLink : Element → Type 0
IsLink e = (get "rel" e.attrib ≡ some "match") ⊎ (get "rel" e.attrib ≡ some "mismatch")

some_equal :
    (value : String) (o : Option String)
    → elim o [ none ↦ false | some v ↦ v == value ] ≡ true
    → o ≡ some value
some_equal value none h = ground arith
some_equal value (some v) h = ap some ((eq_iff v value).0 h)

All-if :
    (P : Element → Type 0) (b : Bool) (x : Element) (xs : List Element)
    → (b ≡ true → P x)
    → All P xs
    → All P (if b then x ∷ xs else xs)
All-if P true x xs h all = (h refl, all)
All-if P false x xs h all = all

All-append : (P : Element → Type 0) (xs ys : List Element) → All P xs → All P ys → All P (xs ++ ys)
All-append P [] ys hx hy = hy
All-append P (x ∷ xs) ys hx hy = (hx.0, All-append P xs ys hx.1 hy)

All-find_all :
    (P : Element → Type 0) (tag name value : String) (es : List Element)
    → ((e : Element) → get name e.attrib ≡ some value → P e)
    → All P (find_all tag name value es)
unfolding keep
All-find_all P tag name value [] h = tt
All-find_all P tag name value (e ∷ es) h =
    All-if P _ e (find_all tag name value es)
      (λ both. h e (some_equal value (get name e.attrib) (ground arith)))
      (All-find_all P tag name value es h)

reftest_nodes-IsLink :
    (env : Environment) (file : SourceFile) → Outcome expected (All IsLink) (reftest_nodes env file)
unfolding reftest_nodes
reftest_nodes-IsLink env file =
    Outcome-bind expected (λ a. Unit) (All IsLink) (root env file) _ (root-Fine env file)
      (λ tree u.
        elim tree
          as (λ t. Outcome expected (All IsLink) (elim t [
            | none ↦ ok []
            | some elements ↦ ok (
                find_all "link" "rel" "match" elements ++ find_all "link" "rel" "mismatch" elements)
          ])) [
            | none ↦ tt
            | some elements ↦
                All-append IsLink _ _
                  (All-find_all IsLink "link" "rel" "match" elements (λ e h. inl h))
                  (All-find_all IsLink "link" "rel" "mismatch" elements (λ e h. inr h))
          ])

-- The relation of a reference is one of those that an item takes.
abbrev pub IsReference : String × String → Type 0
IsReference (url, ref_type) = (ref_type == "==" || ref_type == "!=") ≡ true

collect_references-IsReference :
    (env : Environment) (file : SourceFile) (items : List Element)
    → All IsLink items
    → Outcome expected (All IsReference) (collect_references env file items)
unfolding collect_references get
collect_references-IsReference env file [] links = tt
collect_references-IsReference env file (item ∷ items) links =
    elim (Option-cases (get "href" item.attrib)) [
      | inl q ↦ rw (q, collect_references) (collect_references-IsReference env file items links.1)
      | inr (href, q) ↦
          rw (q, collect_references)
            (Outcome-bind expected (λ u. Unit) (All IsReference) (url_of file) _ (url_of-Fine file)
              (λ url u.
                Outcome-bind expected (λ r. Unit) (All IsReference)
                  (or_raised value_error (env.urljoin url (strip env.is_html_space href))) _
                  (or_expected-Fine value_error (env.urljoin url (strip env.is_html_space href))
                    refl)
                  (λ ref_url r. elim links.0 [
                    | inl l ↦ rw l (
                        Outcome-bind expected (All IsReference) (All IsReference)
                          (collect_references env file items) _
                          (collect_references-IsReference env file items links.1)
                          (λ rest all. (refl, all)))
                    | inr l ↦ rw l (
                        Outcome-bind expected (All IsReference) (All IsReference)
                          (collect_references env file items) _
                          (collect_references-IsReference env file items links.1)
                          (λ rest all. (refl, all)))
                  ])))
    ]

pub references-IsReference :
    (env : Environment) (file : SourceFile)
    → Outcome expected (All IsReference) (references env file)
unfolding references
references-IsReference env file =
    Outcome-bind expected (All IsLink) (All IsReference) (reftest_nodes env file) _
      (reftest_nodes-IsLink env file) (collect_references-IsReference env file)

pub content_is_ref_node-Fine :
    (env : Environment) (file : SourceFile) → Fine (content_is_ref_node env file)
unfolding content_is_ref_node
content_is_ref_node-Fine env file =
    Outcome-bind expected (All IsReference) (λ a. Unit) (references env file) _
      (references-IsReference env file) (λ rv all. tt)

css_flags-Fine : (env : Environment) (file : SourceFile) → Fine (css_flags env file)
unfolding css_flags css_flag_nodes
css_flags-Fine env file =
    bind-Fine (css_flag_nodes env file) _ (with_root-Fine env file [] _ (λ elements e. tt))
      (λ nodes e. tt)

spec_links-Fine : (env : Environment) (file : SourceFile) → Fine (spec_links env file)
unfolding spec_links spec_link_nodes
spec_links-Fine env file =
    bind-Fine (spec_link_nodes env file) _ (with_root-Fine env file [] _ (λ elements e. tt))
      (λ nodes e. tt)

pub content_is_css_manual-Fine :
    (env : Environment) (file : SourceFile) → Fine (content_is_css_manual env file)
unfolding content_is_css_manual
content_is_css_manual-Fine env file =
    with_root-Fine env file none _
      (λ elements e. bind-Fine (css_flags env file) _ (css_flags-Fine env file) (λ flags e'. tt))

pub content_is_css_visual-Fine :
    (env : Environment) (file : SourceFile) → Fine (content_is_css_visual env file)
unfolding content_is_css_visual
content_is_css_visual-Fine env file = with_root-Fine env file none _ (λ elements e.
    Outcome-if expected (λ a. Unit) (mem_text file.ext visual_extensions)
      (do links ← spec_links env file; ok (some (some_text links))) (ok (some false))
      (λ e'. bind-Fine (spec_links env file) _ (spec_links-Fine env file) (λ flags h. tt))
      (λ e'. tt))
