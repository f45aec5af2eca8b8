-- ===== src/Manifest/Content/Fine.antt =====
-- What the names and the content of a file can raise in tools/manifest/sourcefile.py.
use wmas.Prelude.{String, Bool, true, false, ◌||◌, none, some, List, ◌≡◌, refl, arith}
use wmas.Exec.{Result, ok}
use wmas.Checked.{◌>>=◌}
use wmas.Checked.Outcome.{Outcome, Outcome-bind, Outcome-if, Outcome-known}
use wmas.Data.{Error, assertion_error, index_error, io_error, unicode_error, value_error}
use wmas.Manifest.Names.{
  SourceFile, markup_type, name_is_multi_global, name_is_worker, name_is_window, name_is_webdriver,
  url_of, rel_path_to_url, name_is_reference,
}
use wmas.Manifest.Content.{
  Environment, Element, open_file, root, find_nodes, find_all, script_metadata, says_long,
}
use wmas.Manifest.Content.{
  timeout, timeout_of_markup, viewport_size, dpi, content_is_testharness, has_testdriver,
}

-- The errors that a file can lead to: an assertion that fails, a file that cannot be read, an empty
-- `url_base`, a variant that is not UTF-8, and a reference that `urljoin` refuses.
abbrev pub expected : Error → Bool
expected assertion_error = true
expected io_error = true
expected index_error = true
expected unicode_error = true
expected value_error = true
expected _ = false

abbrev pub Fine : {A : Type 0} → Result A → Type 0
Fine m = Outcome expected (λ a. Unit) m

pub open_file-Fine : (env : Environment) (file : SourceFile) → Fine (open_file env file)
unfolding open_file
open_file-Fine env file = ground arith

pub bind-Fine :
    {A B : Type 0} (m : Result A) (f : A → Result B)
    → Fine m
    → ((a : A) → m ≡ ok a → Fine (f a))
    → Fine (m >>= f)
bind-Fine m f hm hf =
    Outcome-bind expected (λ a. Unit × (m ≡ ok a)) (λ b. Unit) m f
      (Outcome-known expected (λ a. Unit) m hm) (λ a h. hf a h.1)

pub root-Fine : (env : Environment) (file : SourceFile) → Fine (root env file)
unfolding root
root-Fine env file =
    elim (markup_type file)
      as (λ m. Fine (elim m [
        | none ↦ ok none
        | some markup ↦ do content ← open_file env file; ok (env.parse markup content)
      ])) [
        | none ↦ tt
        | some markup ↦
            bind-Fine (open_file env file) (λ content. ok (env.parse markup content))
              (open_file-Fine env file) (λ content e. tt)
      ]

pub url_of-Fine : (file : SourceFile) → Fine (url_of file)
unfolding url_of rel_path_to_url
url_of-Fine file = ground arith

pub name_is_reference-Fine : (file : SourceFile) → Fine (name_is_reference file)
unfolding name_is_reference
name_is_reference-Fine file = bind-Fine (url_of file) _ (url_of-Fine file) (λ url e. tt)

pub script_metadata-Fine : (env : Environment) (file : SourceFile) → Fine (script_metadata env file)
unfolding script_metadata
script_metadata-Fine env file =
    Outcome-if expected (λ a. Unit)
      (name_is_worker file || name_is_multi_global file || name_is_window file) _ _
      (λ e. bind-Fine (open_file env file) _ (open_file-Fine env file) (λ c h. tt))
      (λ e.
        Outcome-if expected (λ a. Unit) (name_is_webdriver file) _ _
          (λ e'. bind-Fine (open_file env file) _ (open_file-Fine env file) (λ c h. tt)) (λ e'. tt))

-- Elements are found where there is a root.
pub find_nodes-root :
    (env : Environment) (file : SourceFile) (elements : List Element) (tag name value : String)
    → root env file ≡ ok (some elements)
    → find_nodes env file tag name value ≡ ok (find_all tag name value elements)
unfolding find_nodes
find_nodes-root env file elements tag name value e = rw e refl

-- A property that looks at the root first.
pub with_root-Fine :
    {A : Type 0} (env : Environment) (file : SourceFile) (a : A) (f : List Element → Result A)
    → ((elements : List Element) → root env file ≡ ok (some elements) → Fine (f elements))
    → Fine (do tree ← root env file; elim tree [ none ↦ ok a | some elements ↦ f elements ])
with_root-Fine env file a f h = bind-Fine (root env file) _ (root-Fine env file) (λ tree e.
    elim tree
        as (λ t.
          root env file ≡ ok t → Fine (elim t [ none ↦ ok a | some elements ↦ f elements ])) [
            | none ↦ λ e'. tt
            | some elements ↦ λ e'. h elements e'
          ]
      e)

pub nodes-Fine :
    {A : Type 0} (env : Environment) (file : SourceFile) (a : A) (tag name value : String)
    (g : List Element → A)
    → Fine (do
      tree ← root env file
      elim tree [
        | none ↦ ok a
        | some elements ↦ (do nodes ← find_nodes env file tag name value; ok (g nodes))
      ])
nodes-Fine env file a tag name value g =
    with_root-Fine env file a
      (λ elements. do nodes ← find_nodes env file tag name value; ok (g nodes))
      (λ elements e. rw (find_nodes-root env file elements tag name value e) tt)

pub timeout-Fine : (env : Environment) (file : SourceFile) → Fine (timeout env file)
unfolding timeout timeout_of_markup
timeout-Fine env file =
    bind-Fine (script_metadata env file) _ (script_metadata-Fine env file) (λ metadata e.
      Outcome-if expected (λ a. Unit) (says_long metadata) _ _ (λ e'. tt)
        (λ e'. nodes-Fine env file none "meta" "name" "timeout" _))

pub viewport_size-Fine : (env : Environment) (file : SourceFile) → Fine (viewport_size env file)
unfolding viewport_size
viewport_size-Fine env file = nodes-Fine env file none "meta" "name" "viewport-size" _

pub dpi-Fine : (env : Environment) (file : SourceFile) → Fine (dpi env file)
unfolding dpi
dpi-Fine env file = nodes-Fine env file none "meta" "name" "device-pixel-ratio" _

pub content_is_testharness-Fine :
    (env : Environment) (file : SourceFile) → Fine (content_is_testharness env file)
unfolding content_is_testharness
content_is_testharness-Fine env file =
    nodes-Fine env file none "script" "src" "/resources/testharness.js" _

pub has_testdriver-Fine : (env : Environment) (file : SourceFile) → Fine (has_testdriver env file)
unfolding has_testdriver
has_testdriver-Fine env file = nodes-Fine env file none "script" "src" "/resources/testdriver.js" _
