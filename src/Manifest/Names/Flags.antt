-- ===== src/Manifest/Names/Flags.antt =====
-- The mark behind the last dash of a name, in tools/manifest/sourcefile.py.
use Prim.Native.Char.{Char, code}
use wmas.Prelude.{
  ℕ, String, Bool, true, false, not, ◌&&◌, Option, none, some, List, [], ◌∷◌, ◌≡◌, refl, ◌==◌, eqb,
  arith, split, push_char, contains_text, starts_with, Bool-cases, inl, inr, eq_iff, subst,
}
use wmas.Data.{Error, assertion_error}
use wmas.Exec.{Result, ok, raised}
use wmas.Checked.{◌>>◌, require}
use wmas.Manifest.Names.{
  SourceFile, new_source_file, name_is_conformance, has_type_flag, type_flag_of, last_part,
  first_part, split_path, split_ext,
}

-- Does a text hold no such character?
abbrev free_of : ℕ → String → Bool
free_of sep String.[] = true
free_of sep (String.◌∷◌ c s) = not (eqb (code c) sep) && free_of sep s

abbrev all_free : ℕ → List String → Bool
all_free sep [] = true
all_free sep (w ∷ ws) = free_of sep w && all_free sep ws

push_char-all_free :
    (sep : ℕ) (c : Char) (ws : List String)
    → eqb (code c) sep ≡ false
    → all_free sep ws ≡ true
    → all_free sep (push_char c ws) ≡ true
push_char-all_free sep c [] e all = ground arith
push_char-all_free sep c (w ∷ ws) e all = ground arith

-- No part holds the separator.
split-all_free : (sep : ℕ) (s : String) → all_free sep (split sep s) ≡ true
unfolding split
split-all_free sep String.[] = refl
split-all_free sep (String.◌∷◌ c s) = elim (Bool-cases (eqb (code c) sep)) [
  | inl e ↦ simp e (split-all_free sep s)
  | inr e ↦ simp e (push_char-all_free sep c (split sep s) e (split-all_free sep s))
]

split-keeps_free :
    (sep other : ℕ) (s : String) → free_of sep s ≡ true → all_free sep (split other s) ≡ true
unfolding split
split-keeps_free sep other String.[] e = refl
split-keeps_free sep other (String.◌∷◌ c s) e = elim (Bool-cases (eqb (code c) other)) [
  | inl q ↦ simp q (split-keeps_free sep other s (ground arith))
  | inr q ↦ simp q (
      push_char-all_free sep c (split other s) (ground arith)
        (split-keeps_free sep other s (ground arith)))
]

last_part-free :
    (sep : ℕ) (ws : List String) → all_free sep ws ≡ true → free_of sep (last_part ws) ≡ true
last_part-free sep [] all = refl
last_part-free sep (w ∷ []) all = ground arith
last_part-free sep (w ∷ v ∷ ws) all = last_part-free sep (v ∷ ws) (ground arith)

first_part-free :
    (sep : ℕ) (ws : List String) → all_free sep ws ≡ true → free_of sep (first_part ws) ≡ true
first_part-free sep [] all = refl
first_part-free sep (w ∷ ws) all = ground arith

abbrev flag_free : Option String → Bool
flag_free none = true
flag_free (some flag) = free_of b'-' flag

-- A mark holds no dash.
type_flag_of-free : (name : String) → flag_free (type_flag_of name) ≡ true
unfolding type_flag_of
type_flag_of-free name = elim (Bool-cases (contains_text "-" name)) [
  | inl e ↦ simp e (
      first_part-free b'-' (split b'.' (last_part (split b'-' name))) (
        split-keeps_free b'-' b'.' (last_part (split b'-' name))
          (last_part-free b'-' (split b'-' name) (split-all_free b'-' name))))
  | inr e ↦ simp e refl
]

-- The mark of the file that a call returns.
flag_of : Result SourceFile → Bool
flag_of (ok x) = flag_free x.type_flag
flag_of (raised e) = true

require-ok :
    (b : Bool) (e : Error) (x y : SourceFile)
    → (do require b e; ok x) ≡ ok y
    → flag_free x.type_flag ≡ true
    → flag_free y.type_flag ≡ true
unfolding flag_of
require-ok true e x y h free = subst (λ r. flag_of r ≡ true) h free
require-ok false e x y h free = ground arith

has_dash :
    (flag : Option String) (t : String)
    → flag_free flag ≡ true
    → free_of b'-' t ≡ false
    → elim flag [ none ↦ false | some f ↦ f == t ] ≡ false
has_dash none t free dash = refl
has_dash (some f) t free dash = elim (Bool-cases (f == t)) [
  | inl e ↦
      let same : f ≡ t = (eq_iff f t).0 e in
      let both : free_of b'-' t ≡ true = subst (λ x. free_of b'-' x ≡ true) same free in
      ground arith
  | inr e ↦ e
]

-- A file that the constructor made never counts as a conformance test by its name, though the
-- marks "is-valid" and "no-valid" are asked for.
pub name_is_conformance-false :
    (tests_root rel_path url_base : String) (contents : Option String) (file : SourceFile)
    → new_source_file tests_root rel_path url_base contents ≡ ok file
    → name_is_conformance file ≡ false
unfolding new_source_file name_is_conformance has_type_flag
name_is_conformance-false tests_root rel_path url_base contents file h =
    let free : flag_free file.type_flag ≡ true =
      require-ok (not (starts_with rel_path "/")) assertion_error _ file h
        (type_flag_of-free (split_ext (split_path rel_path).1).0) in
    let a : has_type_flag file "is-valid" ≡ false = has_dash file.type_flag "is-valid" free refl in
    let b : has_type_flag file "no-valid" ≡ false = has_dash file.type_flag "no-valid" free refl in
    ground (arith, a, b)
