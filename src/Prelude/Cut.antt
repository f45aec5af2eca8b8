-- ===== src/Prelude/Cut.antt =====
-- The string methods that cut a text: ends, positions, replacement and white space.
use Prim.Native.Nat.{ℕ, zero, suc, ◌-◌}
use Prim.Native.Char.{code}
use Prim.Native.String.{String}
use mathlib.Core.Bool.{Bool, not, ◌&&◌, ◌||◌}
use mathlib.Core.List.{List, [], ◌∷◌, ◌++◌}
use mathlib.Core.Option.{Option, none, some}
use text.Mathlib.Text.{◌==◌}
use wmas.Prelude.Tests.{leb, eqb, if◌then◌else◌}
use wmas.Prelude.Lists.{keep}
use wmas.Prelude.Text.{◌+s◌, text_length, starts_with, mem_text, push_char}

-- `s.endswith(p)`
unfoldable pub ends_with : String → String → Bool
ends_with String.[] p = p == ""
ends_with (String.◌∷◌ c s) p = String.◌∷◌ c s == p || ends_with s p

-- `s[n:]`
unfoldable pub drop_text : ℕ → String → String
drop_text zero s = s
drop_text (suc n) String.[] = ""
drop_text (suc n) (String.◌∷◌ c s) = drop_text n s

-- `s[:n]`
unfoldable pub take_text : ℕ → String → String
take_text zero s = ""
take_text (suc n) String.[] = ""
take_text (suc n) (String.◌∷◌ c s) = String.◌∷◌ c (take_text n s)

-- `s.replace(old, new)` for an `old` that is not empty. The first argument counts the characters
-- of an occurrence that are still to be passed over.
abbrev replace_from : ℕ → String → String → String → String
replace_from skip old new String.[] = ""
replace_from (suc skip) old new (String.◌∷◌ c s) = replace_from skip old new s
replace_from zero old new (String.◌∷◌ c s) =
    let found = new +s replace_from (text_length old - 1) old new s in
    let kept = String.◌∷◌ c (replace_from zero old new s) in
    if starts_with (String.◌∷◌ c s) old then found else kept

unfoldable pub replace_text : String → String → String → String
replace_text s old new = replace_from zero old new s

-- What stands before the last occurrence of a character, and what stands behind it.
unfoldable pub cut_last : ℕ → String → Option (String × String)
cut_last sep String.[] = none
cut_last sep (String.◌∷◌ c s) = elim (cut_last sep s) [
  | some (a, b) ↦ some (String.◌∷◌ c a, b)
  | none ↦ if eqb (code c) sep then some ("", s) else none
]

-- `s.lstrip(...)` and `s.rstrip(...)`, for the characters whose codes pass the test.
unfoldable pub strip_left : (ℕ → Bool) → String → String
strip_left test String.[] = ""
strip_left test (String.◌∷◌ c s) =
    let rest = strip_left test s in if test (code c) then rest else String.◌∷◌ c s

unfoldable pub strip_right : (ℕ → Bool) → String → String
strip_right test String.[] = ""
strip_right test (String.◌∷◌ c s) =
    let rest = strip_right test s in if rest == "" && test (code c) then "" else String.◌∷◌ c rest

unfoldable pub strip : (ℕ → Bool) → String → String
strip test s = strip_right test (strip_left test s)

-- `s.split()`
abbrev split_where : (ℕ → Bool) → String → List String
split_where test String.[] = "" ∷ []
split_where test (String.◌∷◌ c s) =
    let rest = split_where test s in if test (code c) then "" ∷ rest else push_char c rest

unfoldable pub words : (ℕ → Bool) → String → List String
words test s = keep (λ w. not (w == "")) (split_where test s)

-- White space among the ASCII characters, for a text of bytes.
abbrev pub is_byte_space : ℕ → Bool
is_byte_space c = leb 9 c && leb c 13 || eqb c 32

-- White space among all characters.
abbrev pub is_text_space : ℕ → Bool
is_text_space c =
    leb 9 c && leb c 13
    || leb 28 c && leb c 32
    || eqb c 133
    || eqb c 160
    || eqb c 5760
    || eqb c 6158
    || leb 8192 c && leb c 8202
    || eqb c 8232
    || eqb c 8233
    || eqb c 8239
    || eqb c 8287
    || eqb c 12288

-- `xs | {x}` of a set, as a list in which no text stands twice.
unfoldable pub add_text : String → List String → List String
add_text x xs = if mem_text x xs then xs else xs ++ (x ∷ [])

-- `xs | ys`
unfoldable pub union_texts : List String → List String → List String
union_texts xs [] = xs
union_texts xs (y ∷ ys) = union_texts (add_text y xs) ys

-- `xs - ys`
unfoldable pub minus_texts : List String → List String → List String
minus_texts xs ys = keep (λ x. not (mem_text x ys)) xs
