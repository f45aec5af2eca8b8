-- ===== src/Prelude/Text.antt =====
-- The string methods that the program uses, over the native strings.
use Prim.Native.Nat.{ℕ, suc, ◌+◌}
use Prim.Native.Char.{Char, code}
use Prim.Native.String.{String}
use mathlib.Core.Bool.{Bool, true, false, not, ◌&&◌, ◌||◌}
use mathlib.Core.List.{List, [], ◌∷◌}
use text.Mathlib.Text.{◌==◌}
use wmas.Prelude.Tests.{ltb, leb, eqb, if◌then◌else◌}
use wmas.Prelude.Lists.{keep}

-- The code points of a text.
abbrev pub codes : String → List ℕ
codes String.[] = []
codes (String.◌∷◌ c s) = code c ∷ codes s

-- `s + t`
infixl 65 ◌+s◌
unfoldable pub ◌+s◌ : String → String → String
String.[] +s t = t
(String.◌∷◌ c s) +s t = String.◌∷◌ c (s +s t)

-- `len(s)`
unfoldable pub text_length : String → ℕ
text_length String.[] = 0
text_length (String.◌∷◌ c s) = suc (text_length s)

-- `s.startswith(p)`
unfoldable pub starts_with : String → String → Bool
starts_with s String.[] = true
starts_with String.[] (String.◌∷◌ d p) = false
starts_with (String.◌∷◌ c s) (String.◌∷◌ d p) = eqb (code c) (code d) && starts_with s p

-- `p in s`
unfoldable pub contains_text : String → String → Bool
unfolding starts_with
contains_text p String.[] = p == ""
contains_text p (String.◌∷◌ c s) = starts_with (String.◌∷◌ c s) p || contains_text p s

abbrev pub push_char : Char → List String → List String
push_char c [] = String.◌∷◌ c "" ∷ []
push_char c (w ∷ ws) = String.◌∷◌ c w ∷ ws

-- `s.split(sep)` for a separator of one character, given by its code.
unfoldable pub split : ℕ → String → List String
split sep String.[] = "" ∷ []
split sep (String.◌∷◌ c s) =
    let rest = split sep s in if eqb (code c) sep then "" ∷ rest else push_char c rest

-- The parts of a path that are not empty.
unfoldable pub path_parts : String → List String
unfolding split keep
path_parts s = keep (λ p. not (p == "")) (split b'/' s)

-- `s.replace(c, "")` for one character, given by its code.
unfoldable pub without_char : ℕ → String → String
without_char d String.[] = ""
without_char d (String.◌∷◌ c s) =
    let rest = without_char d s in if eqb (code c) d then rest else String.◌∷◌ c rest

-- `c.lower()` on the code of a character; the letters outside ASCII are left alone.
abbrev lower_code : ℕ → ℕ
lower_code c = if leb b'A' c && leb c b'Z' then c + 32 else c

abbrev lower_codes : List ℕ → List ℕ
lower_codes [] = []
lower_codes (c ∷ cs) = lower_code c ∷ lower_codes cs

-- The codes of `s.lower()`.
unfoldable pub lower : String → List ℕ
lower s = lower_codes (codes s)

-- The order of Python's strings, on the codes.
unfoldable pub codes_le : List ℕ → List ℕ → Bool
codes_le [] ys = true
codes_le (x ∷ xs) [] = false
codes_le (x ∷ xs) (y ∷ ys) = ltb x y || (eqb x y && codes_le xs ys)

unfoldable pub codes_eq : List ℕ → List ℕ → Bool
codes_eq [] [] = true
codes_eq (x ∷ xs) (y ∷ ys) = eqb x y && codes_eq xs ys
codes_eq _ _ = false

-- `x in xs`
unfoldable pub mem_text : String → List String → Bool
mem_text x [] = false
mem_text x (y ∷ ys) = y == x || mem_text x ys

-- How often a text stands in a list.
unfoldable pub count : String → List String → ℕ
count x [] = 0
count x (y ∷ ys) = (if y == x then 1 else 0) + count x ys

-- `xs.remove(x)`: the first occurrence goes.
unfoldable pub remove_first : String → List String → List String
remove_first x [] = []
remove_first x (y ∷ ys) = let rest = remove_first x ys in if y == x then ys else y ∷ rest
