-- ===== src/Gitignore/Patterns.antt =====
-- Lines of a .gitignore file and the regular expressions of their patterns: `fnmatch_translate` and
-- `parse_line` of tools/gitignore/gitignore.py. Whether a regular expression compiles is a parameter.
use Prim.Native.Char.{Char, code}
use wmas.Prelude.{
  ℕ, String, Bool, true, false, not, ◌&&◌, ◌||◌, Option, none, some, List, [], ◌∷◌, ◌++◌, ◌==◌, eqb,
  leb, if◌then◌else◌, ◌+s◌, starts_with, ends_with, drop_text, take_text, text_length, cut_last,
  strip_right, is_byte_space, ◌-◌, contains_text,
}
use wmas.Data.{value_error, index_error}
use wmas.Exec.{Result, ok, raised}
use wmas.Checked.{◌>>=◌, ◌>>◌, require}

-- What `fnmatch_translate` returns; a compiled expression is its text.
pub record Rule : Type 0 where
  pub name_only : Bool
  pub regexp : String

abbrev is_alnum : ℕ → Bool
is_alnum c = leb b'a' c && leb c b'z' || leb b'A' c && leb c b'Z' || leb b'0' c && leb c b'9'

abbrev one : Char → String
one c = String.◌∷◌ c ""

-- `re.escape(c)`, in the parts that it adds to a list of texts
abbrev escape_parts : Char → List String
escape_parts c =
    if is_alnum (code c)
    then one c ∷ []
    else if eqb (code c) 0
    then "\\" ∷ "0" ∷ "0" ∷ "0" ∷ []
    else "\\" ∷ one c ∷ []

abbrev join : List String → String
join [] = ""
join (w ∷ ws) = w +s join ws

abbrev escape : Char → String
escape c = join (escape_parts c)

abbrev any_char : String
any_char = "[^/]"

-- The variables of the loop. `reversed` holds the parts from the last one to the one behind the
-- first; `in_set` says whether `seq` is set, and `prev` is the character before.
pub record Scan : Type 0 where
  pub reversed : List String
  pub in_set : Bool
  pub name_pattern : Bool
  pub prev : Option Char

abbrev push : List String → Char → Scan → Scan
push parts c s = record s { reversed = parts ++ s.reversed; prev = some c }

-- The end of a set: an empty one is taken back.
abbrev close_set : Char → List String → List String
close_set c [] = one c ∷ []
close_set c (p ∷ []) = if p == "[" then [] else one c ∷ p ∷ []
close_set c (p ∷ q ∷ parts) =
    if p == "[" then q ∷ parts else if p == "^" && q == "[" then parts else one c ∷ p ∷ q ∷ parts

abbrev begins_with : ℕ → String → Bool
begins_with d String.[] = false
begins_with d (String.◌∷◌ c s) = eqb (code c) d

abbrev reverse_parts : List String → List String → List String
reverse_parts [] acc = acc
reverse_parts (w ∷ ws) acc = reverse_parts ws (w ∷ acc)

-- A character that is neither escaped nor in a set, and takes no other one with it.
abbrev plain : Char → Scan → Scan
plain c s =
    if eqb (code c) b'*'
    then push ((any_char +s "*") ∷ []) c s
    else if eqb (code c) b'?'
    then push (any_char ∷ []) c s
    else if eqb (code c) b'/'
    then record (push ("/" ∷ []) c s) { name_pattern = false }
    else push (escape c ∷ []) c s

-- A character in a set.
abbrev in_set_char : Char → Scan → Scan
in_set_char c s =
    if eqb (code c) b']'
    then record s { reversed = close_set c s.reversed; in_set = false; prev = some c }
    else if eqb (code c) b'-'
    then push ("-" ∷ []) c s
    else push (reverse_parts (escape_parts c) []) c s

abbrev after_slash : Option Char → Bool
after_slash none = true
after_slash (some c) = eqb (code c) b'/'

-- The loop of `fnmatch_translate`. The first argument says that the character is the second one of
-- a pair: behind a backslash, of "**", or the "!" or "^" of a set.
pub data Pair : Type 0 where
  single escaped starred negated : Pair

unfoldable pub scan : Pair → Scan → String → Result Scan
scan escaped s String.[] = raised value_error
scan starred s String.[] = raised value_error
scan negated s String.[] = raised value_error
scan single s String.[] = ok s
scan escaped s (String.◌∷◌ c rest) = scan single (push (escape c ∷ []) c s) rest
scan negated s (String.◌∷◌ c rest) = scan single (record s { prev = some c }) rest
scan starred s (String.◌∷◌ c rest) = do
  require (rest == "" || begins_with b'/' rest) value_error
  scan single (record s { prev = some c }) rest
scan single s (String.◌∷◌ c rest) =
    let escape_next = scan escaped (record s { prev = some c }) rest in
    let set_char = scan single (in_set_char c s) rest in
    let open_negated = scan negated (record (push ("^" ∷ "[" ∷ []) c s) { in_set = true }) rest in
    let open_set = scan single (record (push ("[" ∷ []) c s) { in_set = true }) rest in
    let star = scan starred (push (".*" ∷ []) c s) rest in
    let other = scan single (plain c s) rest in
    if eqb (code c) b'\\'
    then escape_next
    else if s.in_set
    then set_char
    else if eqb (code c) b'['
    then (if begins_with b'!' rest || begins_with b'^' rest then open_negated else open_set)
    else if eqb (code c) b'*' && begins_with b'*' rest
    then (do require (after_slash s.prev) value_error; star)
    else other

-- `fnmatch_translate`
unfoldable pub fnmatch_translate : (String → Bool) → String → Result Rule
unfolding scan
fnmatch_translate compiles pattern = do
  require (not (pattern == "")) index_error
  let rooted = starts_with pattern "/" in
      let body = if rooted then drop_text 1 pattern else pattern in
      let directory = ends_with body "/" in
      let pat = if directory then take_text (text_length body - 1) body else body in
      (do
        require (not (body == "")) index_error
        s ←
            scan single (record { reversed = []; in_set = false; name_pattern = true; prev = none })
              pat
        require (not s.in_set) value_error
        let first = if s.name_pattern || rooted then "^" else "^(?:.*/)?" in
            let suffix = if directory then "(?:/|$)" else "$" in
            let text = first +s join (reverse_parts s.reversed []) +s suffix in
            (do
              require (compiles text) value_error
              ok (record { name_only = s.name_pattern; regexp = text })))

-- The rule of a line: a literal with its directory, or a pattern.
pub data LineRule : Type 0 where
  literal : (dir_name : Option String) (name : String) → LineRule
  pattern : Rule → LineRule

-- What `parse_line` returns for a line with a rule.
pub record Line : Type 0 where
  pub invert : Bool
  pub dir_only : Bool
  pub rule : LineRule

-- `pattern_re.match(line)`
abbrev has_magic : String → Bool
has_magic line = contains_text "*" line || contains_text "[" line || contains_text "?" line

-- `line.rsplit("/", 1)`
abbrev literal_of : String → LineRule
literal_of line = elim (cut_last b'/' line) [
  | none ↦ literal none line
  | some (dir_name, name) ↦ literal (some dir_name) name
]

-- `parse_line`; `none` is a line with no rule.
unfoldable pub parse_line : (String → Bool) → String → Result (Option Line)
unfolding fnmatch_translate
parse_line compiles given =
    let stripped = strip_right is_byte_space given in
    let invert = starts_with stripped "!" in
    let named = if invert then drop_text 1 stripped else stripped in
    let dir_only = ends_with named "/" in
    let line = if dir_only then take_text (text_length named - 1) named else named in
    if stripped == "" || starts_with stripped "#" then ok none else (do
      require (not (named == "")) index_error
      if not invert && not (has_magic line)
          then ok (some (record { invert = invert; dir_only = dir_only; rule = literal_of line }))
          else (do
            rule ← fnmatch_translate compiles line
            ok (some (record { invert = invert; dir_only = dir_only; rule = pattern rule }))))
