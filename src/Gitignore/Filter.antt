-- ===== src/Gitignore/Filter.antt =====
-- `PathFilter` of tools/gitignore/gitignore.py. Whether a regular expression matches a text at its
-- beginning is a parameter, as is whether it compiles.
pub mod Keeping
pub mod Decision
use wmas.Prelude.{
  ℕ, String, Bool, true, false, not, ◌&&◌, ◌||◌, Option, none, some, List, [], ◌∷◌, ◌++◌, map, ◌==◌,
  if◌then◌else◌, ◌+s◌, any_of, is_some,
}
use wmas.Prelude.Dict.{Dict, get, put}
use wmas.Data.{Error, attribute_error, assertion_error}
use wmas.Exec.{Result, ok, raised, Exec, pure, raise, ◌>>=◌, ◌>>◌}
use wmas.Checked.{require}
use wmas.Gitignore.Patterns.{Rule, Line, LineRule, literal, pattern, parse_line}

pub record Regexps : Type 0 where
  pub compiles : String → Bool
  pub matches : String → String → Bool

-- An entry of `literals_file` or `literals_dir`, which are dictionaries of dictionaries; `exclude`
-- is the list of rules that came later and take the file back.
pub record Literal : Type 0 where
  pub dir_name : Option String
  pub name : String
  pub exclude : List Rule

-- The rules of a `PathFilter`.
pub record Rules : Type 0 where
  pub literals_file : List Literal
  pub literals_dir : List Literal
  pub patterns_file : List (Rule × List Rule)
  pub patterns_dir : List (Rule × List Rule)

abbrev same_dir : Option String → Option String → Bool
same_dir none none = true
same_dir (some a) (some b) = a == b
same_dir _ _ = false

abbrev is_entry : Option String → String → Literal → Bool
is_entry dir name l = same_dir l.dir_name dir && l.name == name

-- `literals[dir_name][pattern] = []`
unfoldable pub put_literal : Option String → String → List Literal → List Literal
put_literal dir name [] = record { dir_name = dir; name = name; exclude = [] } ∷ []
put_literal dir name (l ∷ ls) =
    let rest = put_literal dir name ls in
    if is_entry dir name l then record l { exclude = [] } ∷ ls else l ∷ rest

-- `literals[rule_dir][name]`
unfoldable pub find_literal : Option String → String → List Literal → Option (List Rule)
find_literal dir name [] = none
find_literal dir name (l ∷ ls) =
    let rest = find_literal dir name ls in if is_entry dir name l then some l.exclude else rest

-- `rules[1].append(rule)`, for all entries
abbrev exclude_literals : Rule → List Literal → List Literal
exclude_literals rule ls = map (λ (l : Literal). record l { exclude = l.exclude ++ (rule ∷ []) }) ls

abbrev exclude_patterns : Rule → List (Rule × List Rule) → List (Rule × List Rule)
exclude_patterns rule ps = map (λ (p : Rule × List Rule). (p.0, p.1 ++ (rule ∷ []))) ps

abbrev add_exclusion : Bool → Rule → Rules → Rules
add_exclusion dir_only rule rules = record {
  literals_dir = exclude_literals rule rules.literals_dir;
  patterns_dir = exclude_patterns rule rules.patterns_dir;
  literals_file =
      if dir_only then rules.literals_file else exclude_literals rule rules.literals_file;
  patterns_file =
      if dir_only then rules.patterns_file else exclude_patterns rule rules.patterns_file;
}

abbrev add_literal : Bool → Option String → String → Rules → Rules
add_literal dir_only dir name rules = record rules {
  literals_dir = put_literal dir name rules.literals_dir;
  literals_file =
      if dir_only then rules.literals_file else put_literal dir name rules.literals_file;
}

abbrev add_pattern : Bool → Rule → Rules → Rules
add_pattern dir_only rule rules = record rules {
  patterns_dir = rules.patterns_dir ++ ((rule, []) ∷ []);
  patterns_file =
      if dir_only then rules.patterns_file else rules.patterns_file ++ ((rule, []) ∷ []);
}

-- `_read_line`, behind the parsing
unfoldable pub add_line : Line → Rules → Result Rules
unfolding put_literal
add_line line rules = elim line.rule [
  | literal dir name ↦
      if line.invert then raised assertion_error else ok (add_literal line.dir_only dir name rules)
  | pattern rule ↦ ok (
      if line.invert
      then add_exclusion line.dir_only rule rules
      else add_pattern line.dir_only rule rules)
]

-- `_read_line`
unfoldable pub read_line : Regexps → String → Rules → Result Rules
unfolding parse_line add_line
read_line regexps line rules = elim (parse_line regexps.compiles line) [
  | raised e ↦ raised e
  | ok none ↦ ok rules
  | ok (some parsed) ↦ add_line parsed rules
]

-- `_read_ignore`: the lines of the file, then those of `extras`.
unfoldable pub read_lines : Regexps → List String → Rules → Result Rules
unfolding read_line
read_lines regexps [] rules = ok rules
read_lines regexps (line ∷ lines) rules = elim (read_line regexps line rules) [
  | raised e ↦ raised e
  | ok more ↦ read_lines regexps lines more
]

-- The directories and the files of `filter` are treated alike, with other rules and with a "/"
-- behind the path of a directory.
pub data Kind : Type 0 where
  directory file : Kind

abbrev pub literals_of : Kind → Rules → List Literal
literals_of directory rules = rules.literals_dir
literals_of file rules = rules.literals_file

abbrev pub patterns_of : Kind → Rules → List (Rule × List Rule)
patterns_of directory rules = rules.patterns_dir
patterns_of file rules = rules.patterns_file

abbrev pub path_of : Kind → String → String → String
path_of kind dirpath name =
    (if dirpath == "" then name else dirpath +s "/" +s name)
    +s elim kind [ directory ↦ "/" | file ↦ "" ]

-- `rule.match(name if name_only else path)`
abbrev pub rule_matches : Regexps → String → String → Rule → Bool
rule_matches regexps name path rule =
    regexps.matches rule.regexp (if rule.name_only then name else path)

-- The loop over the literals of no directory and of this one: whether one of them skips the item.
-- `any(rule.match(path) for rule in exclude)` asks a pair for an attribute `match`.
unfoldable pub literal_hit : List (Option String) → String → List Literal → Result Bool
unfolding find_literal
literal_hit [] name literals = ok false
literal_hit (dir ∷ dirs) name literals = elim (find_literal dir name literals) [
  | none ↦ literal_hit dirs name literals
  | some [] ↦ ok true
  | some (rule ∷ rules) ↦ raised attribute_error
]

-- The loop over the patterns.
unfoldable pub pattern_hit : Regexps → String → String → List (Rule × List Rule) → Bool
pattern_hit regexps name path [] = false
pattern_hit regexps name path ((rule, exclude) ∷ patterns) =
    let rest = pattern_hit regexps name path patterns in
    if rule_matches regexps name path rule && not (any_of (rule_matches regexps name path) exclude)
    then true
    else rest

-- The body of the loop over the items, with the cache as the state: whether the item is kept.
unfoldable pub keep_item : Regexps → Rules → Kind → String → String → Exec (Dict Bool) Bool
unfolding literal_hit pattern_hit
keep_item regexps rules kind dirpath name cache =
    let path = path_of kind dirpath name in
    elim (get path cache) [
      | some skipped ↦ (ok (not skipped), cache)
      | none ↦ elim (literal_hit (none ∷ some dirpath ∷ []) name (literals_of kind rules)) [
        | raised e ↦ (raised e, cache)
        | ok true ↦ (ok false, put path true cache)
        | ok false ↦
            let hit = pattern_hit regexps name path (patterns_of kind rules) in
            (ok (not hit), put path hit cache)
      ]
    ]

-- The loop over the items of one kind.
unfoldable pub keep_items :
    Regexps → Rules → Kind → String → List String → Exec (Dict Bool) (List String)
unfolding keep_item
keep_items regexps rules kind dirpath [] = pure []
keep_items regexps rules kind dirpath (name ∷ names) = do
  kept ← keep_item regexps rules kind dirpath name
  rest ← keep_items regexps rules kind dirpath names
  pure (if kept then name ∷ rest else rest)

-- The body of `filter` for one directory, with the names of its directories and files. The assertion
-- behind it looks for a text in a list of pairs, and always holds.
unfoldable pub filter_step :
    Regexps
    → Rules
    → String
    → List String
    → List String
    → Exec (Dict Bool) (List String × List String)
unfolding keep_items
filter_step regexps rules dirpath dirnames filenames = do
  keep_dirs ← keep_items regexps rules directory dirpath dirnames
  keep_files ← keep_items regexps rules file dirpath filenames
  pure (keep_dirs, keep_files)
