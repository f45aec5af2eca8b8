-- ===== src/Gitignore/Filter/Decision.antt =====
-- The decision of `PathFilter` of tools/gitignore/gitignore.py on one item, described without loops.
use wmas.Prelude.{
  String, Bool, true, false, not, ◌&&◌, ◌||◌, Option, none, some, List, [], ◌∷◌, ◌≡◌, refl, ◌∙◌, ap,
  arith, if◌then◌else◌, any_of, All, Bool-cases, inl, inr, if-true, if-false,
}
use wmas.Prelude.Dict.{Dict, get}
use wmas.Exec.{Result, ok, value}
use wmas.Gitignore.Patterns.{Rule}
use wmas.Gitignore.Filter.{
  Regexps, Literal, Rules, Kind, literals_of, patterns_of, path_of, find_literal, is_entry,
  literal_hit, pattern_hit, keep_item, rule_matches,
}
use wmas.Gitignore.Filter.Keeping.{decide_item, keep_item-fresh}

-- No literal was taken back by a later line.
abbrev pub IsOpen : List Literal → Type 0
IsOpen literals = All (λ (l : Literal). l.exclude ≡ []) literals

-- Is the name a literal of this directory or of none?
abbrev pub is_literal : String → String → List Literal → Bool
is_literal dirpath name literals =
    any_of (is_entry none name) literals || any_of (is_entry (some dirpath) name) literals

-- Does a pattern match that no later pattern takes back?
abbrev pub is_matched : Regexps → String → String → List (Rule × List Rule) → Bool
is_matched regexps name path patterns =
    any_of
      (λ (p : Rule × List Rule).
        rule_matches regexps name path p.0 && not (any_of (rule_matches regexps name path) p.1))
      patterns

find_literal-open :
    (dir : Option String) (name : String) (literals : List Literal)
    → IsOpen literals
    → find_literal dir name literals
      ≡ (if any_of (is_entry dir name) literals then some [] else none)
unfolding find_literal any_of
find_literal-open dir name [] h = refl
find_literal-open dir name (l ∷ ls) h = elim (Bool-cases (is_entry dir name l)) [
  | inl e ↦ simp (e, h.0) refl
  | inr e ↦ simp e (find_literal-open dir name ls h.1)
]

literal_hit-open :
    (dirpath name : String) (literals : List Literal)
    → IsOpen literals
    → literal_hit (none ∷ some dirpath ∷ []) name literals ≡ ok (is_literal dirpath name literals)
unfolding literal_hit
literal_hit-open dirpath name literals h =
    let none_lit = find_literal-open none name literals h in
    let dir_lit = find_literal-open (some dirpath) name literals h in
    elim (Bool-cases (any_of (is_entry none name) literals)) [
      | inl e ↦
          rw
            (
              none_lit ∙ if-true (any_of (is_entry none name) literals) (some []) none e,
              e,
              literal_hit,
            )
            refl
      | inr e ↦ elim (Bool-cases (any_of (is_entry (some dirpath) name) literals)) [
        | inl e' ↦
            rw
              (
                none_lit ∙ if-false (any_of (is_entry none name) literals) (some []) none e,
                dir_lit
                    ∙ if-true (any_of (is_entry (some dirpath) name) literals) (some []) none e',
                e,
                e',
                literal_hit,
              )
              refl
        | inr e' ↦
            rw
              (
                none_lit ∙ if-false (any_of (is_entry none name) literals) (some []) none e,
                dir_lit
                    ∙ if-false (any_of (is_entry (some dirpath) name) literals) (some []) none e',
                e,
                e',
                literal_hit,
              )
              refl
      ]
    ]

pattern_hit-any_of :
    (regexps : Regexps) (name path : String) (patterns : List (Rule × List Rule))
    → pattern_hit regexps name path patterns ≡ is_matched regexps name path patterns
unfolding pattern_hit any_of
pattern_hit-any_of regexps name path [] = refl
pattern_hit-any_of regexps name path (p ∷ patterns) =
    ground (arith, pattern_hit-any_of regexps name path patterns)

decide_item-value :
    (regexps : Regexps) (rules : Rules) (kind : Kind) (path name : String) (cache : Dict Bool)
    (listed : Bool)
    → (decide_item regexps rules kind path name cache (ok listed)).0
      ≡ ok (not (listed || is_matched regexps name path (patterns_of kind rules)))
decide_item-value regexps rules kind path name cache true = refl
decide_item-value regexps rules kind path name cache false =
    ap (λ hit. ok (not hit)) (pattern_hit-any_of regexps name path (patterns_of kind rules))

-- For an item whose path is not in the cache, where no later line takes a literal back: the item is
-- kept unless its name is a literal of no directory or of this one, or a pattern matches that no
-- later pattern takes back.
pub keep_item_lem :
    (regexps : Regexps) (rules : Rules) (kind : Kind) (dirpath name : String) (cache : Dict Bool)
    → get (path_of kind dirpath name) cache ≡ none
    → IsOpen (literals_of kind rules)
    → value (keep_item regexps rules kind dirpath name) cache
      ≡ ok (
          not (
            is_literal dirpath name (literals_of kind rules)
            || is_matched regexps name (path_of kind dirpath name) (patterns_of kind rules)))
keep_item_lem regexps rules kind dirpath name cache fresh unexcluded =
    ap (λ (r : Result Bool × Dict Bool). r.0)
      (keep_item-fresh regexps rules kind dirpath name cache fresh)
    ∙ ap (λ found. (decide_item regexps rules kind (path_of kind dirpath name) name cache found).0)
        (literal_hit-open dirpath name (literals_of kind rules) unexcluded)
    ∙ decide_item-value regexps rules kind (path_of kind dirpath name) name cache
        (is_literal dirpath name (literals_of kind rules))
