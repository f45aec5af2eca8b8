-- ===== src/Gitignore/Filter/Keeping.antt =====
-- Which items `PathFilter` of tools/gitignore/gitignore.py keeps.
use wmas.Prelude.{
  String, Bool, true, false, not, Option, none, some, List, [], ◌∷◌, ◌++◌, ◌==◌, ◌≡◌, refl, sym,
  ◌∙◌, ap, arith, Option-cases, inl, inr, if-true, eq_refl, subst,
}
use wmas.Prelude.Dict.{Dict, get, put, get-put}
use wmas.Data.{attribute_error}
use wmas.Exec.{Result, ok, raised}
use wmas.Gitignore.Patterns.{Rule, pattern}
use wmas.Gitignore.Filter.{
  Regexps, Literal, Rules, Kind, directory, file, literals_of, patterns_of, path_of, find_literal,
  exclude_literals, add_exclusion, add_line, literal_hit, pattern_hit, keep_item,
}

-- The answer of `keep_item` for a path that is not in the cache.
abbrev pub decide_item :
    Regexps → Rules → Kind → String → String → Dict Bool → Result Bool → Result Bool × Dict Bool
decide_item regexps rules kind path name cache (raised e) = (raised e, cache)
decide_item regexps rules kind path name cache (ok true) = (ok false, put path true cache)
decide_item regexps rules kind path name cache (ok false) =
    let hit = pattern_hit regexps name path (patterns_of kind rules) in
    (ok (not hit), put path hit cache)

keep_item-cached :
    (regexps : Regexps) (rules : Rules) (kind : Kind) (dirpath name : String) (cache : Dict Bool)
    (skipped : Bool)
    → get (path_of kind dirpath name) cache ≡ some skipped
    → keep_item regexps rules kind dirpath name cache ≡ (ok (not skipped), cache)
unfolding keep_item
keep_item-cached regexps rules kind dirpath name cache skipped e = rw (e, keep_item) refl

pub keep_item-fresh :
    (regexps : Regexps) (rules : Rules) (kind : Kind) (dirpath name : String) (cache : Dict Bool)
    → get (path_of kind dirpath name) cache ≡ none
    → keep_item regexps rules kind dirpath name cache
      ≡ decide_item regexps rules kind
          (path_of kind dirpath name)
          name
          cache
          (literal_hit (none ∷ some dirpath ∷ []) name (literals_of kind rules))
unfolding keep_item
keep_item-fresh regexps rules kind dirpath name cache e = rw (e, keep_item) refl

get-put_same : (k : String) (v : Bool) (d : Dict Bool) → get k (put k v d) ≡ some v
get-put_same k v d = get-put k k v d ∙ if-true (k == k) (some v) (get k d) (eq_refl k)

pair-stored :
    (path : String) (cache after : Dict Bool) (v kept : Bool)
    → ◌≡◌ {A = Result Bool × Dict Bool} (ok (not v), put path v cache) (ok kept, after)
    → (skipped : Bool) × (get path after ≡ some skipped) × (kept ≡ not skipped)
pair-stored path cache after v kept h =
    let answer : ok (not v) ≡ ok kept = ap (λ (r : Result Bool × Dict Bool). r.0) h in
    let stored : put path v cache ≡ after = ap (λ (r : Result Bool × Dict Bool). r.1) h in
    (v, sym (ap (get path) stored) ∙ get-put_same path v cache, ground arith)

decide_item-stored :
    (regexps : Regexps) (rules : Rules) (kind : Kind) (path name : String) (cache after : Dict Bool)
    (found : Result Bool) (kept : Bool)
    → ◌≡◌ {A = Result Bool × Dict Bool}
        (decide_item regexps rules kind path name cache found)
        (ok kept, after)
    → (skipped : Bool) × (get path after ≡ some skipped) × (kept ≡ not skipped)
decide_item-stored regexps rules kind path name cache after (raised e) kept h = ground arith
decide_item-stored regexps rules kind path name cache after (ok true) kept h =
    pair-stored path cache after true kept h
decide_item-stored regexps rules kind path name cache after (ok false) kept h =
    pair-stored path cache after (pattern_hit regexps name path (patterns_of kind rules)) kept h

cached-stored :
    (path : String) (cache after : Dict Bool) (skipped kept : Bool)
    → get path cache ≡ some skipped
    → ◌≡◌ {A = Result Bool × Dict Bool} (ok (not skipped), cache) (ok kept, after)
    → (v : Bool) × (get path after ≡ some v) × (kept ≡ not v)
cached-stored path cache after skipped kept e h =
    let answer : ok (not skipped) ≡ ok kept = ap (λ (r : Result Bool × Dict Bool). r.0) h in
    let same : cache ≡ after = ap (λ (r : Result Bool × Dict Bool). r.1) h in
    (skipped, sym (ap (get path) same) ∙ e, ground arith)

keep_item-stored :
    (regexps : Regexps) (rules : Rules) (kind : Kind) (dirpath name : String)
    (cache after : Dict Bool) (kept : Bool)
    → keep_item regexps rules kind dirpath name cache ≡ (ok kept, after)
    → (skipped : Bool) × (get (path_of kind dirpath name) after ≡ some skipped)
      × (kept ≡ not skipped)
keep_item-stored regexps rules kind dirpath name cache after kept h =
    let path = path_of kind dirpath name in
    elim (Option-cases (get path cache)) [
      | inl e ↦
          decide_item-stored regexps rules kind path name cache after
            (literal_hit (none ∷ some dirpath ∷ []) name (literals_of kind rules)) kept
            (sym (keep_item-fresh regexps rules kind dirpath name cache e) ∙ h)
      | inr (skipped, e) ↦
          cached-stored path cache after skipped kept e
            (sym (keep_item-cached regexps rules kind dirpath name cache skipped e) ∙ h)
    ]

-- Once an item is kept or skipped, the same question gets the same answer from the cache, which
-- stays as it is, whatever the rules are by then.
pub keep_item-again :
    (regexps later : Regexps) (rules others : Rules) (kind : Kind) (dirpath name : String)
    (cache after : Dict Bool) (kept : Bool)
    → keep_item regexps rules kind dirpath name cache ≡ (ok kept, after)
    → keep_item later others kind dirpath name after ≡ (ok kept, after)
keep_item-again regexps later rules others kind dirpath name cache after kept h =
    let (skipped, stored, answer) =
      keep_item-stored regexps rules kind dirpath name cache after kept h in
    keep_item-cached later others kind dirpath name after skipped stored
    ∙ ap (λ b. (ok b, after)) (sym answer)

find_literal-exclude :
    (dir : Option String) (name : String) (rule : Rule) (ls : List Literal) (exclude : List Rule)
    → find_literal dir name ls ≡ some exclude
    → find_literal dir name (exclude_literals rule ls) ≡ some (exclude ++ (rule ∷ []))
unfolding find_literal
find_literal-exclude dir name rule [] exclude h = ground arith
find_literal-exclude dir name rule (l ∷ ls) exclude h =
    ground (arith, find_literal-exclude dir name rule ls exclude)

literal_hit-excluded :
    (dirs : List (Option String)) (name : String) (literals : List Literal) (exclude : List Rule)
    (rule : Rule)
    → find_literal none name literals ≡ some (exclude ++ (rule ∷ []))
    → literal_hit (none ∷ dirs) name literals ≡ raised attribute_error
unfolding literal_hit
literal_hit-excluded dirs name literals [] rule h = rw (h, literal_hit) refl
literal_hit-excluded dirs name literals (r ∷ exclude) rule h = rw (h, literal_hit) refl

literals_of-exclude :
    (kind : Kind) (name : String) (rule : Rule) (rules : Rules) (exclude : List Rule)
    → find_literal none name (literals_of kind rules) ≡ some exclude
    → find_literal none name (literals_of kind (add_exclusion false rule rules))
      ≡ some (exclude ++ (rule ∷ []))
literals_of-exclude directory name rule rules exclude h =
    find_literal-exclude none name rule rules.literals_dir exclude h
literals_of-exclude file name rule rules exclude h =
    find_literal-exclude none name rule rules.literals_file exclude h

-- The literals of the rules that a line leaves.
abbrev IsHit : String → String → Kind → Result Rules → Type 0
IsHit dirpath name kind (ok rules) =
    literal_hit (none ∷ some dirpath ∷ []) name (literals_of kind rules) ≡ raised attribute_error
IsHit dirpath name kind (raised e) = Unit

kept-IsHit :
    (dirpath name : String) (kind : Kind) (left : Result Rules) (more : Rules)
    → left ≡ ok more
    → IsHit dirpath name kind left
    → IsHit dirpath name kind (ok more)
kept-IsHit dirpath name kind left more e hit = subst (IsHit dirpath name kind) e hit

-- Let a name stand among the literals without a directory, for files or for directories, and let a
-- line with "!" follow that is not for directories only. Then filter fails with an AttributeError
-- at every item of this name whose path is not in the cache.
pub keep_item-excluded :
    (regexps : Regexps) (rules more : Rules) (kind : Kind) (rule : Rule) (dirpath name : String)
    (cache : Dict Bool) (exclude : List Rule)
    → find_literal none name (literals_of kind rules) ≡ some exclude
    → add_line (record { invert = true; dir_only = false; rule = pattern rule }) rules ≡ ok more
    → get (path_of kind dirpath name) cache ≡ none
    → keep_item regexps more kind dirpath name cache ≡ (raised attribute_error, cache)
unfolding add_line
keep_item-excluded regexps rules more kind rule dirpath name cache exclude found added fresh =
    keep_item-fresh regexps more kind dirpath name cache fresh
    ∙ ap (decide_item regexps more kind (path_of kind dirpath name) name cache) (
        kept-IsHit dirpath name kind (ok (add_exclusion false rule rules)) more added (
          literal_hit-excluded (some dirpath ∷ []) name _ exclude rule
            (literals_of-exclude kind name rule rules exclude found)))
