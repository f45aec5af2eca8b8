-- ===== src/Examples/Ignoring.antt =====
-- Rules of a .gitignore file and the items that they skip.
use wmas.Prelude.{
  String, Bool, true, false, not, ◌||◌, ◌&&◌, none, some, List, [], ◌∷◌, ◌≡◌, ◌==◌, refl,
}
use wmas.Prelude.Dict.{get}
use wmas.Data.{attribute_error, index_error}
use wmas.Exec.{ok, raised, value}
use wmas.Gitignore.Patterns.{Rule, fnmatch_translate, parse_line}
use wmas.Gitignore.Filter.{
  Regexps, Rules, Kind, directory, file, read_lines, keep_item, keep_items, path_of, literals_of,
  patterns_of,
}
use wmas.Gitignore.Filter.Keeping.{keep_item-again, keep_item-excluded}
use wmas.Gitignore.Filter.Decision.{is_literal, is_matched, keep_item_lem}

-- Every expression compiles, and one of them matches one name.
abbrev regexps : Regexps
regexps = record {
  compiles = λ text. true;
  matches = λ regexp name. regexp == "^[^/]*\\.pyc$" && name == "a.pyc";
}

abbrev no_rules : Rules
no_rules = record { literals_file = []; literals_dir = []; patterns_file = []; patterns_dir = [] }

translate_suffix :
    fnmatch_translate (λ text. true) "*.pyc"
    ≡ ok (record { name_only = true; regexp = "^[^/]*\\.pyc$" })
unfolding fnmatch_translate wmas.Prelude.starts_with wmas.Prelude.ends_with wmas.Prelude.◌+s◌
translate_suffix = refl

translate_set :
    fnmatch_translate (λ text. true) "/a/[!b]/"
    ≡ ok (record { name_only = false; regexp = "^a/[^b](?:/|$)" })
unfolding fnmatch_translate wmas.Prelude.starts_with wmas.Prelude.drop_text wmas.Prelude.ends_with
    wmas.Prelude.take_text wmas.Prelude.text_length wmas.Prelude.◌+s◌
translate_set = refl

lone_mark : parse_line (λ text. true) "!" ≡ raised index_error
unfolding parse_line wmas.Prelude.strip_right wmas.Prelude.starts_with wmas.Prelude.drop_text
lone_mark = refl

abbrev star_rule : Rule
star_rule = record { name_only = true; regexp = "^[^/]*\\.pyc$" }

-- "*.pyc" and "build/"
abbrev rules : Rules
rules = record {
  literals_file = [];
  literals_dir = record { dir_name = none; name = "build"; exclude = [] } ∷ [];
  patterns_file = (star_rule, []) ∷ [];
  patterns_dir = (star_rule, []) ∷ [];
}

rules_read : read_lines regexps ("*.pyc\n" ∷ "# built\n" ∷ "build/\n" ∷ []) no_rules ≡ ok rules
unfolding read_lines wmas.Prelude.strip_right wmas.Prelude.starts_with wmas.Prelude.contains_text
    wmas.Prelude.ends_with wmas.Prelude.take_text wmas.Prelude.text_length wmas.Prelude.cut_last
    wmas.Prelude.◌+s◌
rules_read = refl

keep_item_lem_example :
    value (keep_item regexps rules file "src" "a.pyc") []
    ≡ ok (
        not (
          is_literal "src" "a.pyc" (literals_of file rules)
          || is_matched regexps "a.pyc" (path_of file "src" "a.pyc") (patterns_of file rules)))
unfolding get
keep_item_lem_example = keep_item_lem regexps rules file "src" "a.pyc" [] refl tt

kept_files :
    value (keep_items regexps rules file "src" ("a.py" ∷ "a.pyc" ∷ [])) [] ≡ ok ("a.py" ∷ [])
unfolding keep_items get wmas.Prelude.Dict.put wmas.Prelude.◌+s◌ wmas.Prelude.any_of
kept_files = refl

keep_item-again_example :
    keep_item regexps no_rules directory "" "build" (("build/", true) ∷ [])
    ≡ (ok false, ("build/", true) ∷ [])
unfolding keep_item get wmas.Prelude.Dict.put wmas.Prelude.◌+s◌
keep_item-again_example =
    keep_item-again regexps regexps rules no_rules directory "" "build" [] (("build/", true) ∷ [])
      false refl

-- "!*.pyc" behind the rules
abbrev taken_back : Rules
taken_back = record {
  literals_file = [];
  literals_dir = record { dir_name = none; name = "build"; exclude = star_rule ∷ [] } ∷ [];
  patterns_file = (star_rule, star_rule ∷ []) ∷ [];
  patterns_dir = (star_rule, star_rule ∷ []) ∷ [];
}

keep_item-excluded_example :
    keep_item regexps taken_back directory "" "build" [] ≡ (raised attribute_error, [])
unfolding wmas.Gitignore.Filter.find_literal wmas.Gitignore.Filter.add_line get
keep_item-excluded_example =
    keep_item-excluded regexps rules taken_back directory star_rule "" "build" [] [] refl refl refl
