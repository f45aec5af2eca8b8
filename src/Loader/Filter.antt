-- ===== src/Loader/Filter.antt =====
-- What `get_tests` of tools/wave/testing/test_loader.py selects.
use wmas.Prelude.{
  ℕ, ◌+◌, String, Bool, true, none, some, List, [], ◌∷◌, ◌++◌, ◌≡◌, refl, arith, ◌==◌, count,
  if◌then◌else◌, Bool-cases, inl, inr, eq_iff, ◌⊎◌, is_some, All, any_of, or_else, length, false,
  ◌||◌, ◌&&◌, not, Option, eqb,
}
use wmas.Data.{TestList}
use wmas.Exec.{ok}
use wmas.TestList.{all_tests, tests_of}
use wmas.TestList.Moves.{count-append, count-put, count-one}
use wmas.Loader.{
  is_valid_test, matches_any, append_test, select_tests, select_apis, select_types,
  passes_reference,
}

List-cases : (l : List String) → (l ≡ []) ⊎ ((x : String) × (rest : List String) × (l ≡ x ∷ rest))
List-cases [] = inl refl
List-cases (x ∷ l) = inr (x, l, refl)

-- Every expression of the list compiles.
abbrev pub AllCompile : ((pattern text : String) → Option Bool) → List String → Type 0
AllCompile re_match patterns =
    All (λ (p : String). (text : String) → is_some (re_match p text) ≡ true) patterns

-- Does an expression of the list match?
abbrev pub matched : ((pattern text : String) → Option Bool) → List String → String → Bool
matched re_match patterns test = any_of (λ p. or_else (re_match p test) false) patterns

matches_any_lem :
    (re_match : (pattern text : String) → Option Bool) (patterns : List String) (test : String)
    → AllCompile re_match patterns
    → matches_any re_match patterns test ≡ ok (matched re_match patterns test)
unfolding matches_any any_of
matches_any_lem re_match [] test all = refl
matches_any_lem re_match (p ∷ patterns) test all =
    ground (arith, all.0 test, matches_any_lem re_match patterns test all.1)

module _ (re_match : (pattern text : String) → Option Bool)
    (include_list exclude_list : List String) where
  -- A test stays in the selection if the include list is empty or one of its expressions matches,
  -- and none of the exclude list does.
  abbrev pub selected : String → Bool
  selected test =
      (eqb (length include_list) 0 || matched re_match include_list test)
      && not (matched re_match exclude_list test)

  pub is_valid_test_lem :
      (test : String)
      → AllCompile re_match include_list
      → AllCompile re_match exclude_list
      → is_valid_test re_match test (some exclude_list) (some include_list) ≡ ok (selected test)
  unfolding is_valid_test
  is_valid_test_lem test inc exc = ground (
    arith,
    List-cases include_list,
    matches_any_lem re_match include_list test inc,
    matches_any_lem re_match exclude_list test exc,
  )

  count-append_test :
      (u api test : String) (d : TestList)
      → count u (all_tests (append_test re_match api test d))
        ≡ count u (all_tests d) + (if test == u then 1 else 0)
  unfolding append_test count
  count-append_test u api test d = ground (
    arith,
    count-put u api (tests_of api d ++ test ∷ []) d,
    count-append u (tests_of api d) (test ∷ []),
    count-one u test,
  )

  -- How often the types name a test: an unknown type names none.
  abbrev pub named : String → (automatic manual : TestList) (types : List String) → ℕ
  named u automatic manual [] = 0
  named u automatic manual (type ∷ types) =
      (if type == "automatic"
        then count u (all_tests automatic)
        else if type == "manual"
        then count u (all_tests manual)
        else 0)
      + named u automatic manual types

  module _
      (valid : (test : String)
        → is_valid_test re_match test (some exclude_list) (some include_list)
          ≡ ok (selected test)) where
    -- How often a test is selected from the tests of an API.
    select_tests_lem :
        (u api : String) (tests : List String) (loaded : TestList)
        → (result : TestList) × (select_tests re_match include_list exclude_list none api tests
              loaded
            ≡ ok result)
          × (count u (all_tests result)
              ≡ count u (all_tests loaded) + (if selected u then count u tests else 0))
    unfolding select_tests passes_reference count
    select_tests_lem u api [] loaded = (loaded, refl, ground arith)
    select_tests_lem u api (test ∷ tests) loaded = elim (Bool-cases (selected test)) [
      | inl e ↦
          (let more = select_tests_lem u api tests (append_test re_match api test loaded) in
            (
              more.0,
              ground (arith, valid test, e, more.1),
              ground (arith, e, eq_iff test u, count-append_test u api test loaded, more.2),
            ))
      | inr e ↦
          (let more = select_tests_lem u api tests loaded in
            (
              more.0,
              ground (arith, valid test, e, more.1),
              ground (arith, e, eq_iff test u, more.2),
            ))
    ]

    select_apis_lem :
        (u : String) (tests loaded : TestList)
        → (result : TestList) × (select_apis re_match include_list exclude_list none tests loaded
            ≡ ok result)
          × (count u (all_tests result)
              ≡ count u (all_tests loaded) + (if selected u then count u (all_tests tests) else 0))
    unfolding select_apis count
    select_apis_lem u [] loaded = (loaded, refl, ground arith)
    select_apis_lem u ((api, tests) ∷ d) loaded =
        let one = select_tests_lem u api tests loaded in
        let more = select_apis_lem u d one.0 in
        (
          more.0,
          ground (arith, one.1, more.1),
          ground (arith, one.2, more.2, count-append u tests (all_tests d)),
        )

    pub select_types_lem :
        (u : String) (automatic manual : TestList) (types : List String) (loaded : TestList)
        → (result : TestList) × (select_types re_match automatic manual types include_list
              exclude_list none loaded
            ≡ ok result)
          × (count u (all_tests result)
              ≡ count u (all_tests loaded)
                + (if selected u then named u automatic manual types else 0))
    unfolding select_types count
    select_types_lem u automatic manual [] loaded = (loaded, refl, ground arith)
    select_types_lem u automatic manual (type ∷ types) loaded =
        let tests =
          if type == "automatic" then automatic else if type == "manual" then manual else [] in
        let one = select_apis_lem u tests loaded in
        let more = select_types_lem u automatic manual types one.0 in
        (more.0, ground (arith, one.1, more.1), ground (arith, one.2, more.2))
