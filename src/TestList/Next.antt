-- ===== src/TestList/Next.antt =====
-- The order of execution: what `_get_next_test_from_list` of
-- tools/wave/testing/tests_manager.py returns.
use mathlib.Core.Path.{fun_ext}
use mathlib.Core.List.{append-nil}
use wmas.Prelude.{
  ℕ, suc, ◌≤◌, String, Bool, true, false, not, ◌&&◌, ◌||◌, Option, none, some, List, [], ◌∷◌, ◌++◌,
  arith, ◌≡◌, refl, ap, ◌∙◌, eqb, length, get_elem?, drop, get_elem?_of_drop, get_elem?_of_drop_nil,
  drop-suc, length_of_drop, keep, find_first, Bool-cases, inl, inr,
}
use wmas.Data.{TestList}
use wmas.TestList.{
  first, is_manual, is_https, is_accepted, scan, row_rounds, pass_rounds, scan_fuel,
  next_test_from_list, sorted_rows, sort_tests,
}

module _ {ℓ} {A : Type ℓ} where
  -- The first value, or else the second.
  or_next : Option A → Option A → Option A
  or_next none o = o
  or_next (some x) o = some x

  or_next_congr : (o a b : Option A) → (o ≡ none → a ≡ b) → or_next o a ≡ or_next o b
  unfolding or_next
  or_next_congr none a b h = h refl
  or_next_congr (some x) a b h = refl

  first-append : (xs ys : List A) → first (xs ++ ys) ≡ or_next (first xs) (first ys)
  unfolding or_next
  first-append [] ys = refl
  first-append (x ∷ xs) ys = refl

  find_first-append :
      (p : A → Bool) (xs ys : List A)
      → find_first p (xs ++ ys) ≡ or_next (find_first p xs) (find_first p ys)
  unfolding find_first or_next
  find_first-append p [] ys = refl
  find_first-append p (x ∷ xs) ys = ground (arith, find_first-append p xs ys)

  find_first-eq-first-keep : (p : A → Bool) (xs : List A) → find_first p xs ≡ first (keep p xs)
  unfolding find_first keep
  find_first-eq-first-keep p [] = refl
  find_first-eq-first-keep p (x ∷ xs) = ground (arith, find_first-eq-first-keep p xs)

  find_first-or :
      (q r : A → Bool) (xs : List A)
      → find_first q xs ≡ none
      → find_first (λ x. q x || r x) xs ≡ find_first r xs
  unfolding find_first
  find_first-or q r [] h = refl
  find_first-or q r (x ∷ xs) h = ground (arith, find_first-or q r xs)

abbrev pub concat : List (List String) → List String
concat [] = []
concat (row ∷ rows) = row ++ concat rows

-- The four classes of tests, in the order in which they are run.
abbrev manual_http : String → Bool
manual_http test = is_manual test && not (is_https test)

abbrev manual_https : String → Bool
manual_https test = is_manual test && is_https test

abbrev automatic_http : String → Bool
automatic_http test = not (is_manual test) && not (is_https test)

abbrev automatic_https : String → Bool
automatic_https test = not (is_manual test) && is_https test

-- Manual tests stand before automatic ones, and of each kind those over HTTP before those over
-- HTTPS; in a class the tests keep their order.
abbrev pub in_order : List String → List String
in_order tests =
    keep manual_http tests
    ++ (keep manual_https tests ++ (keep automatic_http tests ++ keep automatic_https tests))

first_of_four :
    (xs : List String)
    → first (in_order xs)
      ≡ or_next (find_first manual_http xs) (
          or_next
            (find_first manual_https xs)
            (or_next (find_first automatic_http xs) (find_first automatic_https xs)))
first_of_four xs = simp (find_first-eq-first-keep, first-append)

-- What the passes accept, by classes.
accepts_first : is_accepted true true ≡ manual_http
unfolding is_accepted
accepts_first = fun_ext (λ t. ground arith)

accepts_second : is_accepted false true ≡ (λ t. manual_http t || manual_https t)
unfolding is_accepted
accepts_second = fun_ext (λ t. ground arith)

accepts_third : is_accepted true false ≡ (λ t. manual_http t || automatic_http t)
unfolding is_accepted
accepts_third = fun_ext (λ t. ground arith)

accepts_fourth :
    is_accepted false false
    ≡ (λ t. manual_http t || (manual_https t || (automatic_http t || automatic_https t)))
unfolding is_accepted
accepts_fourth = fun_ext (λ t. ground arith)

four_passes :
    (xs : List String)
    → or_next (find_first (is_accepted true true) xs) (
        or_next (find_first (is_accepted false true) xs) (
          or_next
            (find_first (is_accepted true false) xs)
            (find_first (is_accepted false false) xs)))
      ≡ first (in_order xs)
four_passes xs =
    rw (accepts_first, accepts_second, accepts_third, accepts_fourth, first_of_four xs)
      (or_next_congr _ _ _ λ none₁.
        rw
          (
            find_first-or manual_http manual_https xs none₁,
            find_first-or manual_http automatic_http xs none₁,
            find_first-or manual_http
                (λ t. manual_https t || (automatic_http t || automatic_https t)) xs none₁,
          )
          (or_next_congr _ _ _ λ none₂.
            rw (find_first-or manual_https (λ t. automatic_http t || automatic_https t) xs none₂)
              (or_next_congr _ _ _ λ none₃. find_first-or automatic_http automatic_https xs none₃)))

-- What the loop returns when it finds a test, and goes on with when it does not.
found_or : Option String → Option (Option String) → Option (Option String)
found_or (some t) rest = some (some t)
found_or none rest = rest

found_or-or_next :
    (a b : Option String) (rest : Option (Option String))
    → found_or (or_next a b) rest ≡ found_or a (found_or b rest)
unfolding found_or or_next
found_or-or_next none b rest = refl
found_or-or_next (some x) b rest = refl

found_or_four :
    (a b c d : Option String)
    → found_or a (found_or b (found_or c (found_or d (some none))))
      ≡ some (or_next a (or_next b (or_next c d)))
unfolding found_or or_next
found_or_four a b c d = ground arith

eqb-suc : (a n : ℕ) → n ≡ suc a → eqb (suc a) n ≡ true
eqb-suc a n h = ground arith

eqb-suc_ne : (a n : ℕ) → suc (suc a) ≤ n → eqb (suc a) n ≡ false
eqb-suc_ne a n h = ground arith

module _ (rows : List (List String)) where
  abbrev next_pass : Bool → Bool → ℕ → Option (Option String)
  next_pass has_http has_manual k = elim has_http [
    | true ↦ scan rows k false has_manual 0 0
    | false ↦ elim has_manual [ true ↦ scan rows k true false 0 0 | false ↦ some none ]
  ]

  next_row : Bool → Bool → ℕ → ℕ → Option (Option String)
  next_row has_http has_manual current_api k = elim (eqb (suc current_api) (length rows)) [
    | false ↦ scan rows k has_http has_manual (suc current_api) 0
    | true ↦ next_pass has_http has_manual k
  ]

  next_row_last :
      (hh hm : Bool) (ca k : ℕ) → length rows ≡ suc ca → next_row hh hm ca k ≡ next_pass hh hm k
  unfolding next_row
  next_row_last hh hm ca k h = rw (eqb-suc ca (length rows) h, next_row) refl

  next_row_more :
      (hh hm : Bool) (ca k : ℕ)
      → suc (suc ca) ≤ length rows
      → next_row hh hm ca k ≡ scan rows k hh hm (suc ca) 0
  unfolding next_row
  next_row_more hh hm ca k h = rw (eqb-suc_ne ca (length rows) h, next_row) refl

  scan_row :
      (hh hm : Bool) (ca ct k : ℕ) (row suf : List String)
      → get_elem? rows ca ≡ some row
      → drop ct row ≡ suf
      → scan rows (row_rounds suf (suc k)) hh hm ca ct
        ≡ found_or (find_first (is_accepted hh hm) suf) (next_row hh hm ca k)
  unfolding scan find_first found_or next_row
  scan_row hh hm ca ct k row [] at_row rest =
      rw (at_row, scan) (rw (get_elem?_of_drop_nil ct row rest) refl)
  scan_row hh hm ca ct k row (t ∷ suf) at_row rest =
      rw (at_row, scan)
        (rw (get_elem?_of_drop ct row suf t rest) (elim (Bool-cases (is_accepted hh hm t)) [
          | inl e ↦ rw e refl
          | inr e ↦ rw e (scan_row hh hm ca (suc ct) k row suf at_row (drop-suc ct row suf t rest))
        ]))

  scan_rows :
      (hh hm : Bool) (ca k : ℕ) (row : List String) (rest : List (List String))
      → drop ca rows ≡ row ∷ rest
      → scan rows (pass_rounds (row ∷ rest) k) hh hm ca 0
        ≡ found_or (find_first (is_accepted hh hm) (concat (row ∷ rest))) (next_pass hh hm k)
  scan_rows hh hm ca k row [] h = rw (
    append-nil,
    scan_row hh hm ca 0 k row row (get_elem?_of_drop ca rows [] row h) refl,
    next_row_last hh hm ca k (omega (arith, length_of_drop ca rows [] row h)),
  )
  scan_rows hh hm ca k row (row' ∷ rest) h = rw (
    find_first-append,
    found_or-or_next,
    scan_row hh hm ca 0 (pass_rounds (row' ∷ rest) k) row row
        (get_elem?_of_drop ca rows (row' ∷ rest) row h) refl,
    next_row_more hh hm ca _ (omega (arith, length_of_drop ca rows (row' ∷ rest) row h)),
    scan_rows hh hm (suc ca) k row' rest (drop-suc ca rows (row' ∷ rest) row h),
  )

scan_eq :
    (rows : List (List String))
    → scan rows (scan_fuel rows) true true 0 0 ≡ some (first (in_order (concat rows)))
scan_eq [] = unfold scan keep in refl
scan_eq (row ∷ rest) =
    let rows = row ∷ rest in
    rw
      (
        scan_rows rows true true 0 _ row rest refl,
        scan_rows rows false true 0 _ row rest refl,
        scan_rows rows true false 0 _ row rest refl,
        scan_rows rows false false 0 _ row rest refl,
      )
      (found_or_four _ _ _ _ ∙ ap some (four_passes (concat rows)))

-- The loop ends, and returns the first test in the order of execution: of the tests, row by row in
-- the order of the APIs and sorted in each row, the first manual one over HTTP, or else the first
-- manual one over HTTPS, or else the first automatic one over HTTP, or else the first
-- automatic one over HTTPS, or else nothing.
pub next_test_from_list-in_order :
    (tests : TestList)
    → next_test_from_list tests ≡ some (first (in_order (concat (sorted_rows (sort_tests tests)))))
unfolding next_test_from_list
next_test_from_list-in_order tests = scan_eq (sorted_rows (sort_tests tests))
