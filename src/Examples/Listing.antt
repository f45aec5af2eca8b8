-- ===== src/Examples/Listing.antt =====
-- Lists of tests, results and their counts.
use wmas.Prelude.{
  ℕ, ◌+◌, String, Bool, true, false, Option, none, some, List, [], ◌∷◌, ◌≡◌, refl, count, mem_text,
  path_parts, sort_by, starts_with,
}
use wmas.Prelude.Dict.{get, put, has}
use wmas.Data.{Results, TestResult, name}
use wmas.TestList.{
  api_of, sort_tests, sorted_rows, next_test_from_list, first, after_first, sort_tests_by_execution,
  scan, is_manual, is_https, is_accepted, test_le, api_le,
}
use wmas.TestList.Next.{concat, in_order, next_test_from_list-in_order}
use wmas.Results.{combine_results_by_api, parse_test_state}
use wmas.Results.Merging.{merged, get-combine_results_by_api}
use wmas.Results.Counting.{recount, parse_test_state-complete}
use wmas.Examples.Sample.{css_a, css_b, dom_x, pending_tests, posted}

next_test_from_list-in_order_example :
    next_test_from_list pending_tests
    ≡ some (first (in_order (concat (sorted_rows (sort_tests pending_tests)))))
next_test_from_list-in_order_example = next_test_from_list-in_order pending_tests

next_is_manual : next_test_from_list pending_tests ≡ some (some dom_x)
unfolding next_test_from_list scan sort_tests sorted_rows is_accepted path_parts api_of is_manual
    is_https test_le api_le sort_by wmas.Prelude.Dict.keys wmas.Prelude.codes_le wmas.Prelude.lower
    get wmas.Prelude.contains_text
next_is_manual = refl

abbrev skipped : List String
skipped = after_first css_a (sort_tests_by_execution (("css", css_a ∷ css_b ∷ []) ∷ []))

abbrev saved : Results
saved = ("css", posted css_a ∷ []) ∷ []

get-combine_results_by_api_example :
    get "css" (combine_results_by_api saved (("css", posted css_b ∷ []) ∷ []))
    ≡ merged (get "css" saved) (get "css" (("css", posted css_b ∷ []) ∷ []))
unfolding get
get-combine_results_by_api_example =
    get-combine_results_by_api "css" saved (("css", posted css_b ∷ []) ∷ []) (refl, tt)

parse_test_state-complete_example :
    (get "css" (parse_test_state saved) ≡ some (recount (posted css_a ∷ [])))
    × ((recount (posted css_a ∷ [])).complete ≡ 1)
    × ((recount (posted css_a ∷ [])).total ≡ 1)
unfolding get
parse_test_state-complete_example = parse_test_state-complete "css" saved (posted css_a ∷ []) refl

-- The posted result as it is prepared.
abbrev prepared : TestResult
prepared = record {
  test = css_a;
  status = name "OK";
  message = none;
  stack = none;
  tests = none;
  subtests = some (
      (record {
        title = some "first";
        status = name "FAIL";
        message = none;
        stack = none;
        xstatus = none;
      })
      ∷ []);
}
