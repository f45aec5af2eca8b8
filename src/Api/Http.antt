-- ===== src/Api/Http.antt =====
-- tools/wave/network/http_handler.py: where a request goes.
use wmas.Prelude.{
  ℕ, String, Bool, false, Option, none, some, ◌==◌, if◌then◌else◌, split, get_elem?, without_char,
}
use wmas.Api.{Request}

pub data Destination : Type 0 where
  to_options to_proxy to_static to_nothing : Destination
  to_sessions_api to_tests_api to_results_api : Destination

abbrev path_part : ℕ → Request → Option String
path_part i request = get_elem? (split b'/' request.request_path) i

-- The first loop of `handle_request`: only the part with index 2 counts.
unfoldable pub is_api_call : Request → Bool
is_api_call request = elim (path_part 2 request) [ none ↦ false | some part ↦ part == "api" ]

-- `handle_api`: only the part with index 3 counts.
unfoldable pub api_destination : Request → Destination
api_destination request = elim (path_part 3 request) [
  | none ↦ to_nothing
  | some part ↦
      if part == ""
      then to_nothing
      else (let api_name = without_char b'?' part in
          if api_name == "sessions"
          then to_sessions_api
          else if api_name == "tests"
          then to_tests_api
          else if api_name == "results"
          then to_results_api
          else to_nothing)
]

-- `handle_request`
unfoldable pub handle_request : Request → Destination
handle_request request =
    if request.method == "OPTIONS"
    then to_options
    else if is_api_call request
    then (if request.is_https then to_proxy else api_destination request)
    else to_static
