-- ===== src/Api/ResultsHandler.antt =====
-- tools/wave/network/api/results_api_handler.py: the handlers that answer with data, and the
-- routes. As in the handlers of the sessions, a TypeError leaves an `except Exception` branch.
use wmas.Prelude.{String, Bool, not, Option, none, some, List, [], ◌∷◌, ◌==◌, if◌then◌else◌, ◌+s◌}
use wmas.Prelude.Dict.{Dict, get, has}
use wmas.Data.{type_error, attribute_error, ApiState}
use wmas.Exec.{Exec, pure, gets, lift, or_raise, ◌>>=◌, ◌>>◌}
use wmas.Server.{Server, Env}
use wmas.Files
use wmas.Sessions
use wmas.Complete
use wmas.Api.{
  Request, Response, results_json, states_json, config_json, uri_json, send_json, empty_response,
  uri_part,
}
use wmas.Api.SessionsHandler.{failing}

-- `create_result`; an empty body is `None`, which `prepare_result` cannot read.
unfoldable pub create_result : Env → Request → Exec Server Response
create_result env request = failing (do
  token ← uri_part 3 request
  posted ← or_raise type_error (elim request.body [ none ↦ none | some body ↦ body.result ])
  Complete.create_result env token posted
  pure (empty_response 200))

unfoldable pub read_results : Env → Request → Exec Server Response
read_results env request = failing (do
  token ← uri_part 3 request
  results ← (λ server. lift (Files.read_results env.re_match server token none) server)
  pure (send_json (results_json results)))

-- `read_flattened_results` of results_manager.py
unfoldable pub read_flattened_results : String → Exec Server (Option (Dict ApiState))
read_flattened_results token = do
  found ← Sessions.read_session token
  session ← or_raise attribute_error found
  pure session.test_state

unfoldable pub read_results_compact : Request → Exec Server Response
read_results_compact request = failing (do
  token ← uri_part 3 request
  states ← read_flattened_results token
  pure (send_json (states_json states)))

unfoldable pub read_results_config : Env → (reports_enabled : Bool) → Exec Server Response
read_results_config env reports_enabled =
    pure (send_json (config_json env.import_enabled reports_enabled))

-- `read_results_wpt_report_uri` of results_manager.py
unfoldable pub read_results_wpt_report_uri : Server → (token api : String) → Option String
read_results_wpt_report_uri server token api = elim (get token server.disk) [
  | none ↦ none
  | some directory ↦
      if has api directory.apis
      then some ("/results/" +s token +s "/" +s api +s "/all.html")
      else none
]

unfoldable pub read_results_api_wpt_report_url : Request → Exec Server Response
read_results_api_wpt_report_url request = failing (do
  token ← uri_part 3 request
  api ← uri_part 4 request
  uri ← gets (λ server. read_results_wpt_report_uri server token api)
  pure (send_json (uri_json uri)))

pub data ResultsRoute : Type 0 where
  to_import to_create to_config to_read to_compact to_multi_report to_all_json : ResultsRoute
  to_export to_overview to_report to_api_json : ResultsRoute

-- The tests of `handle_request`, on the method and on the parts of the path behind the third.
unfoldable pub results_route : String → List String → Option ResultsRoute
results_route method (token ∷ []) =
    if method == "POST"
    then (if token == "import" then some to_import else some to_create)
    else if method == "GET"
    then (if token == "config" then some to_config else some to_read)
    else none
results_route method (token ∷ function ∷ []) =
    if not (method == "GET")
    then none
    else if function == "compact"
    then some to_compact
    else if function == "reporturl"
    then some to_multi_report
    else if function == "json"
    then some to_all_json
    else if function == "export"
    then some to_export
    else if function == "overview"
    then some to_overview
    else none
results_route method (token ∷ api ∷ function ∷ []) =
    if not (method == "GET")
    then none
    else if function == "reporturl"
    then some to_report
    else if function == "json"
    then some to_api_json
    else none
results_route method _ = none
