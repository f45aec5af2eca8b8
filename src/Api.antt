-- ===== src/Api.antt =====
-- Requests and responses: tools/wave/network/api/api_handler.py. A request's body is the JSON value
-- that it holds, by the keys that the handlers read; a response's content is the value that it
-- shows. An exception that leaves a handler is the error of its action.
pub mod SessionsHandler
pub mod TestsHandler
pub mod ResultsHandler
pub mod Http
use wmas.Prelude.{
  ℕ, String, Bool, true, false, not, Option, none, some, List, [], ◌∷◌, ◌==◌, if◌then◌else◌,
  or_else, split, path_parts, contains_text, get_elem?,
}
use wmas.Prelude.Dict.{Dict, put}
use wmas.Data.{
  Error, index_error, Session, TestList, TestResult, Results, ApiState, Browser, Status,
}
use wmas.Data.Serial.{SessionDict}
use wmas.Exec.{Exec, or_raise}
use wmas.Server.{Server, Event}
use wmas.TestList.{first}
use wmas.Loader.{ApiTitle}

pub record Body : Type 0 where
  pub tests : Option TestList
  pub types : Option (List String)
  pub timeouts : Option (Dict ℕ)
  pub reference_tokens : Option (List String)
  pub webhook_urls : Option (List String)
  pub labels : Option (List String)
  pub expiration_date : Option ℕ
  pub resume_token : Option String
  -- a body that is a list of texts, or a result
  pub texts : Option (List String)
  pub result : Option TestResult

pub record Request : Type 0 where
  pub method : String
  pub request_path : String
  pub is_https : Bool
  pub user_agent : String
  -- `none` is an empty body
  pub body : Option Body

pub data Content : Type 0 where
  nothing invalid_type : Content
  token_json : String → Content
  dict_json : SessionDict → Content
  texts_json : List String → Content
  tests_json : TestList → Content
  session_tests_json : String → Option TestList → Option TestList → Content
  next_test_json : String → Content
  apis_json : List ApiTitle → Content
  results_json : Results → Content
  states_json : Option (Dict ApiState) → Content
  config_json : (import_enabled reports_enabled : Bool) → Content
  uri_json : Option String → Content
  proxied static_file : Content

pub record Response : Type 0 where
  pub status : ℕ
  pub content : Content

abbrev pub send_json : Content → Response
send_json content = record { status = 200; content = content }

abbrev pub empty_response : ℕ → Response
empty_response status = record { status = status; content = nothing }

-- `parse_uri`
unfoldable pub parse_uri : Request → List String
parse_uri request = path_parts (or_else (first (split b'?' request.request_path)) "")

-- `uri_parts[i]`
abbrev pub uri_part : ℕ → Request → Exec Server String
uri_part i request = or_raise index_error (get_elem? (parse_uri request) i)

-- The value of a query parameter: a text, or `True` where there is no "=".
pub data QueryValue : Type 0 where
  flag : QueryValue
  text : String → QueryValue

-- One pair of `parse_query_parameters`; `none` is the ValueError of a second "=".
unfoldable pub parse_pair : List String → Option (String × QueryValue)
parse_pair (key ∷ []) = some (key, flag)
parse_pair (key ∷ value ∷ []) = some (key, text value)
parse_pair _ = none

unfoldable pub parse_pairs : List String → Dict QueryValue → Option (Dict QueryValue)
parse_pairs [] parsed = some parsed
parse_pairs (key_value_pair ∷ rest) parsed = elim (parse_pair (split b'=' key_value_pair)) [
  | none ↦ none
  | some (key, value) ↦ parse_pairs rest (put key value parsed)
]

-- `parse_query_parameters`
unfoldable pub parse_query_parameters : Request → Option (Dict QueryValue)
parse_query_parameters request = elim (split b'?' request.request_path) [
  | [] ↦ some []
  | path ∷ rest ↦ elim rest [
    | [] ↦ some []
    | query ∷ others ↦ if query == "" then some [] else parse_pairs (split b'&' query) []
  ]
]
