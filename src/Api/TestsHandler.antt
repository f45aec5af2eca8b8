-- ===== src/Api/TestsHandler.antt =====
-- tools/wave/network/api/tests_api_handler.py. Its `except` branches answer 500.
use Prim.Native.Nat.{◌/◌, ◌%◌}
use wmas.Prelude.{
  ℕ, zero, suc, String, not, ◌&&◌, Option, none, some, List, [], ◌∷◌, ◌==◌, ltb, if◌then◌else◌,
  or_else, ◌+s◌, starts_with, get_elem?,
}
use wmas.Data.{Session, Status, paused, completed, aborted, pending, running, same_status}
use wmas.Exec.{ok, raised, Exec, pure, gets, lift, ◌>>=◌, ◌>>◌}
use wmas.Server.{Server, Env}
use wmas.TestList.{is_https}
use wmas.Loader
use wmas.Loader.{ApiTitle}
use wmas.Sessions
use wmas.Lifecycle
use wmas.Tests
use wmas.Tests.{get_test_timeout}
use wmas.Api.{
  Request, Response, tests_json, session_tests_json, next_test_json, apis_json, texts_json,
  send_json, empty_response, uri_part,
}

-- The fields of `TestsApiHandler`.
pub record Site : Type 0 where
  pub hostname : String
  pub wpt_port : ℕ
  pub wpt_ssl_port : ℕ
  pub web_root : String

abbrev pub digit : ℕ → String
digit d = or_else (get_elem? ("0" ∷ "1" ∷ "2" ∷ "3" ∷ "4" ∷ "5" ∷ "6" ∷ "7" ∷ "8" ∷ "9" ∷ []) d) ""

-- `str(n)`: a number has at most one digit more than its value.
unfoldable pub digits : ℕ → ℕ → String → String
digits zero n acc = acc
digits (suc fuel) n acc =
    let shown = digit (n % 10) +s acc in
    let more = digits fuel (n / 10) shown in if ltb n 10 then shown else more

unfoldable pub decimal : ℕ → String
decimal n = digits (suc n) n ""

-- `_generate_url`
unfoldable pub generate_url : (hostname : String) (port : ℕ) (uri query protocol : String) → String
generate_url hostname port uri query protocol =
    let uri' = if starts_with uri "/" then uri else "/" +s uri in
    protocol +s "://" +s hostname +s ":" +s decimal port +s uri' +s query

module _ (site : Site) where
  -- `_generate_wave_url`
  unfoldable pub generate_wave_url : (uri token : String) → String
  generate_wave_url uri token =
      generate_url site.hostname site.wpt_port uri ("?token=" +s token) "http"

  -- `_generate_test_url`
  unfoldable pub generate_test_url : (test token : String) (test_timeout : ℕ) → String
  generate_test_url test token test_timeout =
      let protocol = if is_https test then "https" else "http" in
      let port = if is_https test then site.wpt_ssl_port else site.wpt_port in
      let query =
        "?token="
        +s token
        +s "&timeout="
        +s decimal test_timeout
        +s "&https_port="
        +s decimal site.wpt_ssl_port
        +s "&web_root="
        +s site.web_root in
      generate_url site.hostname port test query protocol

-- `except Exception` of these handlers, where the exception has a text to print.
unfoldable pub answering : Exec Server Response → Exec Server Response
answering handler server =
    let (result, server') = handler server in
    elim result [
      | ok response ↦ (ok response, server')
      | raised e ↦ (ok (empty_response 500), server')
    ]

unfoldable pub read_tests : Env → Exec Server Response
read_tests env = do tests ← Tests.read_tests env; pure (send_json (tests_json tests))

unfoldable pub read_session_tests : Request → Exec Server Response
read_session_tests request = do
  token ← uri_part 3 request
  found ← Sessions.read_session token
  elim found [
    | none ↦ pure (empty_response 404)
    | some session ↦
        pure (send_json (session_tests_json token session.pending_tests session.running_tests))
  ]

-- The page that a session is shown which is not running.
unfoldable pub waiting_page : Status → Option String
waiting_page paused = some "/wave/pause.html"
waiting_page completed = some "/wave/finish.html"
waiting_page aborted = some "/wave/finish.html"
waiting_page pending = some "/wave/newsession.html"
waiting_page _ = none

module _ (env : Env) (site : Site) where
  abbrev wave_page : (uri token : String) → Response
  wave_page uri token = send_json (next_test_json (generate_wave_url site uri token))

  -- The answer of `read_next_test` where no test is left.
  unfoldable pub no_test_left : String → Session → Exec Server Response
  no_test_left token session =
      if not (same_status session.status running)
      then pure (empty_response 200)
      else (do Lifecycle.complete_session token; pure (wave_page "/wave/finish.html" token))

  unfoldable pub next_test_page : String → Session → Exec Server Response
  next_test_page token session = do
    next ← Tests.next_test env session
    elim next [
      | none ↦ no_test_left token session
      | some test ↦ (do
        millis ← lift (get_test_timeout env test session)
        pure (send_json (next_test_json (generate_test_url site test token millis))))
    ]

  unfoldable pub read_next_test : Request → Exec Server Response
  read_next_test request = answering (do
    token ← uri_part 3 request
    found ← Sessions.read_session token
    elim found [
      | none ↦ pure (empty_response 404)
      | some session ↦ elim (waiting_page session.status) [
        | some uri ↦ pure (wave_page uri token)
        | none ↦ next_test_page token session
      ]
    ])

unfoldable pub read_malfunctioning : Request → Exec Server Response
read_malfunctioning request = answering (do
  token ← uri_part 3 request
  tests ← Tests.read_malfunctioning_tests token
  pure (send_json (texts_json tests)))

unfoldable pub update_malfunctioning : Request → Exec Server Response
update_malfunctioning request = answering (do
  token ← uri_part 3 request
  Tests.update_malfunctioning_tests token
      (elim request.body [ none ↦ none | some body ↦ body.texts ])
  pure (empty_response 200))

unfoldable pub read_available_apis : List ApiTitle → Exec Server Response
read_available_apis api_titles = do
  apis ← gets (λ server. Loader.get_apis server.automatic server.manual api_titles)
  pure (send_json (apis_json apis))

pub data TestsRoute : Type 0 where
  to_tests to_apis to_session_tests to_next to_last_completed : TestsRoute
  to_malfunctioning to_update_malfunctioning : TestsRoute

-- The tests of `handle_request`, on the method and on the parts of the path behind the third.
unfoldable pub tests_route : String → List String → Option TestsRoute
tests_route method [] = if method == "GET" then some to_tests else none
tests_route method (token ∷ []) =
    if method == "GET"
    then (if token == "apis" then some to_apis else some to_session_tests)
    else none
tests_route method (token ∷ function ∷ []) =
    if method == "GET" && function == "next"
    then some to_next
    else if method == "GET" && function == "last_completed"
    then some to_last_completed
    else if method == "GET" && function == "malfunctioning"
    then some to_malfunctioning
    else if method == "PUT" && function == "malfunctioning"
    then some to_update_malfunctioning
    else none
tests_route method _ = none
