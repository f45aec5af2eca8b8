-- ===== src/Api/SessionsHandler.antt =====
-- tools/wave/network/api/sessions_api_handler.py. Where a handler's `except` branch computes
-- `+ info[0].__name__`, a TypeError leaves the handler.
use wmas.Prelude.{
  ℕ, String, not, ◌&&◌, Option, none, some, List, [], ◌∷◌, ◌==◌, eqb, if◌then◌else◌, or_else,
  text_length,
}
use wmas.Data.{not_found, key_error, type_error, Session}
use wmas.Data.Serial.{SessionDict, serialize_session}
use wmas.Exec.{Result, ok, raised, Exec, pure, gets, modify, or_raise, ◌>>=◌, ◌>>◌}
use wmas.Server.{Server, Env}
use wmas.Events.{add_session_client}
use wmas.Files.{delete_results}
use wmas.Sessions
use wmas.Lifecycle
use wmas.Configure
use wmas.Api.{
  Request, Body, Response, token_json, dict_json, texts_json, send_json, empty_response, uri_part,
}

-- `except Exception` of these handlers: evaluating `+ info[0].__name__` raises.
unfoldable pub failing : {A : Type 0} → Exec Server A → Exec Server A
failing handler server =
    let (result, server') = handler server in
    elim result [ ok response ↦ (ok response, server') | raised e ↦ (raised type_error, server') ]

abbrev empty_body : Body
empty_body = record {
  tests = none;
  types = none;
  timeouts = none;
  reference_tokens = none;
  webhook_urls = none;
  labels = none;
  expiration_date = none;
  resume_token = none;
  texts = none;
  result = none;
}

abbrev config_of : Request → Body
config_of request = or_else request.body empty_body

-- The response of a handler that sends nothing.
abbrev done : Response
done = empty_response 200

-- `create_session`. The branch for InvalidDataException raises, too, before it answers.
unfoldable pub create_session : Env → (uuid : String) → Request → Exec Server Response
create_session env uuid request =
    let config = config_of request in
    failing (do
      session ←
          Configure.create_session env uuid (or_else config.tests []) config.types
            (or_else config.timeouts []) (or_else config.reference_tokens [])
            (or_else config.webhook_urls []) request.user_agent (or_else config.labels [])
            config.expiration_date
      pure (send_json (token_json session.token)))

-- What `read_session` shows of a session.
unfoldable pub session_details : Session → SessionDict
session_details session =
    let dict = serialize_session session in
    record dict {
      pending_tests = none;
      running_tests = none;
      malfunctioning_tests = none;
      test_state = none;
      date_started = none;
      date_finished = none;
      status = none;
    }

-- What `read_session_status` shows of a session.
unfoldable pub status_details : Session → SessionDict
status_details session =
    let dict = serialize_session session in
    record dict {
      tests = none;
      pending_tests = none;
      running_tests = none;
      malfunctioning_tests = none;
      types = none;
      test_state = none;
      last_completed_test = none;
      user_agent = none;
      timeouts = none;
      browser = none;
      is_public = none;
      reference_tokens = none;
      webhook_urls = none;
    }

unfoldable pub read_session : Request → Exec Server Response
read_session request = failing (do
  token ← uri_part 3 request
  found ← Sessions.read_session token
  elim found [
    | none ↦ pure (empty_response 404)
    | some session ↦ pure (send_json (dict_json (session_details session)))
  ])

unfoldable pub read_session_status : Request → Exec Server Response
read_session_status request = failing (do
  token ← uri_part 3 request
  found ← Sessions.read_session_status token
  elim found [
    | none ↦ pure (empty_response 404)
    | some session ↦ pure (send_json (dict_json (status_details session)))
  ])

unfoldable pub read_public_sessions : Request → Exec Server Response
read_public_sessions request =
    failing (do tokens ← Sessions.read_public_sessions; pure (send_json (texts_json tokens)))

-- `except NotFoundException` of `update_session_configuration` answers 404.
abbrev recover_not_found : Result Response → Result Response
recover_not_found (raised not_found) = ok (empty_response 404)
recover_not_found result = result

unfoldable pub answer_not_found : Exec Server Response → Exec Server Response
answer_not_found handler server =
    let (result, server') = handler server in (recover_not_found result, server')

unfoldable pub update_session_configuration : Env → Request → Exec Server Response
update_session_configuration env request =
    let config = config_of request in
    failing (
      answer_not_found (do
        token ← uri_part 3 request
        Configure.update_session_configuration env token (some (or_else config.tests []))
            config.types (some (or_else config.timeouts []))
            (some (or_else config.reference_tokens [])) (some (or_else config.webhook_urls []))
        pure done))

-- `update_labels`, for a body that is missing or has the key "labels".
unfoldable pub update_labels : Request → Exec Server Response
update_labels request = failing (do
  token ← uri_part 3 request
  elim (config_of request).labels [
    | none ↦ pure tt
    | some labels ↦ Sessions.update_labels token labels
  ]
  pure done)

unfoldable pub delete_session : Request → Exec Server Response
delete_session request = failing (do
  token ← uri_part 3 request
  found ← Sessions.read_session token
  elim found [
    | none ↦ pure (empty_response 404)
    | some session ↦ (do Sessions.delete_session token; modify (delete_results token); pure done)
  ])

unfoldable pub start_session : Request → Exec Server Response
start_session request =
    failing (do token ← uri_part 3 request; Lifecycle.start_session token; pure done)

unfoldable pub pause_session : Env → Request → Exec Server Response
pause_session env request =
    failing
      (do token ← uri_part 3 request; Lifecycle.pause_session env.parse_agent token; pure done)

unfoldable pub stop_session : Request → Exec Server Response
stop_session request =
    failing (do token ← uri_part 3 request; Lifecycle.stop_session token; pure done)

-- `resume_session`; a body with no "resume_token" is a KeyError.
unfoldable pub resume_session : Request → Exec Server Response
resume_session request = failing (do
  token ← uri_part 3 request
  resume_token ← elim request.body [
    | none ↦ pure none
    | some body ↦ (do given ← or_raise key_error body.resume_token; pure (some given))
  ]
  Lifecycle.resume_session token resume_token
  pure done)

unfoldable pub find_session : Request → Exec Server Response
find_session request = failing (do
  fragment ← uri_part 3 request
  found ← gets (λ server. Sessions.find_token server fragment)
  elim found [
    | none ↦ pure (empty_response 404)
    | some token ↦ pure (send_json (token_json token))
  ])

-- `register_event_listener` up to `event.wait()`; the answer is the message that the client is sent.
unfoldable pub register_event_listener : (id : ℕ) → Request → Exec Server (Unit {0})
register_event_listener id request = failing (do
  token ← uri_part 3 request
  modify (add_session_client (record { session_token = token; id = id })))

pub data SessionsRoute : Type 0 where
  to_create to_public to_find to_read to_update to_delete : SessionsRoute
  to_status to_events to_start to_pause to_stop to_resume to_labels : SessionsRoute

abbrev pub token_length : ℕ
token_length = 36

-- The tests of `handle_request`, on the method and on the parts of the path behind the third.
unfoldable pub sessions_route : String → List String → Option SessionsRoute
sessions_route method [] = if method == "POST" then some to_create else none
sessions_route method (function ∷ []) =
    if method == "GET"
    then (if function == "public"
        then some to_public
        else if not (eqb (text_length function) token_length)
        then some to_find
        else some to_read)
    else if method == "PUT"
    then some to_update
    else if method == "DELETE"
    then some to_delete
    else none
sessions_route method (token ∷ function ∷ []) =
    if method == "GET" && function == "status"
    then some to_status
    else if method == "GET" && function == "events"
    then some to_events
    else if method == "POST" && function == "start"
    then some to_start
    else if method == "POST" && function == "pause"
    then some to_pause
    else if method == "POST" && function == "stop"
    then some to_stop
    else if method == "POST" && function == "resume"
    then some to_resume
    else if method == "PUT" && function == "labels"
    then some to_labels
    else none
sessions_route method _ = none
