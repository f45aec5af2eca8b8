-- ===== src/Events.antt =====
-- tools/wave/testing/event_dispatcher.py, with the client of
-- tools/wave/data/http_polling_client.py: a message that a client is sent is noted in `sent`.
pub mod Delivery
use wmas.Prelude.{
  String, Bool, true, false, Option, none, some, List, [], ◌∷◌, ◌++◌, ◌==◌, if◌then◌else◌, or_else,
  any_of,
}
use wmas.Prelude.Dict.{Dict, get, put, del}
use wmas.Data.{attribute_error}
use wmas.Exec.{Exec, pure, raise, modify, ◌>>=◌, ◌>>◌}
use wmas.Server.{Server, Client, Event}

-- `add_session_client`
unfoldable pub add_session_client : Client → Server → Server
add_session_client client server =
    let token = client.session_token in
    record server {
      clients = put token (or_else (get token server.clients) [] ++ client ∷ []) server.clients;
    }

-- `remove_session_client`. The dictionary `_clients` has no method `remove`.
unfoldable pub remove_session_client : Option Client → Exec Server (Unit {0})
remove_session_client none server = pure tt server
remove_session_client (some client_to_delete) server =
    let token = client_to_delete.session_token in
    elim (get token server.clients) [
      | none ↦ pure tt server
      | some clients ↦
          if any_of (λ client. client.session_token == token) clients
          then raise attribute_error server
          else elim clients [
            | [] ↦ pure tt (record server { clients = del token server.clients })
            | c ∷ cs ↦ pure tt server
          ]
    ]

-- The loop of `dispatch_event`.
unfoldable pub send_all : Event → List Client → List (Client × Event) → List (Client × Event)
send_all event [] sent = sent
send_all event (client ∷ clients) sent = send_all event clients ((client, event) ∷ sent)

-- `dispatch_event`
unfoldable pub dispatch_event : String → Event → Server → Server
dispatch_event token event server = record server {
  sent = send_all event (or_else (get token server.clients) []) server.sent;
}
