-- ===== src/Events/Delivery.antt =====
-- Who gets a message: tools/wave/testing/event_dispatcher.py.
use wmas.Prelude.{
  true, String, some, List, [], ◌∷◌, ◌++◌, ◌≡◌, refl, arith, ◌==◌, eq_iff, eq_refl, if◌then◌else◌,
  or_else, any_of, Bool-cases, inl, inr,
}
use mathlib.Core.List.{append_assoc}
use wmas.Prelude.Dict.{get, get-put}
use wmas.Data.{attribute_error}
use wmas.Exec.{raised}
use wmas.Server.{Server, Client, Event}
use wmas.Events.{add_session_client, remove_session_client, send_all, dispatch_event}

-- The messages of an event to clients, the last one first.
abbrev pub messages : Event → List Client → List (Client × Event)
messages event [] = []
messages event (client ∷ clients) = messages event clients ++ ((client, event) ∷ [])

send_all-messages :
    (event : Event) (clients : List Client) (sent : List (Client × Event))
    → send_all event clients sent ≡ messages event clients ++ sent
unfolding send_all
send_all-messages event [] sent = refl
send_all-messages event (client ∷ clients) sent =
    simp (send_all-messages event clients ((client, event) ∷ sent), append_assoc)

-- An event is sent to each client that is registered for its token, once and in the order of the
-- registrations, and to no other; a client that has just been added is the last one.
pub dispatch_event-messages :
    (client : Client) (event : Event) (token : String) (server : Server)
    → (dispatch_event token event (add_session_client client server)).sent
      ≡ messages event (
          if client.session_token == token
          then or_else (get token server.clients) [] ++ client ∷ []
          else or_else (get token server.clients) [])
        ++ server.sent
unfolding dispatch_event add_session_client
dispatch_event-messages client event token server =
    elim (Bool-cases (client.session_token == token)) [
      | inl e ↦
          simp (send_all-messages, get-put, e) (rw ((eq_iff client.session_token token).0 e) refl)
      | inr e ↦ simp (send_all-messages, get-put, e) refl
    ]

any_of-last :
    (token : String) (clients : List Client) (client : Client)
    → client.session_token ≡ token
    → any_of (λ (c : Client). c.session_token == token) (clients ++ client ∷ []) ≡ true
unfolding any_of
any_of-last token [] client same = ground (arith, same, eq_refl token)
any_of-last token (c ∷ clients) client same = ground (arith, any_of-last token clients client same)

-- A client that has just been registered cannot be removed: `remove_session_client` fails with an
-- AttributeError and the client stays registered, since `_clients` is a dictionary and has no
-- method `remove`.
pub remove_session_client-add_session_client :
    (client : Client) (server : Server)
    → remove_session_client (some client) (add_session_client client server)
      ≡ (raised attribute_error, add_session_client client server)
unfolding remove_session_client add_session_client
remove_session_client-add_session_client client server =
    let token = client.session_token in
    let clients = or_else (get token server.clients) [] ++ client ∷ [] in
    ground (
      arith,
      get-put token token clients server.clients,
      eq_refl token,
      any_of-last token (or_else (get token server.clients) []) client refl,
    )
