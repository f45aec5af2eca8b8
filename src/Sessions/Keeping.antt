-- ===== src/Sessions/Keeping.antt =====
-- Actions that leave a cached session as it is, one rule for each way to build an action.
use wmas.Prelude.{String, Option, none, some, List, [], ◌∷◌, ◌≡◌}
use wmas.Data.{Error, Session}
use wmas.Exec.{
  Result, ok, raised, Exec, pure, raise, gets, modify, lift, or_raise, for_each, and_then, ◌>>=◌,
}
use wmas.Server.{Server}
use wmas.Sessions.{push_session, read_session}
use wmas.Sessions.Cache.{IsCached, read_session-cached, push-IsCached, IsCached-eq}

pub record Keeps (token : String) (session : Session) {A : Type 0} (m : Exec Server A)
    : Type 0 where
  pub at : (server : Server) → IsCached token session server → IsCached token session (m server).1

module _ {token : String} {session : Session} where
  pub Keeps-pure : {A : Type 0} (a : A) → Keeps token session (pure a)
  Keeps-pure a = record { at = λ server c. c }

  pub Keeps-raise : {A : Type 0} (e : Error) → Keeps token session (raise {A = A} e)
  Keeps-raise e = record { at = λ server c. c }

  pub Keeps-gets : {A : Type 0} (f : Server → A) → Keeps token session (gets f)
  Keeps-gets f = record { at = λ server c. c }

  pub Keeps-lift : {A : Type 0} (r : Result A) → Keeps token session (lift r)
  Keeps-lift r = record { at = λ server c. c }

  pub Keeps-or_raise : {A : Type 0} (e : Error) (o : Option A) → Keeps token session (or_raise e o)
  Keeps-or_raise e none = record { at = λ server c. c }
  Keeps-or_raise e (some a) = record { at = λ server c. c }

  -- A change of the state that leaves the cache of sessions alone.
  pub Keeps-modify :
      (f : Server → Server)
      → ((server : Server) → (f server).sessions ≡ server.sessions)
      → Keeps token session (modify f)
  Keeps-modify f same = record { at = λ server c. IsCached-eq (same server) c }

  -- Writing the session itself.
  pub Keeps-push : Keeps token session (modify (push_session session))
  Keeps-push = record { at = λ server c. push-IsCached server c.own_token c.counts }

  pub Keeps-read : Keeps token session (read_session token)
  Keeps-read = record {
    at = λ server c. rw (read_session-cached c) (push-IsCached server c.own_token c.counts);
  }

  pub Keeps-bind :
      {A B : Type 0} (m : Exec Server A) (f : A → Exec Server B)
      → Keeps token session m
      → ((a : A) → Keeps token session (f a))
      → Keeps token session (m >>= f)
  Keeps-bind {A} {B} m f km kf = record {
    at = λ server c. go (m server).0 (m server).1 (km.at server c);
  }
    where
      go :
          (r : Result A) (server : Server)
          → IsCached token session server
          → IsCached token session (and_then r f server).1
      go (ok a) server c = (kf a).at server c
      go (raised e) server c = c

  pub Keeps-for_each :
      {A : Type 0} (body : A → Exec Server (Unit {0})) (xs : List A)
      → ((a : A) → Keeps token session (body a))
      → Keeps token session (for_each body xs)
  unfolding for_each
  Keeps-for_each body [] kb = Keeps-pure tt
  Keeps-for_each body (x ∷ xs) kb =
      Keeps-bind (body x) (λ _. for_each body xs) (kb x) (λ _. Keeps-for_each body xs kb)

pub ruleset keeps_rules = (
  Keeps-pure, Keeps-raise, Keeps-gets, Keeps-lift, Keeps-or_raise, Keeps-push, Keeps-read,
  Keeps-bind,
)
