-- ===== src/Sessions/Cache.antt =====
-- What reading a session does when it is in the cache, and what the methods of
-- tools/wave/testing/sessions_manager.py do to a public one.
use wmas.Prelude.{
  [], not, ◌&&◌, String, true, false, none, some, List, ◌==◌, if◌then◌else◌, arith, ◌≡◌, refl,
  eq_iff, eq_refl, Bool-cases, inl, inr,
}
use wmas.Prelude.Dict.{Dict, get, has, del, get-put, get-del}
use wmas.Data.{Session, ApiState}
use wmas.Exec.{ok, value, after}
use wmas.Server.{Server}
use wmas.Sessions.{
  push_session, usable, read_session, delete_session, forget_session, update_labels,
}

-- The session stands in the cache under its own token, with its counts.
pub record IsCached (token : String) (session : Session) (server : Server) : Type 0 where
  pub stored : get token server.sessions ≡ some session
  pub own_token : session.token ≡ token
  pub states : Dict ApiState
  pub counts : session.test_state ≡ some states

pub IsCached-eq :
    {token : String} {session : Session} {server server' : Server}
    → server'.sessions ≡ server.sessions
    → IsCached token session server
    → IsCached token session server'
IsCached-eq e c = record {
  stored = rw e c.stored;
  own_token = c.own_token;
  states = c.states;
  counts = c.counts;
}

-- Writing a cached session again changes no entry of the cache.
pub sessions-push_same :
    {token : String} {session : Session} {server : Server} (j : String)
    → IsCached token session server
    → get j (push_session session server).sessions ≡ get j server.sessions
unfolding push_session
sessions-push_same {token} {session} {server} j c =
    rw (get-put, c.own_token) (ground (arith, eq_iff token j, c.stored))

usable-cached :
    {token : String} {session : Session} {server : Server}
    → IsCached token session server
    → usable (get token server.sessions) ≡ some session
unfolding usable
usable-cached c = rw c.stored (rw (c.counts, usable))

-- A cached session is read from the cache; nothing else is looked at or changed.
pub read_session-cached :
    {token : String} {session : Session} {server : Server}
    → IsCached token session server
    → read_session token server ≡ (ok (some session), push_session session server)
unfolding read_session
read_session-cached c = rw (usable-cached c) refl

pub push-IsCached :
    {token : String} {session : Session} {states : Dict ApiState} (server : Server)
    → session.token ≡ token
    → session.test_state ≡ some states
    → IsCached token session (push_session session server)
unfolding push_session
push-IsCached {token} {states = states} server own counted = record {
  stored = rw (get-put, own) (ground (arith, eq_iff token token));
  own_token = own;
  states = states;
  counts = counted;
}

forget_session-cached :
    {token : String} {session : Session} {server : Server}
    → IsCached token session server
    → forget_session token (push_session session server)
      ≡ (ok tt, record server { sessions = del token (push_session session server).sessions })
unfolding forget_session has push_session
forget_session-cached {token} {session} c = rw (get-put, c.own_token) (rw (eq_refl token) refl)

-- What the two methods are on a cached session.
pub delete_session-cached :
    {token : String} {session : Session} {server : Server}
    → IsCached token session server
    → delete_session token server ≡ (
        if session.is_public
        then (ok tt, push_session session server)
        else (ok tt, record server { sessions = del token (push_session session server).sessions }))
unfolding delete_session
delete_session-cached {token} {session} c =
    rw (read_session-cached c) (elim (Bool-cases session.is_public) [
      | inl e ↦ simp e refl
      | inr e ↦ simp e (forget_session-cached c)
    ])

pub update_labels-cached :
    {token : String} {session : Session} {server : Server} (labels : List String)
    → IsCached token session server
    → update_labels token labels server ≡ (
        if session.is_public then (ok tt, push_session session server) else (
          ok tt,
          push_session (record session { labels = labels }) (push_session session server),
        ))
unfolding update_labels
update_labels-cached {token} {session} labels c =
    rw (read_session-cached c)
      (elim (Bool-cases session.is_public) [ inl e ↦ simp e refl | inr e ↦ simp e refl ])

-- A public session keeps its labels and its place in the cache: `update_labels` and
-- `delete_session` return, and no entry of the cache is changed.
pub public_session_kept :
    {token : String} {session : Session} {server : Server} (labels : List String) (j : String)
    → IsCached token session server
    → session.is_public ≡ true
    → (value (update_labels token labels) server ≡ ok tt)
      × (value (delete_session token) server ≡ ok tt)
      × (get j (after (update_labels token labels) server).sessions ≡ get j server.sessions)
      × (get j (after (delete_session token) server).sessions ≡ get j server.sessions)
public_session_kept labels j c public =
    let kept = sessions-push_same j c in
    let updated = update_labels-cached labels c in
    let deleted = delete_session-cached c in ground (arith, public, kept, updated, deleted)

-- Deleting a cached session that is not public takes it, and no other, out of the cache. Its
-- directory stays.
pub delete_session-private :
    {token : String} {session : Session} {server : Server} (j : String)
    → IsCached token session server
    → session.is_public ≡ false
    → (value (delete_session token) server ≡ ok tt)
      × (get j (after (delete_session token) server).sessions
          ≡ (if token == j then none else get j server.sessions))
      × ((after (delete_session token) server).disk ≡ server.disk)
delete_session-private {token} {session} {server} j c private =
    let kept = sessions-push_same j c in
    let deleted = delete_session-cached c in
    ground (arith, private, kept, deleted, get-del token j (push_session session server).sessions)

-- `update_labels` on a cached session that is not public replaces its labels, and changes nothing
-- else in the cache.
pub update_labels-private :
    {token : String} {session : Session} {server : Server} (labels : List String) (j : String)
    → IsCached token session server
    → session.is_public ≡ false
    → get j (after (update_labels token labels) server).sessions
      ≡ (if token == j then some (record session { labels = labels }) else get j server.sessions)
unfolding push_session
update_labels-private {token} {session} {server} labels j c private =
    let updated = update_labels-cached labels c in
    ground (
      arith,
      private,
      c.own_token,
      updated,
      get-put token j (record session { labels = labels }) (push_session session server).sessions,
      sessions-push_same j c,
    )

-- `update_labels` on a cached session, public or not: it returns; a private session has the new
-- labels in the cache, a public one keeps its labels, and every other session stays.
pub update_labels_lem :
    {token : String} {session : Session} {server : Server} (labels : List String) (j : String)
    → IsCached token session server
    → (value (update_labels token labels) server ≡ ok tt)
      × (get j (after (update_labels token labels) server).sessions ≡ (
          if token == j && not session.is_public
          then some (record session { labels = labels })
          else get j server.sessions))
update_labels_lem {token} {session} {server} labels j c = elim (Bool-cases session.is_public) [
  | inl public ↦ ground (arith, public, public_session_kept labels j c public)
  | inr private ↦
      ground
        (arith, private, update_labels-cached labels c, update_labels-private labels j c private)
]

-- `delete_session` on a cached session, public or not: it returns; a private session is gone from
-- the cache, a public one stays, every other session stays, and the directories stay.
pub delete_session_lem :
    {token : String} {session : Session} {server : Server} (j : String)
    → IsCached token session server
    → (value (delete_session token) server ≡ ok tt)
      × (get j (after (delete_session token) server).sessions
          ≡ (if token == j && not session.is_public then none else get j server.sessions))
      × ((after (delete_session token) server).disk ≡ server.disk)
unfolding push_session
delete_session_lem {token} {session} {server} j c = elim (Bool-cases session.is_public) [
  | inl public ↦ ground (arith, public, public_session_kept [] j c public, delete_session-cached c)
  | inr private ↦ ground (arith, private, delete_session-private j c private)
]
