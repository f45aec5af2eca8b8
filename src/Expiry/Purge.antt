-- ===== src/Expiry/Purge.antt =====
-- What the deletion of expired sessions leaves: `_delete_expired_sessions` of
-- tools/wave/testing/sessions_manager.py.
use wmas.Prelude.{
  ℕ, String, false, not, ◌&&◌, Option, none, some, List, [], ◌∷◌, ◌≡◌, refl, arith, ◌==◌, ltb,
  if◌then◌else◌, Bool-cases, inl, inr, Option-cases, eq_iff, ◌∙◌, sym, subst,
}
use wmas.Prelude.Dict.{Dict, get, Distinct}
use wmas.Data.{Session}
use wmas.Exec.{ok, value, after, for_each}
use wmas.Server.{Server}
use wmas.Sessions.Cache.{IsCached, delete_session-private, public_session_kept}
use wmas.Expiry.{
  Expiring, read_expiring_sessions, delete_if_expired, delete_expired_sessions, whole_seconds,
}

-- A session is cached, and the date is its expiration date.
pub record Expires (token : String) (date : ℕ) (server : Server) : Type 0 where
  pub session : Session
  pub cached : IsCached token session server
  pub expires : session.expiration_date ≡ some date

-- The dates stand for sessions of the cache, each of them once.
Listed : List Expiring → Server → Type 0
Listed [] server = Unit
Listed ((token, date) ∷ rest) server =
    Expires token date server × (get token rest ≡ none) × Listed rest server

-- What the deletion leaves of a session at a time, if it has the date.
abbrev pub remains : ℕ → Option ℕ → Option Session → Option Session
remains now none cached = cached
remains now (some date) none = none
remains now (some date) (some session) =
    if ltb date now && not session.is_public then none else some session

-- One step: the session of the date, and the others.
step :
    (now date : ℕ) {token : String} (server : Server) (j : String)
    → Expires token date server
    → (value (delete_if_expired now (token, date)) server ≡ ok tt)
      × (get j (after (delete_if_expired now (token, date)) server).sessions ≡ (
          if token == j
          then remains now (some date) (get j server.sessions)
          else get j server.sessions))
unfolding delete_if_expired
step now date {token} server j e = elim (Bool-cases (ltb date now)) [
  | inr late ↦ ground (arith, late, e.cached.stored, eq_iff token j)
  | inl late ↦ elim (Bool-cases e.session.is_public) [
    | inl public ↦
        let kept = public_session_kept [] j e.cached public in
        ground (arith, late, public, kept, e.cached.stored, eq_iff token j)
    | inr private ↦
        let gone = delete_session-private j e.cached private in
        ground (arith, late, private, gone, e.cached.stored, eq_iff token j)
  ]
]

Expires-kept :
    {token : String} {date : ℕ} {server server' : Server}
    → get token server'.sessions ≡ get token server.sessions
    → Expires token date server
    → Expires token date server'
Expires-kept same e = record {
  session = e.session;
  cached = record {
    stored = same ∙ e.cached.stored;
    own_token = e.cached.own_token;
    states = e.cached.states;
    counts = e.cached.counts;
  };
  expires = e.expires;
}

other_key :
    (token t : String) (date : ℕ) (rest : List Expiring)
    → get token ((t, date) ∷ rest) ≡ none
    → ((token == t) ≡ false) × (get token rest ≡ none)
unfolding get
other_key token t date rest h =
    (ground (arith, h, eq_iff token t, eq_iff t token), ground (arith, h))

Listed-kept :
    (token : String) (server server' : Server) (rest : List Expiring)
    → ((j : String) → (token == j) ≡ false → get j server'.sessions ≡ get j server.sessions)
    → get token rest ≡ none
    → Listed rest server
    → Listed rest server'
unfolding Listed
Listed-kept token server server' [] same h listed = tt
Listed-kept token server server' ((t, date) ∷ rest) same h listed =
    let keys = other_key token t date rest h in
    (
      Expires-kept (same t keys.0) listed.0,
      listed.1,
      Listed-kept token server server' rest same keys.1 listed.2,
    )

for_each-remains :
    (now : ℕ) (expiring : List Expiring) (server : Server) (j : String)
    → Listed expiring server
    → (value (for_each (delete_if_expired now) expiring) server ≡ ok tt)
      × (get j (after (for_each (delete_if_expired now) expiring) server).sessions
          ≡ remains now (get j expiring) (get j server.sessions))
unfolding for_each Listed get
for_each-remains now [] server j listed = (refl, refl)
for_each-remains now ((token, date) ∷ rest) server j listed =
    let server' = after (delete_if_expired now (token, date)) server in
    let first = step now date server j listed.0 in
    let same : (i : String)
        → (token == i) ≡ false
        → get i server'.sessions ≡ get i server.sessions =
      λ i other. ground (arith, step now date server i listed.0, other) in
    let others =
      for_each-remains now rest server' j
        (Listed-kept token server server' rest same listed.1 listed.2) in
    ground (arith, first, others, listed.1, eq_iff token j)

-- Every session of the dictionary is cached under its token.
unfoldable pub AllCached : Dict Session → Server → Type 0
AllCached [] server = Unit
AllCached ((token, session) ∷ d) server = IsCached token session server × AllCached d server

-- The expiration date of a session that is there.
abbrev pub expiration_of : Option Session → Option ℕ
expiration_of none = none
expiration_of (some session) = session.expiration_date

get-read_expiring_sessions :
    (d : Dict Session) (server : Server) (j : String)
    → AllCached d server
    → Distinct d
    → get j (read_expiring_sessions d) ≡ expiration_of (get j d)
unfolding read_expiring_sessions get AllCached
get-read_expiring_sessions [] server j all distinct = refl
get-read_expiring_sessions ((token, session) ∷ d) server j all distinct =
    let rest = get-read_expiring_sessions d server j all.1 distinct.1 in
    elim (Option-cases session.expiration_date) [
      | inl e ↦ ground (arith, e, rest, all.0.own_token, eq_iff token j, distinct.0)
      | inr (date, e) ↦ ground (arith, e, rest, all.0.own_token, eq_iff token j)
    ]

read_expiring_sessions-Listed :
    (d : Dict Session) (server : Server)
    → AllCached d server
    → Distinct d
    → Listed (read_expiring_sessions d) server
unfolding read_expiring_sessions AllCached Listed
read_expiring_sessions-Listed [] server all distinct = tt
read_expiring_sessions-Listed ((token, session) ∷ d) server all distinct =
    let rest = read_expiring_sessions-Listed d server all.1 distinct.1 in
    elim (Option-cases session.expiration_date) [
      | inl e ↦ simp e rest
      | inr (date, e) ↦ simp e (
          subst (λ (t : String). Listed ((t, date) ∷ read_expiring_sessions d) server)
            (sym all.0.own_token)
            (
              record { session = session; cached = all.0; expires = e },
              ground
                  (arith, get-read_expiring_sessions d server token all.1 distinct.1, distinct.0),
              rest,
            ))
    ]

-- Where every session of the cache is cached under its own token with counts, and no token
-- twice: `_delete_expired_sessions` returns, and a session is gone from the cache exactly where it
-- is private and its expiration date is before the clock's whole seconds; the others stay.
pub delete_expired_sessions_lem :
    (server : Server) (j : String)
    → AllCached server.sessions server
    → Distinct server.sessions
    → (value delete_expired_sessions server ≡ ok tt)
      × (get j (after delete_expired_sessions server).sessions
          ≡ remains
              (whole_seconds server.clock)
              (expiration_of (get j server.sessions))
              (get j server.sessions))
unfolding delete_expired_sessions
delete_expired_sessions_lem server j all distinct =
    let now = whole_seconds server.clock in
    let listed = read_expiring_sessions-Listed server.sessions server all distinct in
    let purged = for_each-remains now (read_expiring_sessions server.sessions) server j listed in
    (
      purged.0,
      ground (arith, purged.1, get-read_expiring_sessions server.sessions server j all distinct),
    )
