-- ===== src/Persist/Saving.antt =====
-- That the saving of a session returns: `persist_session` of tools/wave/testing/results_manager.py.
use wmas.Prelude.{
  String, true, Option, none, some, List, [], ◌∷◌, ◌≡◌, refl, arith, is_some, ◌⊎◌, inl, inr,
  eq_refl, Option-cases, subst,
}
use wmas.Prelude.Dict.{get, keys, get-put}
use wmas.Data.{Session, TestResult, Results}
use wmas.Exec.{ok, after, value, for_each}
use wmas.Server.{Server, UserAgent}
use wmas.Files.{set_info, create_info_file, clear_cache_api, read_from_cache, json_name, browser_of}
use wmas.Sessions.{push_session}
use wmas.Sessions.Cache.{IsCached, push-IsCached, read_session-cached}
use wmas.Persist.{
  get_json_name, write_results, save_cached, persist_cached, save_api_results, persist_api,
  persist_session,
}
use wmas.Persist.Flush.{persist_api-Keeps}

-- The directory of a session is there.
abbrev HasDirectory : String → Server → Type 0
HasDirectory token server = is_some (get token server.disk) ≡ true

module _ (parse_agent : String → UserAgent) (session : Session) where
  get_json_name-cached :
      (server : Server)
      → IsCached session.token session server
      → get_json_name parse_agent session.token server ≡ (
        ok (json_name (browser_of (parse_agent session.user_agent))),
        push_session session server,
      )
  unfolding get_json_name
  get_json_name-cached server c = rw (read_session-cached c) refl

  HasDirectory-written :
      (api file : String) (results : List TestResult) (server : Server)
      → HasDirectory session.token (write_results parse_agent session.token api file results server)
  unfolding write_results
  HasDirectory-written api file results server = rw get-put (rw eq_refl refl)

  -- After the saving of the results of an API the directory is there.
  save_api_results-ok :
      (api : String) (server : Server)
      → IsCached session.token session server
      → HasDirectory session.token server
        ⊎ (is_some (get api (read_from_cache server session.token)) ≡ true)
      → (saved : Server) × (save_api_results parse_agent session.token api server ≡ (ok tt, saved))
        × HasDirectory session.token saved
  unfolding save_api_results save_cached
  save_api_results-ok api server c h =
      elim (Option-cases (get api (read_from_cache server session.token))) [
        | inl e ↦ (server, rw e refl, ground (arith, e, h))
        | inr (results, e) ↦
            let file = json_name (browser_of (parse_agent session.user_agent)) in
            let read = push_session session (push_session session server) in
            (
              write_results parse_agent session.token api file results read,
              rw e (
                  rw (read_session-cached c) (
                    rw
                      (get_json_name-cached (push_session session server)
                        (push-IsCached server refl c.counts))
                      refl)),
              HasDirectory-written api file results read,
            )
      ]

  create_info_file-ok :
      (server : Server)
      → HasDirectory session.token server
      → (saved : Server) × (create_info_file session server ≡ (ok tt, saved))
        × HasDirectory session.token saved
  unfolding create_info_file set_info
  create_info_file-ok server h = elim (Option-cases (get session.token server.disk)) [
    | inl e ↦ ground (arith, e, h)
    | inr (directory, e) ↦
        (set_info session directory server, rw e refl, rw get-put (rw eq_refl refl))
  ]

  HasDirectory-cleared :
      (api : String) (server : Server)
      → HasDirectory session.token server
      → HasDirectory session.token (clear_cache_api session.token api server)
  unfolding clear_cache_api
  HasDirectory-cleared api server h = ground (arith, h)

  persist_api-ok :
      (api : String) (server : Server)
      → IsCached session.token session server
      → HasDirectory session.token server
        ⊎ (is_some (get api (read_from_cache server session.token)) ≡ true)
      → (saved : Server) × (persist_api parse_agent session api server ≡ (ok tt, saved))
        × HasDirectory session.token saved
  unfolding persist_api
  persist_api-ok api server c h =
      let (written, e, there) = save_api_results-ok api server c h in
      let (informed, e', there') = create_info_file-ok written there in
      (
        clear_cache_api session.token api informed,
        rw (e, e') refl,
        HasDirectory-cleared api informed there',
      )

  -- What is left of a loop behind its first step.
  persist_api-then :
      (api : String) (apis : List String) (server : Server)
      → IsCached session.token session server
      → HasDirectory session.token server
        ⊎ (is_some (get api (read_from_cache server session.token)) ≡ true)
      → ((saved : Server)
          → IsCached session.token session saved
          → HasDirectory session.token saved
          → value (for_each (persist_api parse_agent session) apis) saved ≡ ok tt)
      → value (for_each (persist_api parse_agent session) (api ∷ apis)) server ≡ ok tt
  unfolding for_each
  persist_api-then api apis server c h rest =
      let (saved, e, there) = persist_api-ok api server c h in
      let c' : IsCached session.token session saved =
        subst (λ r. IsCached session.token session (r.1)) e
          ((persist_api-Keeps parse_agent api refl).at server c) in
      rw (e, value) (rest saved c' there)

  persist_apis-ok :
      (apis : List String) (server : Server)
      → IsCached session.token session server
      → HasDirectory session.token server
      → value (for_each (persist_api parse_agent session) apis) server ≡ ok tt
  unfolding for_each
  persist_apis-ok [] server c h = refl
  persist_apis-ok (api ∷ apis) server c h =
      persist_api-then api apis server c (inl h) (persist_apis-ok apis)

  -- The first API has results in the cache, and their saving makes the directory.
  persist_all-ok :
      (results : Results) (server : Server)
      → IsCached session.token session server
      → get session.token server.results ≡ some results
      → value (for_each (persist_api parse_agent session) (keys results)) server ≡ ok tt
  unfolding for_each keys get read_from_cache
  persist_all-ok [] server c h = refl
  persist_all-ok ((api, results) ∷ d) server c h =
      persist_api-then api (keys d) server c (inr (rw h (rw eq_refl refl)))
        (persist_apis-ok (keys d))

-- The session as it is after its saving, for the results of it in the cache: where there are any,
-- none of them counts as recent.
abbrev pub finished : Session → Option Results → Session
finished session none = session
finished session (some results) = record session { recent_completed_count = 0 }

-- The saving of a cached session always returns, and the session that it returns is cached
-- afterwards: without cached results it is the session as it was, and else the session with the
-- count of its recent results at 0.
pub persist_session_lem :
    (parse_agent : String → UserAgent) (session : Session) (server : Server)
    → IsCached session.token session server
    → (value (persist_session parse_agent session) server
        ≡ ok (finished session (get session.token server.results)))
      × IsCached session.token
          (finished session (get session.token server.results))
          (after (persist_session parse_agent session) server)
unfolding persist_session persist_cached
persist_session_lem parse_agent session server c = go (get session.token server.results) refl
  where
    go :
        (cached : Option Results)
        → get session.token server.results ≡ cached
        → (value (persist_cached parse_agent session cached) server ≡ ok (finished session cached))
          × IsCached session.token
              (finished session cached)
              (after (persist_cached parse_agent session cached) server)
    go none e = (refl, c)
    go (some results) e =
        let saved = after (for_each (persist_api parse_agent session) (keys results)) server in
        let done = persist_all-ok parse_agent session results server c e in
        (rw (done, value) refl, rw (done, after) (push-IsCached saved refl c.counts))
