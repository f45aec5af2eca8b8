-- ===== src/Persist/Flush.antt =====
-- Saving a session: what `persist_session` leaves in the cache of sessions.
use wmas.Prelude.{String, Option, none, some, List, ◌≡◌, refl, arith}
use wmas.Prelude.Dict.{get, keys}
use wmas.Data.{Session, TestResult, Results}
use wmas.Exec.{Result, ok, raised, and_then, after, modify, pure, ◌>>◌, for_each}
use wmas.Server.{Server, UserAgent, Directory}
use wmas.Files.{set_info, create_info_file, clear_cache_api}
use wmas.Sessions.{push_session}
use wmas.Sessions.Cache.{IsCached, push-IsCached}
use wmas.Sessions.Keeping.{Keeps, Keeps-modify, Keeps-for_each, keeps_rules}
use wmas.Persist.{
  get_json_name, write_results, save_cached, persist_cached, save_api_results, persist_api,
  persist_session,
}

clear-sessions :
    (t api : String) (server : Server) → (clear_cache_api t api server).sessions ≡ server.sessions
unfolding clear_cache_api
clear-sessions t api server = ground arith

module _ {token : String} {session : Session} where
  set_info-Keeps : (s : Session) (d : Directory) → Keeps token session (modify (set_info s d))
  unfolding set_info
  set_info-Keeps s d = Keeps-modify (set_info s d) (λ server. refl)

  write-Keeps :
      (parse_agent : String → UserAgent) (t api file : String) (results : List TestResult)
      → Keeps token session (modify (write_results parse_agent t api file results))
  unfolding write_results
  write-Keeps parse_agent t api file results =
      Keeps-modify (write_results parse_agent t api file results) (λ server. refl)

  clear-Keeps : (t api : String) → Keeps token session (modify (clear_cache_api t api))
  clear-Keeps t api = Keeps-modify (clear_cache_api t api) (clear-sessions t api)

  pub info-Keeps : (s : Session) → Keeps token session (create_info_file s)
  unfolding create_info_file
  info-Keeps s = search (keeps_rules, set_info-Keeps)

  module _ (parse_agent : String → UserAgent) where
    pub json_name-Keeps : Keeps token session (get_json_name parse_agent token)
    unfolding get_json_name
    json_name-Keeps = search keeps_rules

    save_cached-Keeps :
        (api : String) (cached : Option (List TestResult))
        → Keeps token session (save_cached parse_agent token api cached)
    unfolding save_cached
    save_cached-Keeps api none = search keeps_rules
    save_cached-Keeps api (some results) = search (keeps_rules, json_name-Keeps, write-Keeps)

    save-Keeps : (api : String) → Keeps token session (save_api_results parse_agent token api)
    unfolding save_api_results
    save-Keeps api = search (keeps_rules, save_cached-Keeps)

module _ {token : String} {session : Session} (parse_agent : String → UserAgent) where
  pub persist_api-Keeps :
      (api : String)
      → session.token ≡ token
      → Keeps token session (persist_api parse_agent session api)
  unfolding persist_api
  persist_api-Keeps api own = rw own (search (keeps_rules, save-Keeps, info-Keeps, clear-Keeps))

  -- The cache after the loop of `persist_session` still holds the session.
  persist_apis-Keeps :
      (apis : List String)
      → session.token ≡ token
      → Keeps token session (for_each (persist_api parse_agent session) apis)
  persist_apis-Keeps apis own =
      Keeps-for_each (persist_api parse_agent session) apis (λ api. persist_api-Keeps api own)

-- A session that may have been saved: its count of recent results may be 0 again.
pub data Saved (session : Session) : Session → Type 0 where
  unsaved : Saved session session
  saved : Saved session (record session { recent_completed_count = 0 })

-- Whether saving a cached session succeeds or fails, the cache holds the session afterwards, as
-- it was or with the count of its recent results at 0.
pub persist_session-cached :
    (parse_agent : String → UserAgent) {token : String} {session : Session} (server : Server)
    → IsCached token session server
    → (session' : Session) × IsCached token session'
        (after (persist_session parse_agent session) server)
      × Saved session session'
unfolding persist_session persist_cached
persist_session-cached parse_agent {token} {session} server c =
    go (get session.token server.results)
  where
    finish :
        (r : Result (Unit {0})) (server' : Server)
        → IsCached token session server'
        → (session' : Session) × IsCached token session'
            (and_then r
              (λ _.
                modify (push_session (record session { recent_completed_count = 0 }))
                >> pure (record session { recent_completed_count = 0 }))
              server').1
          × Saved session session'
    finish (ok a) server' c' = (
      record session { recent_completed_count = 0 },
      push-IsCached server' c.own_token c.counts,
      saved,
    )
    finish (raised e) server' c' = (session, c', unsaved)

    go :
        (cached : Option Results)
        → (session' : Session) × IsCached token session'
            (persist_cached parse_agent session cached server).1
          × Saved session session'
    go none = (session, c, unsaved)
    go (some results) =
        let m = for_each (persist_api parse_agent session) (keys results) in
        finish (m server).0 (m server).1
          ((persist_apis-Keeps parse_agent (keys results) c.own_token).at server c)
