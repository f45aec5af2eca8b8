-- ===== src/Persist.antt =====
-- Writing the results of a session to its directory: the rest of
-- tools/wave/testing/results_manager.py that `create_result` and `pause_session` need. The
-- parameter stands for `ParseUserAgent` of the package ua_parser.
pub mod Flush
pub mod Saving
use wmas.Prelude.{
  ℕ, String, Bool, true, false, Option, none, some, List, [], ◌∷◌, ◌++◌, ◌==◌, if◌then◌else◌,
  or_else, find_first,
}
use wmas.Prelude.Dict.{Dict, get, has, put, keys}
use wmas.Data.{attribute_error, Session, TestResult, Results}
use wmas.Exec.{Exec, pure, raise, gets, modify, or_raise, for_each, ◌>>=◌, ◌>>◌}
use wmas.Server.{Server, Directory, ResultFile, UserAgent}
use wmas.Files.{browser_of, json_name, read_from_cache, clear_cache_api, create_info_file}
use wmas.Sessions.{push_session, read_session}

module _ (parse_agent : String → UserAgent) where
  -- The file name of `get_json_path`, which reads the session for its browser.
  unfoldable pub get_json_name : String → Exec Server String
  get_json_name token = do
    found ← read_session token
    session ← or_raise attribute_error found
    pure (json_name (browser_of (parse_agent session.user_agent)))

  -- The results are appended to the file, or the file is made.
  unfoldable pub append_results : String → List TestResult → List ResultFile → List ResultFile
  append_results file_name results [] = (record { name = file_name; results = results }) ∷ []
  append_results file_name results (file ∷ files) =
      let rest = append_results file_name results files in
      if file.name == file_name
      then (record file { results = file.results ++ results }) ∷ files
      else file ∷ rest

  abbrev empty_directory : Directory
  empty_directory = record { info = none; apis = [] }

  -- `_ensure_results_directory_existence` and the writing of the file.
  unfoldable pub write_results : String → String → String → List TestResult → Server → Server
  write_results token api file_name results server =
      let directory = or_else (get token server.disk) empty_directory in
      let files = or_else (get api directory.apis) [] in
      record server {
        disk =
            put token
              (record directory {
                apis = put api (append_results file_name results files) directory.apis;
              })
              server.disk;
      }

  -- `save_api_results` behind its first test, on the results of the API in the cache.
  unfoldable pub save_cached : String → String → Option (List TestResult) → Exec Server (Unit {0})
  save_cached token api none = pure tt
  save_cached token api (some results) = do
    read_session token
    file_name ← get_json_name token
    modify (write_results token api file_name results)

  -- `save_api_results`
  unfoldable pub save_api_results : String → String → Exec Server (Unit {0})
  save_api_results token api = do
    cached ← gets (λ server. get api (read_from_cache server token))
    save_cached token api cached

  -- The body of the loop in `persist_session`.
  unfoldable pub persist_api : Session → String → Exec Server (Unit {0})
  persist_api session api = do
    save_api_results session.token api
    create_info_file session
    modify (clear_cache_api session.token api)

  -- `persist_session` behind its first test, on the results of the session in the cache.
  unfoldable pub persist_cached : Session → Option Results → Exec Server Session
  persist_cached session none = pure session
  persist_cached session (some results) = do
    for_each (persist_api session) (keys results)
    let saved = record session { recent_completed_count = 0 }
    modify (push_session saved)
    pure saved

  -- `persist_session`; the result is the session as it leaves it.
  unfoldable pub persist_session : Session → Exec Server Session
  persist_session session = do
    cached ← gets (λ server. get session.token server.results)
    persist_cached session cached
