-- ===== src/Configure.antt =====
-- Creating a session and changing its configuration: tools/wave/testing/sessions_manager.py.
-- `env` holds the matching of regular expressions and the package ua_parser; the token of a new
-- session, which `uuid.uuid1` makes, is an argument.
pub mod Creation
pub mod Frozen
use wmas.Prelude.{
  ℕ, String, Bool, true, false, not, ◌&&◌, ◌||◌, Option, none, some, List, [], ◌∷◌, ◌==◌, any_of,
  if◌then◌else◌, length, or_else,
}
use wmas.Prelude.Dict.{Dict, get, has, put}
use wmas.Data.{
  Error, key_error, not_found, invalid_data, Session, Status, pending, same_status, TestList,
  ApiState,
}
use wmas.Exec.{Result, Exec, pure, raise, gets, lift, modify, or_raise, ◌>>=◌, ◌>>◌}
use wmas.Server.{Server, Env}
use wmas.Results.{fresh_state}
use wmas.Loader.{select_types}
use wmas.Files.{read_common_passed_tests, browser_of}
use wmas.Sessions.{push_session, read_session}
use wmas.Expiry.{set_expiration_timer}

-- `d[key] = value` where the key is not in the dictionary.
abbrev pub with_default {ℓ} : {V : Type ℓ} → String → V → Dict V → Dict V
with_default key value d = if has key d then d else put key value d

-- `calculate_test_files_count` of tests_manager.py.
unfoldable pub calculate_test_files_count : TestList → Dict ℕ
calculate_test_files_count [] = []
calculate_test_files_count ((api, tests) ∷ d) = (api, length tests) ∷ calculate_test_files_count d

-- The loop over the counts: the state of the APIs before the first result.
unfoldable pub fresh_states : Dict ℕ → Dict ApiState
fresh_states [] = []
fresh_states ((api, total) ∷ d) = (api, fresh_state total) ∷ fresh_states d

abbrev pub is_test_type : String → Bool
is_test_type type = type == "automatic" || type == "manual"

module _ (env : Env) where
  -- `get_tests` of test_loader.py.
  unfoldable pub get_tests :
      (types include_list exclude_list reference_tokens : List String) → Exec Server TestList
  get_tests types include_list exclude_list reference_tokens = do
    reference ←
        (λ server. lift (read_common_passed_tests env.re_match server reference_tokens) server)
    (λ server.
        lift
          (select_types env.re_match server.automatic server.manual types include_list exclude_list
            reference [])
          server)

  -- The session that `create_session` makes.
  abbrev pub new_session :
      (token : String) (tests : TestList) (types : List String) (timeouts : Dict ℕ)
      (reference_tokens webhook_urls : List String) (user_agent : String) (labels : List String)
      → Option ℕ
      → TestList
      → Session
  new_session token tests types timeouts refs urls user_agent labels expiration pending_tests =
      record {
        token = token;
        types = types;
        user_agent = user_agent;
        labels = labels;
        tests = tests;
        pending_tests = some pending_tests;
        running_tests = some [];
        timeouts = timeouts;
        status = pending;
        test_state = some (fresh_states (calculate_test_files_count pending_tests));
        last_completed_test = none;
        recent_completed_count = 0;
        date_started = none;
        date_finished = none;
        is_public = false;
        reference_tokens = refs;
        browser = some (browser_of (env.parse_agent user_agent));
        webhook_urls = urls;
        expiration_date = expiration;
        malfunctioning_tests = [];
      }

  -- `create_session`
  unfoldable pub create_session :
      (token : String)
      → TestList
      → Option (List String)
      → Dict ℕ
      → (reference_tokens webhook_urls : List String) (user_agent : String) (labels : List String)
      → Option ℕ
      → Exec Server Session
  create_session token tests types timeouts refs urls user_agent labels expiration = do
    let tests' = with_default "exclude" [] (with_default "include" ("/" ∷ []) tests)
    let timeouts' = with_default "manual" 300000 (with_default "automatic" 60000 timeouts)
    let types' = or_else types ("automatic" ∷ "manual" ∷ [])
    if any_of (λ type. not (is_test_type type)) types' then raise invalid_data else (do
      include_list ← or_raise key_error (get "include" tests')
      exclude_list ← or_raise key_error (get "exclude" tests')
      pending_tests ← get_tests types' include_list exclude_list refs
      let session =
          new_session token tests' types' timeouts' refs urls user_agent labels expiration
            pending_tests
      modify (push_session session)
      elim expiration [ none ↦ pure tt | some date ↦ modify set_expiration_timer ]
      pure session)

  -- The tests of the new configuration, completed by those of the session.
  unfoldable pub complete_tests : Session → TestList → Exec Server TestList
  complete_tests session tests = do
    included ← if has "include" tests then pure tests else (do
      old ← or_raise key_error (get "include" session.tests)
      pure (put "include" old tests))
    if has "exclude" included then pure included else (do
      old ← or_raise key_error (get "exclude" session.tests)
      pure (put "exclude" old included))

  unfoldable pub complete_timeouts : Session → Dict ℕ → Exec Server (Dict ℕ)
  complete_timeouts session timeouts = do
    automatic ← if has "automatic" timeouts then pure timeouts else (do
      old ← or_raise key_error (get "automatic" session.timeouts)
      pure (put "automatic" old timeouts))
    if has "manual" automatic then pure automatic else (do
      old ← or_raise key_error (get "manual" session.timeouts)
      pure (put "manual" old automatic))

  -- `if tests is not None` of `update_session_configuration`.
  unfoldable pub update_tests_part :
      Session → TestList → (types reference_tokens : List String) → Exec Server Session
  update_tests_part session tests types refs = do
    complete ← complete_tests session tests
    include_list ← or_raise key_error (get "include" complete)
    exclude_list ← or_raise key_error (get "exclude" complete)
    pending_tests ← get_tests types include_list exclude_list refs
    let changed = record session {
      pending_tests = some pending_tests;
      tests = complete;
      test_state = some (fresh_states (calculate_test_files_count pending_tests));
    }
    modify (push_session changed)
    pure changed

  -- `update_session_configuration`; the result is `None` where the session is not pending.
  unfoldable pub update_session_configuration :
      String
      → (tests : Option TestList) (types : Option (List String)) (timeouts : Option (Dict ℕ))
        (reference_tokens webhook_urls : Option (List String))
      → Exec Server (Option Session)
  update_session_configuration token tests types timeouts refs urls = do
    found ← read_session token
    session ← or_raise not_found found
    if not (same_status session.status pending) then pure none else (do
      let given = is_given tests
      let types' = if given then some (or_else types session.types) else types
      let refs' = if given then some (or_else refs session.reference_tokens) else refs
      tested ← elim tests [
        | none ↦ pure session
        | some new ↦ update_tests_part session new (or_else types' []) (or_else refs' [])
      ]
      let typed = record tested { types = or_else types' tested.types }
      modify (push_session typed)
      timed ← elim timeouts [
        | none ↦ pure typed
        | some new ↦ (do
          complete ← complete_timeouts typed new
          pure (record typed { timeouts = complete }))
      ]
      let updated = record timed {
        reference_tokens = or_else refs' timed.reference_tokens;
        webhook_urls = or_else urls timed.webhook_urls;
      }
      modify (push_session updated)
      pure (some updated))
    where
      is_given : Option TestList → Bool
      is_given none = false
      is_given (some t) = true
