-- ===== src/Data/Serial.antt =====
-- A session as a dictionary, and back: tools/wave/utils/serializer.py and
-- tools/wave/utils/deserializer.py. A key that the dictionary lacks is `none`.
use wmas.Prelude.{
  ℕ, String, Bool, false, Option, none, some, List, [], ◌∷◌, ◌++◌, if◌then◌else◌, or_else, ◌≡◌,
  refl, starts_with,
}
use wmas.Prelude.Dict.{Dict, get, put}
use mathlib.Core.Option
use wmas.Data.{Session, Status, unknown, TestList, ApiState, Browser}

pub record SessionDict : Type 0 where
  pub token : Option String
  pub types : Option (List String)
  pub user_agent : Option String
  pub labels : Option (List String)
  pub timeouts : Option (Dict ℕ)
  pub test_state : Option (Option (Dict ApiState))
  pub last_completed_test : Option (Option String)
  pub tests : Option TestList
  pub path : Option String
  pub pending_tests : Option (Option TestList)
  pub running_tests : Option (Option TestList)
  pub status : Option Status
  pub browser : Option (Option Browser)
  pub date_started : Option (Option ℕ)
  pub date_finished : Option (Option ℕ)
  pub is_public : Option Bool
  pub reference_tokens : Option (List String)
  pub webhook_urls : Option (List String)
  pub expiration_date : Option (Option ℕ)
  pub malfunctioning_tests : Option (List String)

unfoldable pub serialize_session : Session → SessionDict
serialize_session session = record {
  token = some session.token;
  types = some session.types;
  user_agent = some session.user_agent;
  labels = some session.labels;
  timeouts = some session.timeouts;
  test_state = some session.test_state;
  last_completed_test = some session.last_completed_test;
  tests = some session.tests;
  path = none;
  pending_tests = some session.pending_tests;
  running_tests = some session.running_tests;
  status = some session.status;
  browser = some session.browser;
  date_started = some session.date_started;
  date_finished = some session.date_finished;
  is_public = some session.is_public;
  reference_tokens = some session.reference_tokens;
  webhook_urls = some session.webhook_urls;
  expiration_date = some session.expiration_date;
  malfunctioning_tests = some session.malfunctioning_tests;
}

-- `path.split(", ")`
unfoldable pub split_comma_space : String → List String
split_comma_space String.[] = "" ∷ []
split_comma_space (String.◌∷◌ c String.[]) = String.◌∷◌ c "" ∷ []
split_comma_space (String.◌∷◌ c (String.◌∷◌ d s)) =
    let after = split_comma_space s in
    let rest = split_comma_space (String.◌∷◌ d s) in
    if starts_with (String.◌∷◌ c (String.◌∷◌ d "")) ", "
    then "" ∷ after
    else elim rest [ [] ↦ String.◌∷◌ c "" ∷ [] | w ∷ ws ↦ String.◌∷◌ c w ∷ ws ]

-- The default `{"include": [], "exclude": []}`.
abbrev pub no_tests : TestList
no_tests = ("include", []) ∷ ("exclude", []) ∷ []

-- `tests["include"] = tests["include"] + test_paths`, where the key may be missing.
unfoldable pub with_path : Option String → TestList → Option TestList
unfolding split_comma_space get put
with_path none tests = some tests
with_path (some path) tests =
    Option.map (λ include. put "include" (include ++ split_comma_space path) tests)
      (get "include" tests)

abbrev session_with : SessionDict → TestList → Session
session_with dict tests = record {
  token = or_else dict.token "";
  types = or_else dict.types [];
  user_agent = or_else dict.user_agent "";
  labels = or_else dict.labels [];
  tests = tests;
  pending_tests = or_else dict.pending_tests none;
  running_tests = or_else dict.running_tests none;
  timeouts = or_else dict.timeouts [];
  status = or_else dict.status unknown;
  test_state = or_else dict.test_state none;
  last_completed_test = or_else dict.last_completed_test none;
  recent_completed_count = 0;
  date_started = or_else dict.date_started none;
  date_finished = or_else dict.date_finished none;
  is_public = or_else dict.is_public false;
  reference_tokens = or_else dict.reference_tokens [];
  browser = or_else dict.browser none;
  webhook_urls = or_else dict.webhook_urls [];
  expiration_date = or_else dict.expiration_date none;
  malfunctioning_tests = or_else dict.malfunctioning_tests [];
}

-- `none` is the KeyError for `tests` with no "include".
unfoldable pub deserialize_session : SessionDict → Option Session
unfolding with_path
deserialize_session dict =
    Option.map (session_with dict) (with_path dict.path (or_else dict.tests no_tests))

-- `create_info_file` of results_manager.py drops two keys before it writes.
unfoldable pub info_of : Session → SessionDict
unfolding serialize_session
info_of session =
    let dict = serialize_session session in
    record dict { running_tests = none; pending_tests = none }

-- A dictionary made of a session gives the session back, but for the count of the results since
-- the last save, which starts again at 0.
pub deserialize-serialize :
    (s : Session)
    → deserialize_session (serialize_session s) ≡ some (record s { recent_completed_count = 0 })
unfolding deserialize_session serialize_session
deserialize-serialize s = refl

-- What is read back from the info file of a session is the session without its pending and
-- running tests, and with 0 as the number of results since the last save.
pub deserialize-info :
    (s : Session)
    → deserialize_session (info_of s)
      ≡ some (record s { recent_completed_count = 0; pending_tests = none; running_tests = none })
unfolding deserialize_session info_of
deserialize-info s = refl
