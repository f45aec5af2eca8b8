-- ===== src/Data.antt =====
-- The data of a test session: tools/wave/data/session.py, the exceptions of
-- tools/wave/data/exceptions, and the result of a test as the device posts it
-- (tools/wave/testing/results_manager.py).
pub mod Serial
use wmas.Prelude.{
  ℕ, zero, suc, ◌+◌, String, Bool, true, false, Option, none, some, List, [], ◌∷◌, ◌==◌, eqb,
}
use wmas.Prelude.Dict.{Dict}

-- What the code raises, and what Python raises in it.
pub data Error : Type 0 where
  not_found invalid_data duplicate permission_denied : Error
  key_error type_error attribute_error value_error index_error io_error : Error
  assertion_error : Error
  -- `re.error`, for an expression that does not compile, and `UnicodeDecodeError`
  re_error unicode_error : Error
  -- `HTTPException` of wptserve
  http_exception : (code : ℕ) → Error

pub data Status : Type 0 where
  paused running completed aborted pending unknown : Status

-- The test paths of an API, API by API: `{api: [test, ...]}`.
abbrev pub TestList : Type 0
TestList = Dict (List String)

pub record ApiState : Type 0 where
  pub pass : ℕ
  pub fail : ℕ
  pub timeout : ℕ
  pub not_run : ℕ
  pub total : ℕ
  pub complete : ℕ

pub record Browser : Type 0 where
  pub name : String
  pub version : String

-- `tests` holds the lists under "include" and "exclude". `none` in `pending_tests`,
-- `running_tests` and `test_state` is the `None` of a session that was read from a file.
pub record Session : Type 0 where
  pub token : String
  pub types : List String
  pub user_agent : String
  pub labels : List String
  pub tests : TestList
  pub pending_tests : Option TestList
  pub running_tests : Option TestList
  pub timeouts : Dict ℕ
  pub status : Status
  pub test_state : Option (Dict ApiState)
  pub last_completed_test : Option String
  pub recent_completed_count : ℕ
  pub date_started : Option ℕ
  pub date_finished : Option ℕ
  pub is_public : Bool
  pub reference_tokens : List String
  pub browser : Option Browser
  pub webhook_urls : List String
  pub expiration_date : Option ℕ
  pub malfunctioning_tests : List String

-- A status in a posted result: a number or a name.
pub data RawStatus : Type 0 where
  number : ℕ → RawStatus
  name : String → RawStatus

-- `status == s`
unfoldable pub is_status : RawStatus → String → Bool
is_status (number n) s = false
is_status (name t) s = t == s

pub record Subtest : Type 0 where
  pub title : Option String
  pub status : RawStatus
  pub message : Option String
  pub stack : Option String
  pub xstatus : Option String

pub record TestResult : Type 0 where
  pub test : String
  pub status : RawStatus
  pub message : Option String
  pub stack : Option String
  pub tests : Option (List Subtest)
  pub subtests : Option (List Subtest)

abbrev pub Results : Type 0
Results = Dict (List TestResult)

unfoldable pub same_status : Status → Status → Bool
same_status paused paused = true
same_status running running = true
same_status completed completed = true
same_status aborted aborted = true
same_status pending pending = true
same_status unknown unknown = true
same_status _ _ = false
