-- ===== src/Server.antt =====
-- The state that the managers of tools/wave/testing share, as one record, and what the program
-- takes from outside of the repository.
use wmas.Prelude.{ℕ, String, Bool, Option, List}
use wmas.Prelude.Dict.{Dict}
use wmas.Data.{Session, Status, TestList, TestResult, Results}
use wmas.Data.Serial.{SessionDict}

-- An entry of `TestsManager._timeouts`: `Timer(seconds, handler, [self, token, test])`.
pub record Timer : Type 0 where
  pub test : String
  pub token : String
  pub millis : ℕ

-- `HttpPollingClient`; `id` tells objects of equal tokens apart.
pub record Client : Type 0 where
  pub session_token : String
  pub id : ℕ

pub data Event : Type 0 where
  status_event : (status : Status) → Event
  resume_event : (resume_token : Option String) → Event
  test_completed_event : (test : String) → Event

-- The JSON file of an API in a results directory, by the value that it holds.
pub record ResultFile : Type 0 where
  pub name : String
  pub results : List TestResult

-- The directory `results/<token>`: its info.json, and the directories of the APIs.
pub record Directory : Type 0 where
  pub info : Option SessionDict
  pub apis : Dict (List ResultFile)

pub record Server : Type 0 where
  pub sessions : Dict Session
  pub results : Dict Results
  pub timeouts : List Timer
  pub clients : Dict (List Client)
  pub disk : Dict Directory
  pub expiration_timer : Option ℕ
  pub automatic : TestList
  pub manual : TestList
  -- what left the server, the newest first: messages, and reports made by `wptreport`
  pub sent : List (Client × Event)
  pub reports : List (String × String)
  -- milliseconds since the epoch
  pub clock : ℕ

-- What `ParseUserAgent` of the package ua_parser returns.
pub record UserAgent : Type 0 where
  pub family : String
  pub major : Option String
  pub minor : Option String
  pub patch : Option String

-- What is not in the repository: the matching of the regular expression `^pattern` on a text, where
-- `none` is an expression that does not compile; the package ua_parser; and the configuration.
pub record Env : Type 0 where
  pub re_match : (pattern text : String) → Option Bool
  pub parse_agent : String → UserAgent
  pub persisting_interval : ℕ
  pub import_enabled : Bool
