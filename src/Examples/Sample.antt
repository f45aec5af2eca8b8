-- ===== src/Examples/Sample.antt =====
-- A session with the token "token-1" of a Chrome: a test of the API css is running, one of css and
-- one of dom are pending.
use wmas.Prelude.{ℕ, String, Bool, false, Option, none, some, List, [], ◌∷◌, starts_with}
use wmas.Data.{Session, TestList, TestResult, running, number, ApiState, Status}
use wmas.Server.{Server, Env, Timer, Client, UserAgent}

abbrev pub chrome : String → UserAgent
chrome user_agent = record { family = "Chrome"; major = some "67"; minor = some "0"; patch = none }

-- A pattern without special characters matches at the front of the text.
abbrev pub env : Env
env = record {
  re_match = λ pattern text. some (starts_with text pattern);
  parse_agent = chrome;
  persisting_interval = 20;
  import_enabled = false;
}

abbrev pub css_a : String
css_a = "/css/a.html"

abbrev pub css_b : String
css_b = "/css/b.html"

abbrev pub dom_x : String
dom_x = "/dom/x-manual.https.html"

abbrev pub pending_tests : TestList
pending_tests = ("css", css_b ∷ []) ∷ ("dom", dom_x ∷ []) ∷ []

abbrev pub running_tests : TestList
running_tests = ("css", css_a ∷ []) ∷ []

abbrev pub state_of : ℕ → ApiState
state_of total = record {
  pass = 0;
  fail = 0;
  timeout = 0;
  not_run = 0;
  total = total;
  complete = 0;
}

abbrev pub session_in : Status → Bool → Option TestList → Session
session_in status is_public running_tests = record {
  token = "token-1";
  types = "automatic" ∷ "manual" ∷ [];
  user_agent = "Mozilla/5.0";
  labels = [];
  tests = ("include", "/" ∷ []) ∷ ("exclude", []) ∷ [];
  pending_tests = some pending_tests;
  running_tests = running_tests;
  timeouts = ("automatic", 60000) ∷ ("manual", 300000) ∷ [];
  status = status;
  test_state = some (("css", state_of 2) ∷ ("dom", state_of 1) ∷ []);
  last_completed_test = none;
  recent_completed_count = 0;
  date_started = some 1000;
  date_finished = none;
  is_public = is_public;
  reference_tokens = [];
  browser = some (record { name = "Chrome"; version = "67.0" });
  webhook_urls = [];
  expiration_date = some 900000;
  malfunctioning_tests = [];
}

abbrev pub session : Session
session = session_in running false (some running_tests)

abbrev pub client : Client
client = record { session_token = "token-1"; id = 1 }

abbrev pub timer : Timer
timer = record { test = css_a; token = "token-1"; millis = 60000 }

-- The timer that the session "token-2" started for the same test.
abbrev pub other_timer : Timer
other_timer = record { test = css_a; token = "token-2"; millis = 60000 }

abbrev pub server_with : Session → List Timer → Server
server_with session timeouts = record {
  sessions = ("token-1", session) ∷ [];
  results = [];
  timeouts = timeouts;
  clients = ("token-1", client ∷ []) ∷ [];
  disk = [];
  expiration_timer = none;
  automatic = ("css", css_a ∷ css_b ∷ []) ∷ [];
  manual = ("dom", dom_x ∷ []) ∷ [];
  sent = [];
  reports = [];
  clock = 5000;
}

abbrev pub server : Server
server = server_with session (timer ∷ [])

abbrev pub posted : String → TestResult
posted test = record {
  test = test;
  status = number 0;
  message = none;
  stack = some "at line 1";
  tests = some (
      (record {
        title = some "first";
        status = number 1;
        message = none;
        stack = none;
        xstatus = none;
      })
      ∷ []);
  subtests = none;
}
