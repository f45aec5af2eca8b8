-- ===== src/Files.antt =====
-- The results directory and the cache before it: the functions of
-- tools/wave/testing/results_manager.py that read and write files, with no session at hand, and
-- tools/wave/utils/user_agent_parser.py. A JSON file is the value that it holds, and the directory
-- of an API the list of its files, in the order in which they are listed.
use wmas.Prelude.{
  ℕ, zero, suc, String, Bool, true, false, not, ◌&&◌, ◌||◌, Option, none, some, List, [], ◌∷◌, ◌++◌,
  eqb, leb, if◌then◌else◌, codes, ◌+s◌, text_length, split, or_else, find_first, codes_eq, lower,
  without_char,
}
use wmas.Prelude.Dict.{Dict, get, put, del}
use wmas.Data.{key_error, io_error, re_error, Session, TestList, TestResult, Results, Browser}
use wmas.Data.Serial.{info_of}
use wmas.Exec.{Result, ok, raised, Exec, gets, modify, or_raise, ◌>>=◌}
use wmas.Server.{Server, Directory, ResultFile, UserAgent}
use wmas.TestList.{api_of, first}
use wmas.Results.{combine_results_by_api, note_sessions}

abbrev is_digit : ℕ → Bool
is_digit c = leb b'0' c && leb c b'9'

-- `\w`, of an ASCII character
abbrev is_word : ℕ → Bool
is_word c = leb b'a' c && leb c b'z' || leb b'A' c && leb c b'Z' || is_digit c || eqb c b'_'

abbrev codes_start_with : List ℕ → List ℕ → Bool
codes_start_with text [] = true
codes_start_with [] (d ∷ ds) = false
codes_start_with (c ∷ cs) (d ∷ ds) = eqb c d && codes_start_with cs ds

-- `\d{1,n}\.json`
abbrev digits_json : ℕ → List ℕ → Bool
digits_json zero text = false
digits_json (suc n) [] = false
digits_json (suc n) (d ∷ rest) =
    is_digit d && (codes_start_with rest (codes ".json") || digits_json n rest)

abbrev matches_name : List ℕ → Bool
matches_name (a ∷ b ∷ rest) = is_word a && is_word b && digits_json 3 rest
matches_name _ = false

-- `re.match(r"\w\w\d{1,3}\.json", file_name)`
unfoldable pub is_result_file : ResultFile → Bool
is_result_file file = matches_name (codes file.name)

-- The loop of `load_results` over the directories of the APIs.
unfoldable pub load_apis : Dict (List ResultFile) → Results
load_apis [] = []
load_apis ((api, files) ∷ d) = elim (find_first is_result_file files) [
  | none ↦ load_apis d
  | some file ↦ (api, file.results) ∷ load_apis d
]

-- `load_results`
unfoldable pub load_results : Server → String → Results
load_results server token = elim (get token server.disk) [
  | none ↦ []
  | some directory ↦ load_apis directory.apis
]

-- `_read_from_cache`
unfoldable pub read_from_cache : Server → String → Results
read_from_cache server token = or_else (get token server.results) []

-- `_push_to_cache`
unfoldable pub push_to_cache : String → TestResult → Server → Server
push_to_cache token result server =
    let cached = or_else (get token server.results) [] in
    let api = api_of result.test in
    let results = or_else (get api cached) [] ++ result ∷ [] in
    record server { results = put token (put api results cached) server.results }

-- `_clear_cache_api`
unfoldable pub clear_cache_api : String → String → Server → Server
clear_cache_api token api server = elim (get token server.results) [
  | none ↦ server
  | some cached ↦ record server { results = put token (del api cached) server.results }
]

-- The info file of a session is written into its directory.
unfoldable pub set_info : Session → Directory → Server → Server
set_info session directory server = record server {
  disk = put session.token (record directory { info = some (info_of session) }) server.disk;
}

-- `create_info_file`; opening the file fails where the directory is missing.
unfoldable pub create_info_file : Session → Exec Server (Unit {0})
create_info_file session = do
  found ← gets (λ server. get session.token server.disk)
  directory ← or_raise io_error found
  modify (set_info session directory)

-- `delete_results`
unfoldable pub delete_results : String → Server → Server
delete_results token server = record server { disk = del token server.disk }

-- `none` of `re_match` is an expression that does not compile.
module _ (re_match : (pattern text : String) → Option Bool) where
  -- The conditions of `read_results` on an API and on a result.
  abbrev wanted_api : Option String → String → Bool
  wanted_api none api = true
  wanted_api (some filter_path) api =
      codes_eq (lower api) (lower (or_else (first (split b'/' filter_path)) ""))

  abbrev wanted_result : Option String → TestResult → Option Bool
  wanted_result none result = some true
  wanted_result (some filter_path) result =
      re_match (without_char b'.' filter_path) (without_char b'.' result.test)

  unfoldable pub filter_api_results :
      Option String → String → List TestResult → Results → Result Results
  filter_api_results filter_path api [] filtered = ok filtered
  filter_api_results filter_path api (result ∷ rest) filtered =
      elim (wanted_result filter_path result) [
        | none ↦ raised re_error
        | some wanted ↦ filter_api_results filter_path api rest (
            if wanted
            then put api (or_else (get api filtered) [] ++ result ∷ []) filtered
            else filtered)
      ]

  unfoldable pub filter_results : Option String → Results → Results → Result Results
  filter_results filter_path [] filtered = ok filtered
  filter_results filter_path ((api, results) ∷ d) filtered =
      if not (wanted_api filter_path api)
      then filter_results filter_path d filtered
      else elim (filter_api_results filter_path api results filtered) [
        | raised e ↦ raised e
        | ok more ↦ filter_results filter_path d more
      ]

  -- `read_results`
  unfoldable pub read_results : Server → String → Option String → Result Results
  read_results server token filter_path =
      filter_results filter_path
        (combine_results_by_api (read_from_cache server token) (load_results server token)) []

  -- The first loop of `read_common_passed_tests`.
  unfoldable pub read_all_results : Server → List String → Result (List Results)
  read_all_results server [] = ok []
  read_all_results server (token ∷ tokens) = elim (read_results server token none) [
    | raised e ↦ raised e
    | ok results ↦ elim (read_all_results server tokens) [
      | raised e ↦ raised e
      | ok rest ↦ ok (results ∷ rest)
    ]
  ]

  -- `read_common_passed_tests`: the lists are computed, and the function ends with no `return`.
  unfoldable pub read_common_passed_tests : Server → List String → Result (Option TestList)
  read_common_passed_tests server [] = ok none
  read_common_passed_tests server (token ∷ tokens) =
      elim (read_all_results server (token ∷ tokens)) [
        | raised e ↦ raised e
        | ok session_results ↦ elim (note_sessions session_results []) [
          | none ↦ raised key_error
          | some commons ↦ ok none
        ]
      ]

-- `parse_user_agent`, after the package's parser.
unfoldable pub browser_of : UserAgent → Browser
browser_of agent =
    let major = or_else agent.major "0" in
    let minor : String = elim agent.minor [ none ↦ major | some v ↦ major +s "." +s v ] in
    let patch : String = elim agent.patch [ none ↦ minor | some v ↦ minor +s "." +s v ] in
    record { name = agent.family; version = patch }

-- `abbreviate_browser_name`
unfoldable pub abbreviate_browser_name : String → String
abbreviate_browser_name name =
    or_else
      (get name (
        ("Chrome", "Ch")
        ∷ ("Chrome Mobile WebView", "Ch")
        ∷ ("Chromium", "Cm")
        ∷ ("WebKit", "Wk")
        ∷ ("Safari", "Sf")
        ∷ ("Firefox", "FF")
        ∷ ("IE", "IE")
        ∷ ("Edge", "Ed")
        ∷ ("Opera", "Op")
        ∷ []))
      "Xx"

-- `version.zfill(2)`; a version of the program has no sign.
abbrev zfill_two : String → String
zfill_two version = elim (text_length version) [
  | zero ↦ "00"
  | suc zero ↦ "0" +s version
  | suc (suc n) ↦ version
]

-- The file name in `get_json_path`.
unfoldable pub json_name : Browser → String
json_name browser =
    let major = or_else (first (split b'.' browser.version)) "" in
    abbreviate_browser_name browser.name +s zfill_two major +s ".json"
