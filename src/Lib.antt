-- ===== src/Lib.antt =====
-- WMAS2017 test server: the session server of tools/wave, which hands the web platform tests of a
-- session to a device, collects the results and keeps them.
--
-- Parts and files. `Server` is the state that the managers share: the cache of sessions, the cache
-- of results, the running timers, the registered clients, the results directory, the loaded tests
-- and the clock. A method is an action on it (`Exec`): it returns or raises, and what it wrote
-- before a raise stays written.
--   Data, Data/Serial    tools/wave/data/session.py, utils/serializer.py, utils/deserializer.py
--   TestList             the lists of tests of tools/wave/testing/tests_manager.py
--   Results              the pure part of tools/wave/testing/results_manager.py
--   Loader               tools/wave/testing/test_loader.py
--   Files, Persist       the results directory: tools/wave/testing/results_manager.py, and
--                        tools/wave/utils/user_agent_parser.py
--   Events               tools/wave/testing/event_dispatcher.py
--   Sessions, Lifecycle, Expiry, Configure   tools/wave/testing/sessions_manager.py
--   Tests                the rest of tools/wave/testing/tests_manager.py
--   Complete             `create_result` of results_manager.py, `_on_test_timeout` of tests_manager.py
--   Api                  tools/wave/network/http_handler.py and tools/wave/network/api
--   Wptserve/Ranges      tools/wptserve/wptserve/ranges.py, the header Range
--   Manifest/Variants, Names, Content, References, Classify
--                        tools/manifest/sourcefile.py and tools/manifest/utils.py
--   Manifest/Items       tools/manifest/item.py
--   Manifest/TypeData, Reftests, Update   tools/manifest/manifest.py
--   Gitignore            tools/gitignore/gitignore.py
--   Prelude, Exec, Checked   shared helpers; Examples holds a small server and runs on it
-- A definition has the name of the method that it models, without a leading underscore. The modules
-- below a part hold lemmas, named for what they are about.
--
-- How they interact. The handlers of Api read the request and call the managers. `next_test` moves a
-- test from the pending to the running tests of a session and starts a timer; `create_result`, for
-- a posted result or a timer that fires, completes the test, counts the result, saves the session
-- from time to time and completes it after its last test. Every change of a session is written to
-- the cache of sessions, and start, pause, stop and complete send a status event to the clients.
--
-- The manifest is made beside the server: `manifest_items` looks at the name of a file, then at its
-- content, and returns the items of the file; `to_json` and `from_json` write and read them. `update`
-- visits the files of a tree, records their hashes and types, files their items in the table of their
-- type, deletes what is gone and decides again which reftests are tests. What a file's hash is, is a
-- parameter. The cache of files that all items share is a field of the manifest in the model.
--
-- Objects. Python shares session objects; the model holds a session's value in the cache at its
-- token and writes it there at each change, also at those that the code makes in place. Dictionaries
-- are lists of entries in the order of insertion; lists that Python sorts with a comparison that is
-- no order are sorted by insertion. Dates are milliseconds and times are natural numbers.
--
-- Bounds and fuel. `scan_fuel` counts the steps of the loop of `_get_next_test_from_list`: four
-- passes, one step for each test and one for each API; the loop ends within it. `digits` writes a
-- number with at most one digit more than its value.
--
-- Parameters. `Env` stands for the matching of regular expressions, which may fail to compile, the
-- package ua_parser, the saving interval and the import switch; the token of a new session is an
-- argument. `Environment` stands for the file system, the parsers of HTML and XML, the spaces of
-- html5lib, the decoding of UTF-8 and `urljoin`, which may refuse a URL. A parsed document is the
-- list of the elements below its root. Text is read as ASCII where white
-- space and letters matter, and paths are POSIX paths. `Regexps` stands for the engine of regular
-- expressions in Gitignore.
--
-- Not modelled: ZIP downloads and import, reports over several sessions, read_last_completed_tests,
-- static files, the configuration file and the start of the server, which are input and output; of
-- tools/manifest the hash of a file, the walk over the file system, and the iterators and the JSON
-- of the whole manifest; the rest of wptserve, which works on sockets and processes; wptrunner, lint,
-- webdriver, and the copies of other projects, as pywebsocket and third_party.
pub mod Prelude
pub mod Data
pub mod Exec
pub mod Checked
pub mod Server
pub mod TestList
pub mod Results
pub mod Loader
pub mod Files
pub mod Events
pub mod Sessions
pub mod Persist
pub mod Lifecycle
pub mod Expiry
pub mod Configure
pub mod Tests
pub mod Complete
pub mod Api
pub mod Wptserve
pub mod Manifest
pub mod Gitignore
pub mod Examples
