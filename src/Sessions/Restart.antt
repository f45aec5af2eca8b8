-- ===== src/Sessions/Restart.antt =====
-- A session that is saved and read again by a server that was started anew: `create_info_file`
-- of tools/wave/testing/results_manager.py, and `read_session` of
-- tools/wave/testing/sessions_manager.py.
use wmas.Prelude.{none, some, [], ◌≡◌, refl, arith, eq_refl}
use wmas.Prelude.Dict.{Dict, get, put, get-put}
use wmas.Data.{Session, ApiState}
use wmas.Data.Serial.{info_of, deserialize-info}
use wmas.Exec.{ok, value, after}
use wmas.Server.{Server, Directory}
use wmas.Files.{create_info_file, set_info}
use wmas.Sessions.{
  push_session, read_session, load_session, load_session_info, restore_test_state, usable,
}

-- A server that is started on the same results directory: nothing is cached.
abbrev pub restarted : Server → Server
restarted server = record server {
  sessions = [];
  results = [];
  timeouts = [];
  clients = [];
  expiration_timer = none;
}

-- What is read back of a session.
abbrev pub read_back : Session → Session
read_back session = record session {
  recent_completed_count = 0;
  pending_tests = none;
  running_tests = none;
}

module _ (session : Session) {directory : Directory} {states : Dict ApiState} (server : Server)
    (on_disk : get session.token server.disk ≡ some directory)
    (counts : session.test_state ≡ some states) where
  create_info_file-eq : create_info_file session server ≡ (ok tt, set_info session directory server)
  unfolding create_info_file
  create_info_file-eq = simp on_disk refl

  load_session_info-eq :
      load_session_info session.token (restarted (set_info session directory server)) ≡ (
        ok (some (read_back session)),
        push_session (read_back session) (restarted (set_info session directory server)),
      )
  unfolding load_session_info set_info
  load_session_info-eq =
      let saved = record directory { info = some (info_of session) } in
      let found : get session.token (put session.token saved server.disk) ≡ some saved =
        ground
          (arith, get-put session.token session.token saved server.disk, eq_refl session.token) in
      ground (arith, found, deserialize-info session)

  read_session-eq : read_session session.token (restarted (set_info session directory server)) ≡ (
    ok (some (read_back session)),
    push_session (read_back session) (
        push_session
          (read_back session)
          (push_session (read_back session) (restarted (set_info session directory server)))),
  )
  unfolding read_session load_session restore_test_state get usable
  read_session-eq = simp load_session_info-eq (simp counts refl)

  -- For a session with counts whose directory is there: saving its info file succeeds, and a server
  -- that is started on that directory reads the session back, all but its pending and running
  -- tests and the number of results since the last save; it is cached under its token.
  pub read_session-restarted :
      (value (create_info_file session) server ≡ ok tt)
      × (value (read_session session.token) (restarted (after (create_info_file session) server))
          ≡ ok (some (read_back session)))
      × (get session.token
            (after
              (read_session session.token)
              (restarted (after (create_info_file session) server))).sessions
          ≡ some (read_back session))
  unfolding push_session
  read_session-restarted = ground (
    arith,
    create_info_file-eq,
    read_session-eq,
    eq_refl session.token,
    get-put session.token session.token (read_back session)
        (push_session (read_back session) (
          push_session (read_back session)
            (restarted (set_info session directory server)))).sessions,
  )
