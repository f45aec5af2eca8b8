-- ===== src/Lifecycle/Statuses.antt =====
-- The statuses of a session and the transitions between them, for the methods of
-- tools/wave/testing/sessions_manager.py that change a session's status.
use wmas.Prelude.{Bool, true, not, ◌&&◌, ◌||◌, if◌then◌else◌, ◌≡◌, refl, sym, subst}
use wmas.Data.{Status, paused, running, completed, aborted, pending, unknown, same_status}

-- The transitions that the methods make.
pub data Transition : Status → Status → Type 0 where
  start : Transition pending running
  resume : Transition paused running
  pause : Transition running paused
  stop_pending : Transition pending aborted
  stop_running : Transition running aborted
  stop_paused : Transition paused aborted
  stop_unknown : Transition unknown aborted
  complete_pending : Transition pending completed
  complete_running : Transition running completed
  complete_paused : Transition paused completed
  complete_unknown : Transition unknown completed

-- A method of the life of a session.
pub data Method : Type 0 where
  start_method pause_method stop_method complete_method : Method

-- The status of a session stays, or makes one of the transitions.
pub data Moves (old new : Status) : Type 0 where
  stays : old ≡ new → Moves old new
  goes : Transition old new → Moves old new

pub start_moves :
    (s : Status)
    → Moves s (if not (same_status s pending) && not (same_status s paused) then s else running)
unfolding same_status
start_moves paused = goes resume
start_moves pending = goes start
start_moves running = stays refl
start_moves completed = stays refl
start_moves aborted = stays refl
start_moves unknown = stays refl

pub pause_moves : (s : Status) → Moves s (if not (same_status s running) then s else paused)
unfolding same_status
pause_moves running = goes pause
pause_moves paused = stays refl
pause_moves pending = stays refl
pause_moves completed = stays refl
pause_moves aborted = stays refl
pause_moves unknown = stays refl

abbrev pub finished : Status → Bool
finished s = same_status s aborted || same_status s completed

pub stop_moves : (s : Status) → Moves s (if finished s then s else aborted)
unfolding same_status
stop_moves running = goes stop_running
stop_moves paused = goes stop_paused
stop_moves pending = goes stop_pending
stop_moves unknown = goes stop_unknown
stop_moves completed = stays refl
stop_moves aborted = stays refl

pub complete_moves : (s : Status) → Moves s (if finished s then s else completed)
unfolding same_status
complete_moves running = goes complete_running
complete_moves paused = goes complete_paused
complete_moves pending = goes complete_pending
complete_moves unknown = goes complete_unknown
complete_moves completed = stays refl
complete_moves aborted = stays refl

-- The status that a method leaves.
abbrev pub new_status : Method → Status → Status
new_status start_method s =
    if not (same_status s pending) && not (same_status s paused) then s else running
new_status pause_method s = if not (same_status s running) then s else paused
new_status stop_method s = if finished s then s else aborted
new_status complete_method s = if finished s then s else completed

pub moves : (method : Method) (s : Status) → Moves s (new_status method s)
moves start_method s = start_moves s
moves pause_method s = pause_moves s
moves stop_method s = stop_moves s
moves complete_method s = complete_moves s

-- What statuses can follow one another.
pub data Reach : Status → Status → Type 0 where
  here : {old : Status} → Reach old old
  next : {old mid new : Status} → Transition old mid → Reach mid new → Reach old new

pub Reach-moves : {old mid new : Status} → Moves old mid → Reach mid new → Reach old new
Reach-moves {new = new} (stays e) r = subst (λ (s : Status). Reach s new) (sym e) r
Reach-moves (goes t) r = next t r

pub finished_stays : (method : Method) (s : Status) → finished s ≡ true → new_status method s ≡ s
unfolding same_status
finished_stays start_method completed h = refl
finished_stays start_method aborted h = refl
finished_stays pause_method completed h = refl
finished_stays pause_method aborted h = refl
finished_stays stop_method completed h = refl
finished_stays stop_method aborted h = refl
finished_stays complete_method completed h = refl
finished_stays complete_method aborted h = refl
finished_stays _ paused h = cc
finished_stays _ running h = cc
finished_stays _ pending h = cc
finished_stays _ unknown h = cc
