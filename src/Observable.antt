-- ===== src/Observable.antt =====
-- pkg/executor/observable: an executor that tells listeners about the tasks it runs. A listener is
-- a number. Each message to a listener is a goroutine of the session's wait group: it is pending
-- until it runs. A session's `*observSession` is a reference.
pub mod Messages
pub mod Delivery
pub mod Owned
pub mod Scheduled
mod Tests
use bonk.Base.{
  ℕ, suc, String, Bool, true, false, List, [], ◌∷◌, ◌++◌, Option, none, some, if◌then◌else◌, nat_eq,
  ◌≡◌,
}
use bonk.Errors.{Error, unopened_session, wrap}
use bonk.Task.Value.{Task, Session}
use bonk.Task.Result.{Result}
use bonk.Executor.{Executor}

-- `TaskStatus`
pub data TaskStatus : Type 0 where
  status_none status_running status_success status_error : TaskStatus

pub record TaskStatusMsg : Type 0 where
  pub task_id : String
  pub status : TaskStatus
  pub error : Option Error

unfoldable pub task_running_msg : String → TaskStatusMsg
task_running_msg id = record { task_id = id; status = status_running; error = none }

unfoldable pub task_finished_msg : String → Option Error → TaskStatusMsg
task_finished_msg id (some err) = record { task_id = id; status = status_error; error = some err }
task_finished_msg id none = record { task_id = id; status = status_success; error = none }

-- A goroutine that is to call a listener, in the wait group of a session.
pub record Pending : Type 0 where
  pub session_ref : ℕ
  pub listener : ℕ
  pub msg : TaskStatusMsg

pub record Observ (W : Type 0) : Type 0 where
  pub world : W
  -- `obs.sessions`
  pub sessions : List (ℕ × ℕ)
  pub next_ref : ℕ
  pub listeners : List ℕ
  pub pending : List Pending
  -- the calls of listeners that were made, the latest last
  pub log : List Pending

unfoldable pub find_session : ℕ → List (ℕ × ℕ) → Option ℕ
find_session id [] = none
find_session id ((i, ref) ∷ rest) = if nat_eq i id then some ref else find_session id rest

unfoldable pub delete_session : ℕ → List (ℕ × ℕ) → List (ℕ × ℕ)
delete_session id [] = []
delete_session id ((i, ref) ∷ rest) =
    if nat_eq i id then delete_session id rest else (i, ref) ∷ delete_session id rest

-- The goroutines that `trigger` starts, one for each listener.
unfoldable pub messages : ℕ → TaskStatusMsg → List ℕ → List Pending
messages ref msg [] = []
messages ref msg (l ∷ ls) =
    record { session_ref = ref; listener = l; msg = msg } ∷ messages ref msg ls

-- Whether a goroutine of the session's wait group is still to run.
unfoldable pub has_pending : ℕ → List Pending → Bool
has_pending ref [] = false
has_pending ref (p ∷ ps) = if nat_eq p.session_ref ref then true else has_pending ref ps

-- A call of `CloseSession`: a nil pointer is followed for a session that is not open; while
-- goroutines of the session are pending it waits.
pub data Closing (W : Type 0) : Type 0 where
  panicked waits : Closing W
  closed : Observ W → Closing W

module _ {W : Type 0} where
  -- `New`
  unfoldable pub new : W → Observ W
  new w = record { world = w; sessions = []; next_ref = 0; listeners = []; pending = []; log = [] }

  unfoldable pub trigger : ℕ → TaskStatusMsg → Observ W → Observ W
  unfolding messages
  trigger ref msg obs = record obs { pending = obs.pending ++ messages ref msg obs.listeners }

  unfoldable pub listen : ℕ → Observ W → Option Error × Observ W
  listen f obs = (none, record obs { listeners = obs.listeners ++ (f ∷ []) })

  -- A goroutine runs. Which one is up to the Go scheduler.
  pub data Deliver (obs : Observ W) : Observ W → Type 0 where
    deliver :
        (xs ys : List Pending) (p : Pending) {obs' : Observ W}
        → obs.pending ≡ xs ++ (p ∷ ys)
        → obs' ≡ record obs { pending = xs ++ ys; log = obs.log ++ (p ∷ []) }
        → Deliver obs obs'

  pub data Deliveries (obs : Observ W) : Observ W → Type 0 where
    here : Deliveries obs obs
    next : {b c : Observ W} → Deliveries obs b → Deliver b c → Deliveries obs c

  module _ (exec : Executor W) where
    -- What `Execute` returns.
    pub record Observed : Type 0 where
      pub err : Option Error
      pub tsk : Task
      pub result : Option Result
      pub obs : Observ W

    unfoldable pub execute : Session → Task → Option Result → Observ W → Observed
    unfolding find_session trigger task_running_msg task_finished_msg
    execute session tsk result obs = elim (find_session session.id obs.sessions) [
      | none ↦ record {
        err = some (wrap "session" unopened_session);
        tsk = tsk;
        result = result;
        obs = obs;
      }
      | some ref ↦
          let started = trigger ref (task_running_msg tsk.id) obs in
          let r = exec.execute session tsk result started.world in
          let ended = record started { world = r.world } in
          record {
            err = r.err;
            tsk = r.tsk;
            result = r.result;
            obs = trigger ref (task_finished_msg r.tsk.id r.err) ended;
          }
    ]

    unfoldable pub open_session : Session → Observ W → Option Error × Observ W
    unfolding delete_session
    open_session session obs =
        let (err, w) = exec.open_session session obs.world in
        (
          err,
          record obs {
            world = w;
            sessions = (session.id, obs.next_ref) ∷ delete_session session.id obs.sessions;
            next_ref = suc obs.next_ref;
          },
        )

    unfoldable pub close_session : ℕ → Observ W → Closing W
    unfolding find_session has_pending delete_session
    close_session id obs = elim (find_session id obs.sessions) [
      | none ↦ panicked
      | some ref ↦
          if has_pending ref obs.pending
          then waits
          else closed (record obs {
            world = exec.close_session id obs.world;
            sessions = delete_session id obs.sessions;
          })
    ]
