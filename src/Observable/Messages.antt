-- ===== src/Observable/Messages.antt =====
-- pkg/executor/observable/observer.go: what `Execute` starts and returns.
use bonk.Base.{ℕ, String, List, [], ◌∷◌, map, ◌++◌, Option, none, some, ◌≡◌, refl, ◌∙◌, ap}
use bonk.Errors.{Error, unopened_session, wrap}
use bonk.Task.Value.{Task, Session}
use bonk.Task.Result.{Result}
use bonk.Executor.{Executor, Returned}
use bonk.Observable.{
  TaskStatusMsg, status_running, status_success, status_error, Observ, Observed, Pending,
  find_session, messages, trigger, task_running_msg, task_finished_msg, execute,
}
use mathlib.Core.List.{append_assoc}

module _ {W : Type 0} (exec : Executor W) where
  -- The call that `Execute` makes of the wrapped executor.
  abbrev inner : Session → Task → Option Result → Observ W → Returned W
  inner session tsk result obs = exec.execute session tsk result obs.world

  -- One goroutine for each listener, with the same message.
  abbrev pub to_each : ℕ → TaskStatusMsg → List ℕ → List Pending
  to_each ref msg ls = map (λ l. record { session_ref = ref; listener = l; msg = msg }) ls

  messages-to_each :
      (ref : ℕ) (msg : TaskStatusMsg) (ls : List ℕ) → messages ref msg ls ≡ to_each ref msg ls
  unfolding messages
  messages-to_each ref msg [] = refl
  messages-to_each ref msg (l ∷ ls) = rw (messages-to_each ref msg ls) refl

  -- How a task is told to have ended, by the error of its executor.
  abbrev pub ended_with : String → Option Error → TaskStatusMsg
  ended_with id err = record {
    task_id = id;
    status = elim err [ none ↦ status_success | some e ↦ status_error ];
    error = err;
  }

  task_finished_msg-ended_with :
      (id : String) (err : Option Error) → task_finished_msg id err ≡ ended_with id err
  unfolding task_finished_msg
  task_finished_msg-ended_with id none = refl
  task_finished_msg-ended_with id (some e) = refl

  -- What `Execute` is to return, by the reference of the session if it is open.
  abbrev pub described : Option ℕ → Session → Task → Option Result → Observ W → Observed exec
  described none session tsk result obs = record {
    err = some (wrap "session" unopened_session);
    tsk = tsk;
    result = result;
    obs = obs;
  }
  described (some ref) session tsk result obs =
      let r = inner session tsk result obs in
      record {
        err = r.err;
        tsk = r.tsk;
        result = r.result;
        obs = record obs {
          world = r.world;
          pending =
              obs.pending
              ++ (to_each ref (record { task_id = tsk.id; status = status_running; error = none })
                    obs.listeners
                  ++ to_each ref (ended_with r.tsk.id r.err) obs.listeners);
        };
      }

  pub opened-described :
      (session : Session) (tsk : Task) (result : Option Result) (obs : Observ W) (ref : ℕ)
      → find_session session.id obs.sessions ≡ some ref
      → execute exec session tsk result obs ≡ described (some ref) session tsk result obs
  unfolding execute trigger task_running_msg
  opened-described session tsk result obs ref found =
      let running = messages ref (task_running_msg tsk.id) obs.listeners in
      let r = inner session tsk result obs in
      let ended = messages ref (task_finished_msg r.tsk.id r.err) obs.listeners in
      let build : List Pending → Observed exec = λ ps. record {
        err = r.err;
        tsk = r.tsk;
        result = r.result;
        obs = record obs { world = r.world; pending = ps };
      } in
      rw (found, execute)
        (ap build (append_assoc obs.pending running ended)
          ∙ ap (λ ps. build (obs.pending ++ (ps ++ ended)))
              (messages-to_each ref (task_running_msg tsk.id) obs.listeners)
          ∙ ap
              (λ ps.
                build (obs.pending ++ (to_each ref (task_running_msg tsk.id) obs.listeners ++ ps)))
              (messages-to_each ref (task_finished_msg r.tsk.id r.err) obs.listeners
                ∙ ap (λ m. to_each ref m obs.listeners)
                    (task_finished_msg-ended_with r.tsk.id r.err)))

  -- In a session that is not open `Execute` returns an error about it, and changes nothing: the
  -- wrapped executor is not called.
  execute-unopened :
      (session : Session) (tsk : Task) (result : Option Result) (obs : Observ W)
      → find_session session.id obs.sessions ≡ none
      → execute exec session tsk result obs ≡ record {
        err = some (wrap "session" unopened_session);
        tsk = tsk;
        result = result;
        obs = obs;
      }
  unfolding execute
  execute-unopened session tsk result obs closed = rw (closed, execute) refl

  found-described :
      (session : Session) (tsk : Task) (result : Option Result) (obs : Observ W) (found : Option ℕ)
      → find_session session.id obs.sessions ≡ found
      → execute exec session tsk result obs ≡ described found session tsk result obs
  found-described session tsk result obs none h = execute-unopened session tsk result obs h
  found-described session tsk result obs (some ref) h =
      opened-described session tsk result obs ref h

  -- In an open session `Execute` returns the wrapped executor's error, task and result, and leaves
  -- its state; besides, it starts for each listener one message that the task runs, under the task's
  -- id, and one that it ended, with the error that was returned and the status error or success by
  -- that. Nothing is delivered and no session is opened or closed by it. In a session that is not
  -- open it returns an error about that, and changes nothing: the wrapped executor is not called.
  pub execute-messages :
      (session : Session) (tsk : Task) (result : Option Result) (obs : Observ W)
      → execute exec session tsk result obs
        ≡ described (find_session session.id obs.sessions) session tsk result obs
  execute-messages session tsk result obs = found-described session tsk result obs _ refl
