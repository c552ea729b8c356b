-- ===== src/Scheduler.antt =====
-- pkg/executor/scheduler/scheduler.go: an executor that also runs the followup tasks. The group of
-- goroutines (golang.org/x/sync/errgroup) is a list of routines; a step is one call of a routine
-- that others can see: the child executor's `Execute`, `errgrp.Go`, or the final `AddOutputs`. The
-- routines' steps interleave in any order. The cancellation of the context by the first error
-- reaches the child executor alone, whose answer may be an error at any time.
pub mod Collect
pub mod Invariant
pub mod CallerSteps
pub mod Complete
pub mod Progress
pub mod Blocked
pub mod Bound
mod Tests
use bonk.Base.{
  ℕ, String, Bool, true, false, List, [], ◌∷◌, ◌++◌, map, Option, none, some, ◌≡◌, ltb, length,
}
use bonk.Errors.{Error}
use bonk.Task.Value.{Task, Session}
use bonk.Task.Id.{get_child}
use bonk.Task.Result.{Result, empty_result, get_outputs, add_outputs, get_followup_tasks}
use bonk.Executor.{Executor, Returned}

-- Where a call of `executeImpl` stands: at its beginning, or in the loop over the followups that
-- are still to be handed to `errgrp.Go`, with the outputs of the child.
pub data Routine : Type 0 where
  begun : Task → Routine
  handing_over : List Task → List String → Routine

-- The goroutine that called `Execute` or `ExecuteMany`.
pub data Caller : Type 0 where
  calling : Routine → Caller
  waiting : Caller
  returned : Option Error → Caller

-- What errgroup makes of `maxConcurrency`: whether `Go` finds room for one more goroutine beside
-- `n`. Where it finds none it blocks.
abbrev pub Room : Type 0
Room = ℕ → Bool

-- The group keeps the first error.
abbrev pub first_error : Option Error → Error → Option Error
first_error none e = some e
first_error (some d) e = some d

-- `followup.ID = tsk.ID.GetChild(followup.ID.String())`
unfoldable pub as_child : String → Task → Task
unfolding get_child
as_child id followup = record followup { id = get_child id (followup.id ∷ []) }

pub record State (W : Type 0) : Type 0 where
  pub world : W
  pub caller : Caller
  pub group : List Routine
  pub result : Option Result
  pub err : Option Error

module _ {W : Type 0} (exec : Executor W) (session : Session) where
  -- `s.Executor.Execute(ctx, session, tsk, &localRes)`
  abbrev pub child_call : Task → W → Returned W
  child_call tsk w = exec.execute session tsk (some empty_result) w

  -- The loop variable's tasks, with their new names, and the outputs of the child.
  abbrev pub after_call : Returned W → Routine
  after_call r =
      handing_over (map (as_child r.tsk.id) (get_followup_tasks r.result)) (get_outputs r.result)

  module _ (room : Room) where
    pub data Step (s : State W) : State W → Type 0 where
      run :
          (tsk : Task) (xs ys : List Routine) {s' : State W}
          → s.group ≡ xs ++ (begun tsk ∷ ys)
          → (child_call tsk s.world).err ≡ none
          → s' ≡ record s {
            world = (child_call tsk s.world).world;
            group = after_call (child_call tsk s.world) ∷ (xs ++ ys);
          }
          → Step s s'
      fail :
          (tsk : Task) (e : Error) (xs ys : List Routine) {s' : State W}
          → s.group ≡ xs ++ (begun tsk ∷ ys)
          → (child_call tsk s.world).err ≡ some e
          → s' ≡ record s {
            world = (child_call tsk s.world).world;
            group = xs ++ ys;
            err = first_error s.err e;
          }
          → Step s s'
      go :
          (f : Task) (fs : List Task) (os : List String) (xs ys : List Routine) {s' : State W}
          → s.group ≡ xs ++ (handing_over (f ∷ fs) os ∷ ys)
          → room (length s.group) ≡ true
          → s' ≡ record s { group = begun f ∷ handing_over fs os ∷ (xs ++ ys) }
          → Step s s'
      finish :
          (os : List String) (xs ys : List Routine) {s' : State W}
          → s.group ≡ xs ++ (handing_over [] os ∷ ys)
          → s' ≡ record s { group = xs ++ ys; result = add_outputs os s.result }
          → Step s s'
      caller_run :
          (tsk : Task) {s' : State W}
          → s.caller ≡ calling (begun tsk)
          → (child_call tsk s.world).err ≡ none
          → s' ≡ record s {
            world = (child_call tsk s.world).world;
            caller = calling (after_call (child_call tsk s.world));
          }
          → Step s s'
      -- `Execute` returns the error and does not wait for the group.
      caller_fail :
          (tsk : Task) (e : Error) {s' : State W}
          → s.caller ≡ calling (begun tsk)
          → (child_call tsk s.world).err ≡ some e
          → s' ≡ record s { world = (child_call tsk s.world).world; caller = returned (some e) }
          → Step s s'
      caller_go :
          (f : Task) (fs : List Task) (os : List String) {s' : State W}
          → s.caller ≡ calling (handing_over (f ∷ fs) os)
          → room (length s.group) ≡ true
          → s' ≡ record s { caller = calling (handing_over fs os); group = begun f ∷ s.group }
          → Step s s'
      caller_finish :
          (os : List String) {s' : State W}
          → s.caller ≡ calling (handing_over [] os)
          → s' ≡ record s { caller = waiting; result = add_outputs os s.result }
          → Step s s'
      -- `errgrp.Wait()`
      wait :
          {s' : State W}
          → s.caller ≡ waiting
          → s.group ≡ []
          → s' ≡ record s { caller = returned s.err }
          → Step s s'

    -- So many steps from one state to another.
    pub data Steps (s : State W) : ℕ → State W → Type 0 where
      here : Steps s 0 s
      next : {n m : ℕ} {t u : State W} → Steps s n t → Step t u → m ≡ ℕ.suc n → Steps s m u

  -- `Scheduler.Execute`: the caller runs `executeImpl` itself.
  unfoldable pub execute : Task → Option Result → W → State W
  execute tsk result w = record {
    world = w;
    caller = calling (begun tsk);
    group = [];
    result = result;
    err = none;
  }

  -- `Scheduler.ExecuteMany`: the caller hands all tasks to `errgrp.Go`. (The last step of the loop
  -- adds no output.)
  unfoldable pub execute_many : List Task → Option Result → W → State W
  execute_many tsks result w = record {
    world = w;
    caller = calling (handing_over tsks []);
    group = [];
    result = result;
    err = none;
  }
