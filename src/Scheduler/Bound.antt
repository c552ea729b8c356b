-- ===== src/Scheduler/Bound.antt =====
-- pkg/executor/scheduler/scheduler.go: how many goroutines a scheduler has at once.
use bonk.Base.{ℕ, suc, ◌≤◌, ◌<◌, true, List, ◌∷◌, ◌++◌, Option, length, length-append, ◌≡◌, arith}
use bonk.Task.Value.{Task, Session}
use bonk.Task.Result.{Result}
use bonk.Executor.{Executor}
use bonk.Scheduler.{
  Routine, Room, State, Step, run, fail, go, finish, caller_run, caller_fail, caller_go,
  caller_finish, wait, Steps, here, next, execute_many,
}

module _ {W : Type 0} (exec : Executor W) (session : Session) (room : Room) (limit : ℕ)
    (limits : (n : ℕ) → room n ≡ true → n < limit) where
  -- A routine taken out of the group.
  taken :
      {group : List Routine} (a : Routine) (xs ys : List Routine)
      → group ≡ xs ++ (a ∷ ys)
      → length group ≡ suc (length (xs ++ ys))
  taken a xs ys g = rw g (omega (arith, length-append xs (a ∷ ys), length-append xs ys))

  Step-bound :
      (s s' : State W)
      → length s.group ≤ limit
      → Step exec session room s s'
      → length s'.group ≤ limit
  Step-bound s s' h (run tsk xs ys g ok e) = rw e (omega (arith, h, taken _ xs ys g))
  Step-bound s s' h (fail tsk x xs ys g bad e) = rw e (omega (arith, h, taken _ xs ys g))
  Step-bound s s' h (go f fs os xs ys g free e) =
      rw e (omega (arith, limits (length s.group) free, taken _ xs ys g))
  Step-bound s s' h (finish os xs ys g e) = rw e (omega (arith, h, taken _ xs ys g))
  Step-bound s s' h (caller_run tsk c ok e) = rw e h
  Step-bound s s' h (caller_fail tsk x c bad e) = rw e h
  Step-bound s s' h (caller_go f fs os c free e) =
      rw e (omega (arith, limits (length s.group) free))
  Step-bound s s' h (caller_finish os c e) = rw e h
  Step-bound s s' h (wait c g e) = rw e h

  Steps-bound :
      (s : State W) {n : ℕ} (s' : State W)
      → length s.group ≤ limit
      → Steps exec session room s n s'
      → length s'.group ≤ limit
  Steps-bound s s' h here = h
  Steps-bound s s' h (next {t} before step e) = Step-bound t s' (Steps-bound s t h before) step

  -- Let the group take a goroutine only while it has less than its limit. Then at every moment of
  -- `ExecuteMany`, however the routines interleave, at most that many goroutines are in the group,
  -- those included that wait to hand a followup over.
  pub execute_many-bound :
      (tsks : List Task) (result : Option Result) (w : W) (n : ℕ) (s : State W)
      → Steps exec session room (execute_many exec session tsks result w) n s
      → length s.group ≤ limit
  unfolding execute_many
  execute_many-bound tsks result w n s steps = Steps-bound _ s (omega arith) steps
