-- ===== src/Driver/Keeps.antt =====
-- pkg/executor/scheduler/scheduler.go: what the calls of the executor keep of the world, the goroutines
-- keep.
use bonk.Base.{ℕ, Option}
use bonk.Task.Value.{Task, Session}
use bonk.Task.Result.{Result}
use bonk.Executor.{Executor}
use bonk.Scheduler.{
  Room, Step, run, fail, go, finish, caller_run, caller_fail, caller_go, caller_finish, wait, Steps,
  here, next, State,
}

-- What every call of the executor keeps of the world, all steps keep.
module _ {W : Type 0} (exec : Executor W) (room : Room) (session : Session) (P : W → Type 0)
    (keeps : (tsk : Task) (result : Option Result) (w : W)
      → P w
      → P (exec.execute session tsk result w).world) where
  Step-keeps : (s s' : State W) → Step exec session room s s' → P s.world → P s'.world
  Step-keeps s s' (run tsk xs ys g ok e) h = rw e (keeps tsk _ s.world h)
  Step-keeps s s' (fail tsk x xs ys g bad e) h = rw e (keeps tsk _ s.world h)
  Step-keeps s s' (go f fs os xs ys g free e) h = rw e h
  Step-keeps s s' (finish os xs ys g e) h = rw e h
  Step-keeps s s' (caller_run tsk c ok e) h = rw e (keeps tsk _ s.world h)
  Step-keeps s s' (caller_fail tsk x c bad e) h = rw e (keeps tsk _ s.world h)
  Step-keeps s s' (caller_go f fs os c free e) h = rw e h
  Step-keeps s s' (caller_finish os c e) h = rw e h
  Step-keeps s s' (wait c g e) h = rw e h

  pub Steps-keeps :
      (s : State W) {n : ℕ} (s' : State W) → Steps exec session room s n s' → P s.world → P s'.world
  Steps-keeps s s' here h = h
  Steps-keeps s s' (next {t} before step e) h = Step-keeps t s' step (Steps-keeps s t before h)
