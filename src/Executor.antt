-- ===== src/Executor.antt =====
-- pkg/executor/executor.go: the interface `Executor`. `W` is all that the executors of a program
-- may read and change outside the arguments (files, processes, their own fields). `Execute` gets
-- pointers to the task and the result, so it returns both as it leaves them.
use bonk.Base.{ℕ, Option, none}
use bonk.Errors.{Error}
use bonk.Task.Value.{Task, Session}
use bonk.Task.Result.{Result}

pub record Returned (W : Type 0) : Type 0 where
  pub err : Option Error
  pub tsk : Task
  pub result : Option Result
  pub world : W

abbrev pub Execute : Type 0 → Type 0
Execute W = Session → Task → Option Result → W → Returned W

pub record Executor (W : Type 0) : Type 0 where
  pub execute : Execute W
  pub open_session : Session → W → Option Error × W
  pub close_session : ℕ → W → W

-- `NoopSessionManager`, which an executor embeds for its two session methods.
unfoldable pub noop_open_session : {W : Type 0} → Session → W → Option Error × W
noop_open_session session w = (none, w)

unfoldable pub noop_close_session : {W : Type 0} → ℕ → W → W
noop_close_session id w = w
