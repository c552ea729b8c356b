-- ===== src/K8s.antt =====
-- plugins/k8s: the executors of the resources, kustomize and holos plugins. What they call of other
-- packages (files, YAML encoders, kustomize, CUE) is a parameter.
pub mod Resources
pub mod Documents
pub mod Kustomization
pub mod Outputs
pub mod Holos
pub mod Plans
pub mod Rendering
pub mod Served
mod Tests
use bonk.Base.{String, Option, none, some}
use bonk.Errors.{Error, Outcome, ok, error, wrap}
use bonk.Task.Value.{Task, Session}
use bonk.Task.Result.{Result}
use bonk.Executor.{Returned}

-- A call that reads and changes the world, and may give an error.
abbrev pub Action : Type 0 → Type 0 → Type 0
Action W A = W → Outcome A × W

module _ {W : Type 0} where
  abbrev pub after : {A B : Type 0} → (A → Action W B) → Outcome A → W → Outcome B × W
  after f (ok a) w = f a w
  after f (error e) w = (error e, w)

  infixl 5 ◌>>=◌
  unfoldable pub ◌>>=◌ : {A B : Type 0} → Action W A → (A → Action W B) → Action W B
  ◌>>=◌ m f w = after f (m w).0 (m w).1

  -- A computation that leaves the world, its error wrapped.
  unfoldable pub or_wrap : {A : Type 0} → String → Outcome A → Action W A
  or_wrap msg (ok a) w = (ok a, w)
  or_wrap msg (error e) w = (error (wrap msg e), w)

  -- A call, its error wrapped.
  unfoldable pub wrapped : {A : Type 0} → String → Action W A → Action W A
  unfolding or_wrap
  wrapped msg m w = or_wrap msg (m w).0 (m w).1

  -- What `Execute` returns whose last statement is `return nil`.
  abbrev pub returns : Task → Option Result → Outcome (Option Result) × W → Returned W
  returns tsk result (ok r, w) = record { err = none; tsk = tsk; result = r; world = w }
  returns tsk result (error e, w) = record { err = some e; tsk = tsk; result = result; world = w }

-- The file that `task.OutputFS(session, id).Create(name)` gives, and its calls.
pub record Files (W F : Type 0) : Type 0 where
  pub create : Session → String → String → Action W F
  pub write : F → String → W → Option Error × W
  pub close : F → W → Option Error × W
