-- ===== src/Driver.antt =====
-- pkg/driver: the options of a run (options.go), and a run of the tasks of all sessions (driver.go).
-- A Go map is a list of its entries, in the order of one iteration.
pub mod Sessions
pub mod Outputs
pub mod Observed
pub mod Tracked
pub mod Returns
pub mod Routes
pub mod Keeps
pub mod Ids
pub mod Listeners
mod Tests
use bonk.Base.{
  ℕ, suc, Bool, true, false, String, List, [], ◌∷◌, ◌++◌, Option, none, some, if◌then◌else◌, ◌==◌,
  ◌≡◌,
}
use mathlib.Core.List.{Permᴰ}
use bonk.Errors.{Error, Outcome, ok, error, wrap, append_error}
use bonk.Task.Value.{Task, Session, new_local_session}
use bonk.Task.Result.{Result}
use bonk.Executor.{Executor}
use bonk.Router.{
  Tree, Children, new, Registered, registered, refused, panicked, unfinished, register_executor,
  as_executor,
}
use bonk.Plugin.Starting.{Started, started, crashed, out_of_fuel, start_plugins}
use bonk.Scheduler.{Room, Steps, State, execute_many}
use bonk.Scheduler as Scheduler
use bonk.Statecheck.{Host}
use bonk.Statecheck as Statecheck

-- `Options`. The concurrency is the bit pattern of an `int`; an observer is a number.
pub record Options (W : Type 0) : Type 0 where
  pub concurrency : ℕ
  pub plugins : List String
  pub executors : List (String × Tree (Executor W))
  pub sessions : List (Session × List Task)
  pub observers : List ℕ

module _ {W : Type 0} where
  unfoldable pub make_default_options : Options W
  make_default_options = record {
    concurrency = 0;
    plugins = [];
    executors = [];
    sessions = [];
    observers = [];
  }

  unfoldable pub with_concurrency : ℕ → Options W → Options W
  with_concurrency concurrency opts = record opts { concurrency = concurrency }

  -- `opts.Executors[name] = exec`
  abbrev pub set_executor :
      String
      → Tree (Executor W)
      → List (String × Tree (Executor W))
      → List (String × Tree (Executor W))
  set_executor name exec [] = (name, exec) ∷ []
  set_executor name exec ((k, old) ∷ rest) =
      if k == name then (k, exec) ∷ rest else (k, old) ∷ set_executor name exec rest

  unfoldable pub with_executor : String → Tree (Executor W) → Options W → Options W
  with_executor name exec opts = record opts { executors = set_executor name exec opts.executors }

  unfoldable pub with_plugins : List String → Options W → Options W
  with_plugins plugins opts = record opts { plugins = opts.plugins ++ plugins }

  -- `id` is the new random id. The key of the map is a new pointer.
  unfoldable pub with_local_session : ℕ → String → List Task → Options W → Options W
  unfolding new_local_session
  with_local_session id path tasks opts = record opts {
    sessions = opts.sessions ++ ((new_local_session id path, tasks) ∷ []);
  }

  unfoldable pub with_observers : List ℕ → Options W → Options W
  with_observers observers opts = record opts { observers = opts.observers ++ observers }

-- The tree of executors that a run makes, or how the run ends before.
pub data Built (W : Type 0) : Type 0 where
  built : Executor W → W → Built W
  failed : Error → W → Built W
  panics : Error → Built W
  runs_out : Built W

-- The plugins' processes and the hosts of the statechecker are parameters, and `observe` is
-- `observable.New` with its listeners, seen as an executor of the same world.
module _ {W H : Type 0} (hosts : Session → Host W H)
    (new_plugin_client : String → W → Outcome (Executor W) × W) (base : String → String)
    (observe : List ℕ → Executor W → Executor W) where
  -- `pcm.RegisterExecutor` for each executor, with the error so far.
  abbrev pub register_executors :
      List (String × Tree (Executor W))
      → Option Error
      → Children (Executor W)
      → Option Error × Registered (Executor W)
  register_executors [] err cs = (err, registered cs)
  register_executors ((name, exec) ∷ rest) err cs = elim (register_executor cs name exec) [
    | registered cs' ↦ register_executors rest err cs'
    | refused e cs' ↦ register_executors rest (append_error err (some e)) cs'
    | panicked e ↦ (err, panicked e)
    | unfinished ↦ (err, unfinished)
  ]

  abbrev pub wrap_executors : Options W → Children (Executor W) → Executor W
  wrap_executors opts cs =
      let exec = Statecheck.as_executor hosts (as_executor cs) in
      elim opts.observers [ [] ↦ exec | o ∷ os ↦ observe (o ∷ os) exec ]

  abbrev pub after_registration : Options W → Option Error × Registered (Executor W) → W → Built W
  after_registration opts (none, registered cs) w = built (wrap_executors opts cs) w
  after_registration opts (some e, registered cs) w =
      failed (wrap "failed to register executors" e) w
  after_registration opts (err, refused e cs) w = panics e
  after_registration opts (err, panicked e) w = panics e
  after_registration opts (err, unfinished) w = runs_out

  abbrev pub after_plugins : Options W → Started W → Built W
  after_plugins opts (started none cs w) =
      after_registration opts (register_executors opts.executors none cs) w
  after_plugins opts (started (some e) cs w) = failed (wrap "failed to initialize plugins" e) w
  after_plugins opts (crashed e) = panics e
  after_plugins opts out_of_fuel = runs_out

  -- `Run`, up to the scheduler.
  unfoldable pub build : Options W → W → Built W
  unfolding start_plugins register_executor as_executor Statecheck.as_executor
  build opts w = after_plugins opts (start_plugins new_plugin_client base opts.plugins none new w)

-- The loop of `Run` over its sessions.
pub record Progress (W : Type 0) : Type 0 where
  pub err : Option Error
  pub result : Option Result
  pub world : W

module _ {W : Type 0} (exec : Executor W) (room : Room) where
  pub data Round (session : Session) (tasks : List Task) (p : Progress W)
      : Progress W → Type 0 where
    not_opened :
        (e : Error) {p' : Progress W}
        → (exec.open_session session p.world).0 ≡ some e
        → p' ≡ record p {
          err = append_error p.err (some e);
          world = (exec.open_session session p.world).1;
        }
        → Round session tasks p p'
    executed :
        (n : ℕ) (s : State W) (err : Option Error) {p' : Progress W}
        → (exec.open_session session p.world).0 ≡ none
        → Steps exec session room
            (execute_many exec session tasks p.result (exec.open_session session p.world).1)
            n
            s
        → s.caller ≡ Scheduler.returned err
        → p' ≡ record { err = append_error p.err err; result = s.result; world = s.world }
        → Round session tasks p p'

  pub data Rounds : List (Session × List Task) → Progress W → Progress W → Type 0 where
    finished : {p p' : Progress W} → p' ≡ p → Rounds [] p p'
    round :
        {session : Session} {tasks : List Task} {rest : List (Session × List Task)}
        {p q p' : Progress W}
        → Round session tasks p q
        → Rounds rest q p'
        → Rounds ((session, tasks) ∷ rest) p p'

  abbrev pub close_all : List (Session × List Task) → W → W
  close_all [] w = w
  close_all ((session, tasks) ∷ rest) w = close_all rest (exec.close_session session.id w)

  -- `Run` after the executors are made: the error, the result and the world. The second loop may
  -- take the map's entries in another order.
  pub data Run (sessions : List (Session × List Task)) (result : Option Result) (w : W)
      : Progress W → Type 0 where
    fails :
        (e : Error) (p : Progress W) {p' : Progress W}
        → Rounds sessions (record { err = none; result = result; world = w }) p
        → p.err ≡ some e
        → p' ≡ record p { err = some (wrap "failed to register tasks with scheduler" e) }
        → Run sessions result w p'
    completes :
        (p : Progress W) (order : List (Session × List Task)) {p' : Progress W}
        → Rounds sessions (record { err = none; result = result; world = w }) p
        → p.err ≡ none
        → Permᴰ sessions order
        → p' ≡ record p { world = close_all order p.world }
        → Run sessions result w p'
