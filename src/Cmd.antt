-- ===== src/Cmd.antt =====
-- cmd/bonk/main.go and cmd/holos/main.go: the two commands, each one run of the driver, with the
-- plugins that they name (plugins/test/test.go, plugins/k8s). The flags' values are arguments.
pub mod Names
pub mod Ends
pub mod Start
mod Tests
use bonk.Base.{ℕ, String, List, [], ◌∷◌, Option, none, some, ◌≡◌}
use bonk.Base.Text.{append}
use bonk.Base.Paths.{path_base}
use bonk.Errors.{Error, Outcome, ok, error}
use bonk.Task.Value.{
  Session, Value, nil, int, text, slice, dict, Values, empty, item, Fields, end, field, Task, new,
  with_inputs,
}
use bonk.Task.Id.{new_id}
use bonk.Task.Result.{Result, empty_result}
use bonk.Executor.{Executor, Returned}
use bonk.Router.{leaf, Registered}
use bonk.Plugin.Server.{new_plugin}
use bonk.Scheduler.{Room}
use bonk.Statecheck.{Host}
use bonk.Driver.{
  Options, make_default_options, with_concurrency, with_observers, with_plugins, with_executor,
  with_local_session, built, failed, build, Progress, Run,
}

-- What the commands call of the operating system, the terminal program and package uuid. An observer
-- is known by the number of its terminal program.
pub record Shell (W : Type 0) : Type 0 where
  -- `os.Getwd()`
  pub getwd : W → Outcome String
  -- `path.Join`
  pub join_path : String → String → String
  -- `bubbletea.New(ctx, true)` and `Quit`
  pub start_bubble : W → ℕ × W
  pub quit_bubble : ℕ → W → W
  -- `task.NewSessionID()`
  pub new_uuid : W → ℕ × W

abbrev pub test_path : String
test_path = "go.bonk.build/plugins/test"

abbrev pub resources_path : String
resources_path = "go.bonk.build/plugins/k8s/resources"

abbrev pub kustomize_path : String
kustomize_path = "go.bonk.build/plugins/k8s/kustomize"

-- The plugins: their names, and their executors by the names of `WithExecutor`.
module _ {E : Type 0} where
  abbrev pub test_plugin : E → String × List (String × E)
  test_plugin test = ("test", ("Test", test) ∷ [])

  abbrev pub resources_plugin : E → String × List (String × E)
  resources_plugin resources = ("resources", ("Resources", resources) ∷ [])

  abbrev pub kustomize_plugin : E → String × List (String × E)
  kustomize_plugin kustomize = ("kustomize", ("Kustomize", kustomize) ∷ [])

  abbrev pub holos_plugin : E → E → String × List (String × E)
  holos_plugin render_platform render_component =
      ("holos", ("RenderPlatform", render_platform) ∷ ("RenderComponent", render_component) ∷ [])

-- `ExecutorTest.Execute`, which logs the field `Value` of its arguments. A task without arguments
-- panics: `none`.
unfoldable pub execute_test :
    {W : Type 0} → (ℕ → W → W) → Session → Task → Option ℕ → Option Result → W → Option (Returned W)
execute_test log session tsk none result w = none
execute_test log session tsk (some value) result w =
    some (record { err = none; tsk = tsk; result = result; world = log value w })

-- The tasks of `bonk`.
abbrev pub test_task : Task
test_task = new (new_id ("Test" ∷ "Test" ∷ [])) "test.Test" (dict (field "value" (int 3) end)) []

abbrev namespace : Value
namespace = dict (
    field "apiVersion" (text "v1") (
      field "kind" (text "Namespace")
        (field "metadata" (dict (field "name" (text "Testing") end)) end)))

abbrev pub resources_task : Task
resources_task =
    new (new_id ("Test" ∷ "Resources" ∷ [])) "resources.Resources"
      (dict (field "resources" (slice (item namespace empty)) end)) []

abbrev pub kustomize_task : Task
kustomize_task =
    new (new_id ("Test" ∷ "Kustomize" ∷ [])) "kustomize.Kustomize" nil
      (with_inputs (".bonk/Test.Resources/resources.yaml" ∷ []) ∷ [])

module _ {W : Type 0} (shell : Shell W) where
  -- The options of `bonk`, for its flag, the observer, a new session id and the working directory.
  unfoldable pub bonk_options : ℕ → ℕ → ℕ → String → Options W
  unfolding make_default_options with_concurrency with_observers with_plugins with_local_session new
      new_id with_inputs
  bonk_options concurrency bubble id cwd =
      with_local_session id (shell.join_path cwd "testdata")
        (test_task ∷ resources_task ∷ kustomize_task ∷ [])
        (with_plugins (test_path ∷ resources_path ∷ kustomize_path ∷ [])
          (with_observers (bubble ∷ []) (with_concurrency concurrency make_default_options)))

  abbrev pub platform_task : String → Task
  platform_task platform =
      new (new_id ("platform" ∷ [])) "holos.RenderPlatform"
        (dict (field "platform" (text platform) end))
        (with_inputs (shell.join_path platform "*.cue" ∷ []) ∷ [])

  -- The options of `holos`, which takes an executor of its own process besides the plugins.
  unfoldable pub holos_options : ℕ → String → ℕ → ℕ → Executor W → String → Options W
  unfolding make_default_options with_concurrency with_observers with_plugins with_executor
      with_local_session new new_id with_inputs
  holos_options concurrency platform bubble id holos session_dir =
      with_local_session id session_dir (platform_task platform ∷ []) (
        with_plugins (resources_path ∷ kustomize_path ∷ []) (
          with_executor "holos" (leaf holos)
            (with_observers (bubble ∷ []) (with_concurrency concurrency make_default_options))))

  -- `sessionDir` of `holos`. An error of `os.Getwd` is ignored, and its text is then empty.
  abbrev pub session_dir : List String → Outcome String → String
  session_dir [] (ok dir) = dir
  session_dir [] (error e) = ""
  session_dir (arg ∷ args) (ok dir) = shell.join_path dir arg
  session_dir (arg ∷ args) (error e) = shell.join_path "" arg

  -- The terminal program ends where the driver gave no error. Where it gave one, the command returns
  -- at once.
  abbrev pub finish : ℕ → Option Error → W → W
  finish bubble none w = shell.quit_bubble bubble w
  finish bubble (some e) w = w

  -- The world in which the driver runs, with the observer and the session's id.
  abbrev pub entered : W → ℕ × ℕ × W
  entered w =
      let (bubble, w₁) = shell.start_bubble w in
      let (id, w₂) = shell.new_uuid w₁ in (bubble, id, w₂)

  -- `limit` gives the room that a concurrency leaves to the goroutines of the scheduler.
  module _ {H : Type 0} (hosts : Session → Host W H)
      (new_plugin_client : String → W → Outcome (Executor W) × W)
      (observe : List ℕ → Executor W → Executor W) (limit : ℕ → Room) where
    -- A whole call of `driver.Run`: the error and the world.
    pub data Drives (opts : Options W) (result : Option Result) (w : W)
        : Option Error → W → Type 0 where
      not_built :
          (e : Error) {err : Option Error} {w' : W}
          → build hosts new_plugin_client path_base observe opts w ≡ failed e w'
          → err ≡ some e
          → Drives opts result w err w'
      drives :
          (exec : Executor W) (v : W) (p : Progress W) {err : Option Error} {w' : W}
          → build hosts new_plugin_client path_base observe opts w ≡ built exec v
          → Run exec (limit opts.concurrency) opts.sessions result v p
          → err ≡ p.err
          → w' ≡ p.world
          → Drives opts result w err w'

    -- `RunE` of `bonk`
    pub data RunBonk (concurrency : ℕ) (w : W) : Option Error → W → Type 0 where
      no_directory :
          (e : Error) {err : Option Error} {w' : W}
          → shell.getwd w ≡ error e
          → err ≡ some e
          → w' ≡ w
          → RunBonk concurrency w err w'
      runs :
          (cwd : String) (v : W) {err : Option Error} {w' : W}
          → shell.getwd w ≡ ok cwd
          → Drives
              (bonk_options concurrency (entered w).0 (entered w).1 cwd)
              none
              (entered w).2
              err
              v
          → w' ≡ finish (entered w).0 err v
          → RunBonk concurrency w err w'

    -- `RunE` of `holos`
    pub data RunHolos (concurrency : ℕ) (platform : String) (holos : Executor W)
        (args : List String) (w : W) : Option Error → W → Type 0 where
      runs_holos :
          (v : W) {err : Option Error} {w' : W}
          → Drives
              (holos_options concurrency platform
                (entered w).0
                (entered w).1
                holos
                (session_dir args (shell.getwd w)))
              (some empty_result)
              (entered w).2
              err
              v
          → w' ≡ finish (entered w).0 err v
          → RunHolos concurrency platform holos args w err w'
