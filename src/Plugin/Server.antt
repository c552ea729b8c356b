-- ===== src/Plugin/Server.antt =====
-- pkg/executor/plugin/server.go and log_streaming.go: a plugin is a router whose calls are logged to
-- two files of the task.
use bonk.Base.{◌+◌, String, List, [], ◌∷◌, Option, none, some, length, ◌≡◌, refl, ◌∙◌, arith}
use bonk.Errors.{Error, message, append_error}
use bonk.Task.Value.{Task, Session}
use bonk.Task.Result.{Result}
use bonk.Executor.{Executor, Execute, Returned}
use bonk.Router.{
  leaf, Children, new, Registered, registered, refused, panicked, unfinished, register_executor,
  get_num_executors, as_executor,
}
use bonk.Router.Route.{route}
use bonk.Router.Dispatch.{AllKeep, Agrees, execute-route}
use bonk.Router.Count.{get_num_executors-register_executor}

-- The output directories of tasks: by session, task and name of the file.
pub record Files (W : Type 0) : Type 0 where
  pub mkdir_all : Session → String → W → Option Error × W
  pub create : Session → String → String → W → Option Error × W
  pub close : Session → String → String → W → Option Error × W

module _ {E : Type 0} where
  -- The loop of `NewPlugin` over its options, each a `WithExecutor`. An error panics.
  unfoldable pub initialize : List (String × E) → Children E → Registered E
  initialize [] cs = registered cs
  initialize ((name, e) ∷ options) cs = elim (register_executor cs name (leaf e)) [
    | registered cs' ↦ initialize options cs'
    | refused err cs' ↦ panicked err
    | panicked err ↦ panicked err
    | unfinished ↦ unfinished
  ]

  -- `NewPlugin`
  unfoldable pub new_plugin : List (String × E) → Registered E
  unfolding initialize
  new_plugin options = initialize options new

module _ {W : Type 0} (files : Files W) where
  -- `getTaskLoggingContext`, as far as it reads and changes files.
  unfoldable pub get_task_logging_context : Session → String → W → Option Error × W
  get_task_logging_context session id w =
      let (made, w₁) = files.mkdir_all session id w in
      elim made [
        | some e ↦ (some (message "failed to create task directory"), w₁)
        | none ↦
            let (text, w₂) = files.create session id "log.txt" w₁ in
            elim text [
              | some e ↦ (some (message "failed to open log txt file"), w₂)
              | none ↦
                  let (json, w₃) = files.create session id "log.jsonl" w₂ in
                  elim json [
                    | some e ↦ (some (message "failed to open log json file"), w₃)
                    | none ↦ (none, w₃)
                  ]
            ]
      ]

  -- `cleanup`: both files are closed, and `multierr.Combine` keeps both errors.
  unfoldable pub cleanup : Session → String → W → Option Error × W
  cleanup session id w =
      let (text, w₁) = files.close session id "log.txt" w in
      let (json, w₂) = files.close session id "log.jsonl" w₁ in (append_error text json, w₂)

  -- `Plugin.Execute`
  unfoldable pub execute : Children (Executor W) → Execute W
  unfolding get_task_logging_context cleanup as_executor
  execute cs session tsk result w =
      let (err, w') = get_task_logging_context session tsk.id w in
      elim err [
        | some e ↦ record { err = some e; tsk = tsk; result = result; world = w' }
        | none ↦
            let r = (as_executor cs).execute session tsk result w' in
            let (closed, v) = cleanup session tsk.id r.world in
            record r { err = append_error r.err closed; world = v }
      ]

  -- The plugin as an executor: the sessions are the router's.
  unfoldable pub plugin_executor : Children (Executor W) → Executor W
  unfolding execute as_executor
  plugin_executor cs = record {
    execute = execute cs;
    open_session = (as_executor cs).open_session;
    close_session = (as_executor cs).close_session;
  }

  makes_files :
      (session : Session) (id : String) (w w₁ w₂ w₃ : W)
      → files.mkdir_all session id w ≡ (none, w₁)
      → files.create session id "log.txt" w₁ ≡ (none, w₂)
      → files.create session id "log.jsonl" w₂ ≡ (none, w₃)
      → get_task_logging_context session id w ≡ (none, w₃)
  unfolding get_task_logging_context
  makes_files session id w w₁ w₂ w₃ made text json = ground (arith, made, text, json)

  -- If the task's directory and then both log files can be made, the plugin calls the executor that
  -- the task names, as a router does, and then closes both files, the text first: the error of the
  -- executor and those of the two files are combined in this order, and what the executor did to the
  -- task and the result is kept. The executors leave the executor's name of their task alone.
  pub execute_logged :
      (cs : Children (Executor W)) (session : Session) (tsk : Task) (result : Option Result)
      (w w₁ w₂ w₃ : W)
      → AllKeep cs
      → files.mkdir_all session tsk.id w ≡ (none, w₁)
      → files.create session tsk.id "log.txt" w₁ ≡ (none, w₂)
      → files.create session tsk.id "log.jsonl" w₂ ≡ (none, w₃)
      → (r : Returned W) × Agrees (route cs tsk.executor) session tsk result w₃ r
        × (let text = files.close session tsk.id "log.txt" r.world in
            let json = files.close session tsk.id "log.jsonl" text.1 in
            execute cs session tsk result w ≡ record {
              err = append_error r.err (append_error text.0 json.0);
              tsk = r.tsk;
              result = r.result;
              world = json.1;
            })
  unfolding execute cleanup
  execute_logged cs session tsk result w w₁ w₂ w₃ k made text json =
      let opened = makes_files session tsk.id w w₁ w₂ w₃ made text json in
      (
        (as_executor cs).execute session tsk result w₃,
        execute-route cs session tsk result w₃ k,
        ground (arith, opened),
      )

module _ {E : Type 0} where
  initialize_one :
      (name : String) (e : E) (options : List (String × E)) (cs cs' : Children E) (r : Registered E)
      → register_executor cs name (leaf e) ≡ r
      → initialize ((name, e) ∷ options) cs ≡ registered cs'
      → (mid : Children E) × (r ≡ registered mid) × (initialize options mid ≡ registered cs')
  unfolding initialize
  initialize_one name e options cs cs' (registered mid) q h = (mid, refl, rw (q, initialize) at h)
  initialize_one name e options cs cs' (refused err mid) q h =
      let bad = rw (q, initialize) at h in cc
  initialize_one name e options cs cs' (panicked err) q h = let bad = rw (q, initialize) at h in cc
  initialize_one name e options cs cs' unfinished q h = let bad = rw (q, initialize) at h in cc

  initialize-num :
      (options : List (String × E)) (cs cs' : Children E)
      → initialize options cs ≡ registered cs'
      → get_num_executors cs' ≡ get_num_executors cs + length options
  unfolding initialize
  initialize-num [] cs cs' h = let same : cs ≡ cs' = cc in rw same (omega arith)
  initialize-num ((name, e) ∷ options) cs cs' h =
      let (mid, q, rest) = initialize_one name e options cs cs' _ refl h in
      omega (
        arith,
        initialize-num options mid cs' rest,
        get_num_executors-register_executor cs mid name e q,
      )

  -- A plugin that is made without a panic has an executor for each of its options.
  new_plugin-num :
      (options : List (String × E)) (cs : Children E)
      → new_plugin options ≡ registered cs
      → get_num_executors cs ≡ length options
  unfolding new_plugin get_num_executors
  new_plugin-num options cs h = initialize-num options new cs h ∙ omega arith
