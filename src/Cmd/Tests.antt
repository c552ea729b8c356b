-- ===== src/Cmd/Tests.antt =====
-- A machine on which the commands come to their tasks.
use bonk.Base.{
  ℕ, ◌+◌, ◌-◌, ◌≤◌, ltb, if◌then◌else◌, arith, String, List, [], ◌∷◌, Option, none, some, true, All,
  ◌≡◌, refl,
}
use bonk.Base.Text.{append, cut, NoSep, NoSep-of_cut}
use bonk.Base.Paths.{path_base}
use bonk.Errors.{Error, Outcome, ok, error, message}
use bonk.Task.Value.{
  Task, Values, empty, Session, new, with_inputs, new_local_session, new_test_session,
}
use bonk.Task.Result.{get_outputs, get_followup_tasks}
use bonk.Executor.{Executor}
use bonk.Router.{leaf, Children, nil, cons, as_executor}
use bonk.Router.Route.{route}
use bonk.Statecheck.{Host}
use bonk.Statecheck as Statecheck
use bonk.Driver.{Options, built, build, wrap_executors}
use bonk.Driver.Routes.{IsPlain, Leads, build-Reaches}
use bonk.Plugin.Routes.{Reaches}
use bonk.K8s.Holos.{Cue, Component, component_task, BuildPlan}
use bonk.K8s.Holos as Holos
use bonk.Cmd.{
  execute_test, test_task, Shell, test_path, resources_path, kustomize_path, test_plugin,
  resources_plugin, kustomize_plugin, holos_plugin, bonk_options, platform_task, holos_options,
}
use bonk.Scheduler.{Room}
use bonk.Scheduler.Collect.{Answers, node, CollectsAll, none_left, one_more}
use bonk.Cmd.Ends.{called, Ends, holos-Ends}
use bonk.Cmd.Names.{Served, Handled, bonk_tasks, holos_tasks}
use bonk.Cmd.Start.{
  set_config_file, add_config_path, set_config_name, automatic_env, read_in_config, config_calls,
  init_bonk, string_default, holos_flags, exit_status,
}

abbrev shell : Shell ℕ
shell = record {
  getwd = λ w. ok "/work";
  join_path = λ a b. append a (append "/" b);
  start_bubble = λ w. (7, w);
  quit_bubble = λ bubble w. w;
  new_uuid = λ w. (w, w + 1);
}

abbrev disk : Host ℕ ℕ
disk = record {
  mkdir_all = λ id w. (none, w);
  create_state = λ id w. (none, w);
  encode_state = λ id st w. (none, w);
  open_state = λ id w. some (message "no state");
  decode_state = λ id w. error (message "no state");
  glob = λ root pattern w. ok [];
  open_file = λ root file w. none;
  copy = λ root file w h. (none, h);
  new_hash = 0;
  reset = λ h. 0;
  sum = λ h. h;
  hash_value = λ h v. (ok 0, h);
  hash_tasks = λ h ts. (ok 0, h);
}

abbrev hosts : Session → Host ℕ ℕ
hosts session = disk

abbrev idle : Executor ℕ
idle = record {
  execute = λ session tsk result w. record { err = none; tsk = tsk; result = result; world = w };
  open_session = λ session w. (none, w);
  close_session = λ id w. w;
}

-- Every start of a plugin succeeds, and the world counts them.
abbrev clients : String → ℕ → Outcome (Executor ℕ) × ℕ
clients path w = (ok idle, w + 1)

abbrev watch : List ℕ → Executor ℕ → Executor ℕ
watch observers exec = exec

abbrev three : Children (Executor ℕ)
three = cons "test" (leaf idle) (cons "resources" (leaf idle) (cons "kustomize" (leaf idle) nil))

bonk_built :
    build hosts clients path_base watch (bonk_options shell 100 7 1 "/work") 0
    ≡ built (Statecheck.as_executor hosts (as_executor three)) 3
unfolding build bonk_options path_base
bonk_built = refl

bonk_tasks_example :
    (cs : Children (Executor ℕ)) × (Statecheck.as_executor hosts (as_executor three)
      ≡ Statecheck.as_executor hosts (as_executor cs))
    × Served shell hosts clients watch cs test_path "test.Test" "Test"
    × Served shell hosts clients watch cs resources_path "resources.Resources" "Resources"
    × Served shell hosts clients watch cs kustomize_path "kustomize.Kustomize" "Kustomize"
    × ((e : Executor ℕ)
        → Handled (test_plugin e) "Test" e
          × Handled (resources_plugin e) "Resources" e
          × Handled (kustomize_plugin e) "Kustomize" e)
unfolding bonk.Task.Value.new bonk.Task.Value.with_inputs
bonk_tasks_example =
    bonk_tasks shell hosts clients watch 100 7 1 "/work"
      (Statecheck.as_executor hosts (as_executor three)) 0 3 bonk_built

-- One that stands for the plugin of the program itself.
abbrev mine : Executor ℕ
mine = record idle { close_session = λ id w. w + 10 }

abbrev own : Children (Executor ℕ)
own = cons "resources" (leaf idle) (cons "kustomize" (leaf idle) (cons "holos" (leaf mine) nil))

abbrev no_cue : Cue ℕ ℕ ℕ
no_cue = record {
  instances = λ args dir w. [];
  build_instances = λ is. ok [];
  no_value = 0;
  unify = λ a b. a;
  lookup_path = λ path c. c;
  value_error = λ c. none;
  decode_platform = λ c. ok [];
  decode_build_plan = λ c. error (message "no plan");
}

holos_built :
    build hosts clients path_base watch (holos_options shell 100 "platform" 7 1 mine "/work") 0
    ≡ built (Statecheck.as_executor hosts (as_executor own)) 2
unfolding build holos_options path_base
holos_built = refl

holos_tasks_example :
    (cs : Children (Executor ℕ)) × (Statecheck.as_executor hosts (as_executor own)
      ≡ Statecheck.as_executor hosts (as_executor cs))
    × (route cs "holos.RenderPlatform" ≡ some (mine, "RenderPlatform"))
    × ((c : Component)
        → route cs (component_task no_cue c).executor ≡ some (mine, "RenderComponent"))
    × ((vs : Values)
        → Served shell hosts clients watch cs resources_path
            (Holos.resources_task no_cue vs).executor
            "Resources")
    × ((d e : Executor ℕ)
        → Handled (holos_plugin d e) "RenderPlatform" d
          × Handled (holos_plugin d e) "RenderComponent" e
          × Handled (resources_plugin e) "Resources" e)
unfolding bonk.Task.Value.new bonk.Task.Value.with_inputs
holos_tasks_example =
    holos_tasks shell hosts clients watch 100 7 1 "platform" "/work" no_cue mine
      (Statecheck.as_executor hosts (as_executor own)) 0 2 holos_built

abbrev always : ℕ → Room
always concurrency n = true

-- An observer that executes tasks only while a session is open, from the world 10 on.
abbrev not_open : ℕ → Option Error → Option Error
not_open w err = if ltb w 10 then some (message "not open") else err

abbrev watch_open : List ℕ → Executor ℕ → Executor ℕ
watch_open observers e = record {
  execute = λ session tsk result w.
      let r = e.execute session tsk result w in record r { err = not_open w r.err };
  open_session = λ session w. (none, w + 10);
  close_session = λ id w. w - 10;
}

abbrev IsOpen : List Session → ℕ → Type 0
IsOpen [] w = Unit
IsOpen (session ∷ opened) w = 10 ≤ w

is_open : (w : ℕ) (err : Option Error) → 10 ≤ w → err ≡ none → not_open w err ≡ none
is_open w err h e = ground (arith, h, e)

abbrev watched : Executor ℕ
watched = watch_open (7 ∷ []) (Statecheck.as_executor hosts (as_executor own))

abbrev opts : Options ℕ
opts = called shell hosts clients watch_open always IsOpen 100 "platform" mine [] 0

called_built : build hosts clients path_base watch_open opts 1 ≡ built watched 3
unfolding build holos_options path_base
called_built = refl

the_task-Answers :
    Answers watched
      (new_local_session 0 "/work")
      (λ w. 10 ≤ w)
      (platform_task shell "platform")
      []
      []
unfolding get_outputs get_followup_tasks as_executor Statecheck.as_executor new with_inputs
    Statecheck.detect_state_mismatches Statecheck.save_state Statecheck.collect_state
    Statecheck.hash_files
the_task-Answers = record {
  succeeds = λ w h. is_open w none h refl;
  stays = λ w h. h;
  leaves = λ w h. refl;
}

all-Collects :
    CollectsAll watched
      (new_local_session 0 "/work")
      (λ w. 10 ≤ w)
      (platform_task shell "platform" ∷ [])
      []
      3
all-Collects =
    one_more [] [] 2 0 (node [] [] [] 0 the_task-Answers none_left refl refl) none_left refl refl

abbrev Returns : Option Error → ℕ → Type 0
Returns err w = Ends shell hosts clients watch_open always IsOpen 100 "platform" mine [] 0 err w

holos-Ends_example :
    ((err : Option Error) (w' : ℕ) → Returns err w' → (err ≡ none) × (u : ℕ) × (w' ≡ u))
    × (((n : ℕ) → always 100 n ≡ true) → (w' : ℕ) × Returns none w')
unfolding holos_options Statecheck.as_executor as_executor
holos-Ends_example =
    holos-Ends shell hosts clients watch_open always IsOpen 100 "platform" mine [] 0 [] watched 3
      called_built tt ((λ w h. (refl, omega arith)), tt) ([], 3, [], all-Collects, refl, refl)

abbrev exec : Executor ℕ
exec = Statecheck.as_executor hosts (as_executor own)

-- The options of the command, with one executor and two plugins.
abbrev whole : Options ℕ
whole = holos_options shell 100 "platform" 7 1 mine "/work"

whole_paths : All (λ path. NoSep (path_base path)) whole.plugins
unfolding holos_options path_base cut
whole_paths = (
  NoSep-of_cut (path_base resources_path) refl,
  (NoSep-of_cut (path_base kustomize_path) refl, tt),
)

whole_names : All IsPlain whole.executors
unfolding holos_options cut
whole_names = ((NoSep-of_cut "holos" refl, mine, refl), tt)

build-Reaches_example :
    (cs : Children (Executor ℕ)) × (exec ≡ wrap_executors hosts clients path_base watch whole cs)
    × All (Reaches clients path_base cs) whole.plugins
    × All (Leads hosts clients path_base watch cs) whole.executors
build-Reaches_example =
    build-Reaches hosts clients path_base watch whole exec 0 2 whole_paths whole_names holos_built

test_logs :
    execute_test (λ value w. w + value) new_test_session test_task (some 3) none 1
    ≡ some (record { err = none; tsk = test_task; result = none; world = 4 })
unfolding execute_test
test_logs = refl

init_calls :
    init_bonk
    ≡ add_config_path "." ∷ set_config_name ".bonk.yaml" ∷ automatic_env ∷ read_in_config ∷ []
unfolding init_bonk
init_calls = refl

given_calls : config_calls "a.yaml" ≡ set_config_file "a.yaml" ∷ automatic_env ∷ read_in_config ∷ []
unfolding config_calls
given_calls = refl

platform_default : string_default "platform" holos_flags ≡ "platform"
unfolding string_default holos_flags
platform_default = refl

exit_failed : exit_status (some (message "no")) ≡ 1
unfolding exit_status
exit_failed = refl
