-- ===== src/Plugin/Tests.antt =====
-- A plugin with two executors, and a manager of one.
use bonk.Base.{ℕ, zero, suc, ◌+◌, String, List, [], ◌∷◌, false, none, some, ◌≡◌, refl}
use bonk.Errors.{ok, error, wrap, message, append_error}
use bonk.Task.Value.{Value, Task, new_test_session}
use bonk.Executor.{Executor, Returned}
use bonk.Router.{leaf, router, Children, nil, cons, registered}
use bonk.Router.Route.{route}
use bonk.Router.Dispatch.{Agrees}
use bonk.Plugin.Client
use bonk.Plugin.Client.{GoPlugin, made, not_made, new_plugin_client, shutdown}
use bonk.Plugin.Shutdown.{Outcomes, shutdown_cases}
use bonk.Plugin.Serving.{Plugin, serve_test, grpc_client, handle, dropped}
use bonk.Plugin.Server.{Files, execute, execute_logged}

abbrev add_to : ℕ → ℕ → ℕ
add_to e w = w + e

shutdown_cases_example : Outcomes add_to (cons "a" (leaf 1) nil) 0
shutdown_cases_example = shutdown_cases add_to (cons "a" (leaf 1) nil) 0

abbrev both : Children ℕ
both = cons "a" (router (cons "" (leaf 1) (cons "b" (leaf 2) nil))) nil

abbrev options : List (String × ℕ)
options = ("a", 1) ∷ ("a.b", 2) ∷ []

-- The text log cannot be closed.
abbrev files : Files ℕ
files = record {
  mkdir_all = λ session id w. (none, w);
  create = λ session id name w. (none, w + 1);
  close = λ session id name w. (some (message name), w);
}

abbrev adds : Executor ℕ
adds = record {
  execute =
      λ session tsk result w. record { err = none; tsk = tsk; result = result; world = w + 10 };
  open_session = λ session w. (none, w);
  close_session = λ id w. w;
}

abbrev a_task : Task
a_task = record { id = "t"; executor = "a"; inputs = none; dependencies = none; args = Value.nil }

execute_logged_example :
    (r : Returned ℕ) × Agrees
      (route (cons "a" (leaf adds) nil) "a")
      new_test_session
      a_task
      none
      2
      r
    × (let text = files.close new_test_session "t" "log.txt" r.world in
        let json = files.close new_test_session "t" "log.jsonl" text.1 in
        execute files (cons "a" (leaf adds) nil) new_test_session a_task none 0 ≡ record {
          err = append_error r.err (append_error text.0 json.0);
          tsk = r.tsk;
          result = r.result;
          world = json.1;
        })
execute_logged_example =
    execute_logged files (cons "a" (leaf adds) nil) new_test_session a_task none 0 0 1 2
      ((λ session tsk result w. refl), tt) refl refl refl

-- A process whose connection is of gRPC only for one path.
abbrev go_plugin : GoPlugin ℕ
go_plugin = record {
  new_client = λ path w. (w, w + 1);
  client = λ handle w. elim handle [
    | zero ↦ (ok (Client.grpc_client 5), w)
    | suc n ↦ (error (message "no process"), w)
  ];
  kill = λ handle w. w + 100;
  new_grpc_client = λ conn. adds;
}

first_client :
    new_plugin_client go_plugin "a" 0 ≡ made (record { executor = adds; plugin_client = 0 }) 1
unfolding new_plugin_client
first_client = refl

second_client :
    new_plugin_client go_plugin "a" 1
    ≡ not_made (wrap "failed to create client" (message "no process")) 2
unfolding new_plugin_client
second_client = refl

killed : shutdown go_plugin (record { executor = adds; plugin_client = 0 }) 1 ≡ 101
unfolding shutdown
killed = refl

-- A plugin in a test, and the ends of a log record.
abbrev a_plugin : Plugin ℕ
a_plugin = record { router = cons "a" (leaf adds) nil; plugin_name = "p" }

served : serve_test adds a_plugin ≡ registered (cons "p" (leaf adds) nil)
unfolding serve_test
served = refl

no_client : grpc_client a_plugin ≡ error (message "unsupported operation")
unfolding grpc_client
no_client = refl

not_enabled : handle false false ≡ dropped
unfolding handle
not_enabled = refl
