-- ===== src/Plugin/Serving.antt =====
-- pkg/executor/plugin: what a plugin gives to package go-plugin (server.go), where its log records go
-- (log_streaming.go), and its connection in tests (testing.go).
use bonk.Base.{String, Bool, true, false, List, [], ◌∷◌, some, ◌≡◌}
use bonk.Base.Text.{append, NoSep}
use bonk.Errors.{Outcome, error, message}
use bonk.Executor.{Executor}
use bonk.Router.{leaf, Children, new, Registered, registered, register_executor}
use bonk.Router.Entries.{get-set_self}
use bonk.Router.Plain.{register_plain, new-IsFlat, route_below}
use bonk.Router.Route.{route}
use bonk.Plugin.Server.{Files, plugin_executor}

-- `Plugin`
pub record Plugin (W : Type 0) : Type 0 where
  pub router : Children (Executor W)
  pub plugin_name : String

module _ {W : Type 0} where
  -- `Name`
  abbrev pub name : Plugin W → String
  name p = p.plugin_name

  -- `getPluginSet`
  unfoldable pub get_plugin_set : Plugin W → List (String × Plugin W)
  get_plugin_set p = ("executor", p) ∷ []

  -- `GRPCServer`: the executor that the server is registered for, and no error.
  unfoldable pub grpc_server : Files W → Plugin W → Executor W
  unfolding plugin_executor
  grpc_server files p = plugin_executor files p.router

  -- `GRPCClient`, with the text of `errors.ErrUnsupported`.
  unfoldable pub grpc_client : Plugin W → Outcome (Executor W)
  grpc_client p = error (message "unsupported operation")

  -- The router of `ServeTest`, for the client of the connection.
  unfoldable pub serve_test : Executor W → Plugin W → Registered (Executor W)
  unfolding register_executor
  serve_test client p = register_executor new (name p) (leaf client)

  -- In a test, every name below a plugin's name without a separator leads to the client of the
  -- connection, with the rest of the name.
  serve_test-route :
      (client : Executor W) (p : Plugin W) (cs : Children (Executor W)) (rest : String)
      → NoSep p.plugin_name
      → serve_test client p ≡ registered cs
      → route cs (append p.plugin_name (append "." rest)) ≡ some (client, rest)
  unfolding serve_test
  serve_test-route client p cs rest plain h =
      let (_, is) = register_plain new cs p.plugin_name client h plain new-IsFlat in
      route_below cs p.plugin_name rest client plain
        (rw is (get-set_self p.plugin_name (leaf client) new))

-- Where a log record of a plugin goes.
pub data Sink : Type 0 where
  context_logger next_handler dropped : Sink

-- The handler of `init`, by whether the context's logger is the default one, and whether it is
-- enabled for the record's level.
unfoldable pub handle : Bool → Bool → Sink
handle true enabled = next_handler
handle false true = context_logger
handle false false = dropped
