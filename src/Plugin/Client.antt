-- ===== src/Plugin/Client.antt =====
-- pkg/executor/plugin/client.go: the client of a plugin, an executor behind a process. Package
-- go-plugin is a parameter, and so is the executor that a connection gives.
use bonk.Base.{ℕ, String}
use bonk.Errors.{Error, Outcome, ok, error, message, wrap}
use bonk.Executor.{Executor}

-- What `client.Client()` gives: a connection of gRPC, or a client of another protocol.
pub data Protocol : Type 0 where
  grpc_client : ℕ → Protocol
  other_client : Protocol

-- A `*goplugin.Client` is a number.
pub record GoPlugin (W : Type 0) : Type 0 where
  pub new_client : String → W → ℕ × W
  pub client : ℕ → W → Outcome Protocol × W
  pub kill : ℕ → W → W
  -- `rpc.NewGRPCClient`
  pub new_grpc_client : ℕ → Executor W

-- `PluginClient`
pub record PluginClient (W : Type 0) : Type 0 where
  pub executor : Executor W
  pub plugin_client : ℕ

pub data NewClient (W : Type 0) : Type 0 where
  made : PluginClient W → W → NewClient W
  not_made : Error → W → NewClient W
  panics : Error → NewClient W

module _ {W : Type 0} (lib : GoPlugin W) where
  abbrev pub after_client : ℕ → Outcome Protocol × W → NewClient W
  after_client handle (error e, w) = not_made (wrap "failed to create client" e) w
  after_client handle (ok other_client, w) = panics (message "rpcclient is of the wrong type")
  after_client handle (ok (grpc_client conn), w) =
      made (record { executor = lib.new_grpc_client conn; plugin_client = handle }) w

  -- `NewPluginClient`, for the command `go run` with the path.
  unfoldable pub new_plugin_client : String → W → NewClient W
  new_plugin_client go_cmd_path w =
      let (handle, w') = lib.new_client go_cmd_path w in after_client handle (lib.client handle w')

  -- `Shutdown`
  unfoldable pub shutdown : PluginClient W → W → W
  shutdown plugin w = lib.kill plugin.plugin_client w
