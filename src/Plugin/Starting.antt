-- ===== src/Plugin/Starting.antt =====
-- pkg/executor/plugin/client_manager.go: plugins that are started and registered. A subprocess and
-- its connection (`NewPluginClient`) are a parameter, as is `path.Base`.
use bonk.Base.{
  ℕ, ◌+◌, suc, String, List, [], ◌∷◌, Option, none, some, length, ◌≡◌, refl, sym, arith,
}
use bonk.Errors.{Error, Outcome, ok, error, append_error, append_error-none}
use bonk.Executor.{Executor}
use bonk.Router.{
  leaf, Children, Registered, registered, refused, panicked, unfinished, register_executor,
  get_num_executors,
}
use bonk.Router.Count.{get_num_executors-register_executor}

-- The collected error, the router and the world; or a panic in a registration.
pub data Started (W : Type 0) : Type 0 where
  started : Option Error → Children (Executor W) → W → Started W
  crashed : Error → Started W
  out_of_fuel : Started W

module _ {W : Type 0} (new_plugin_client : String → W → Outcome (Executor W) × W)
    (base : String → String) where
  abbrev pub from_registered : Registered (Executor W) → W → Started W
  from_registered (registered cs) w = started none cs w
  from_registered (refused e cs) w = started (some e) cs w
  from_registered (panicked e) w = crashed e
  from_registered unfinished w = out_of_fuel

  abbrev pub from_client : String → Children (Executor W) → Outcome (Executor W) → W → Started W
  from_client plugin_path cs (error e) w = started (some e) cs w
  from_client plugin_path cs (ok plug) w =
      from_registered (register_executor cs (base plugin_path) (leaf plug)) w

  -- `StartPlugin`
  unfoldable pub start_plugin : String → Children (Executor W) → W → Started W
  start_plugin plugin_path cs w =
      let (client, w') = new_plugin_client plugin_path w in from_client plugin_path cs client w'

  -- `StartPlugins`, with the paths in the order in which their goroutines go through the lock. The
  -- error collected before is an argument.
  unfoldable pub start_plugins : List String → Option Error → Children (Executor W) → W → Started W
  unfolding start_plugin
  start_plugins [] errs cs w = started errs cs w
  start_plugins (path ∷ paths) errs cs w = elim (start_plugin path cs w) [
    | started err cs' w' ↦ start_plugins paths (append_error errs err) cs' w'
    | crashed e ↦ crashed e
    | out_of_fuel ↦ out_of_fuel
  ]

  registered_one :
      (cs cs' : Children (Executor W)) (name : String) (plug : Executor W) (w w' : W)
      (r : Registered (Executor W))
      → register_executor cs name (leaf plug) ≡ r
      → from_registered r w ≡ started none cs' w'
      → get_num_executors cs' ≡ get_num_executors cs + 1
  registered_one cs cs' name plug w w' (registered mid) e h =
      let same : mid ≡ cs' = cc in
      rw (sym same) (get_num_executors-register_executor cs mid name plug e)
  registered_one cs cs' name plug w w' (refused x mid) e h = absurd cc
  registered_one cs cs' name plug w w' (panicked x) e h = absurd cc
  registered_one cs cs' name plug w w' unfinished e h = absurd cc

  from_client_one :
      (path : String) (cs cs' : Children (Executor W)) (client : Outcome (Executor W)) (w w' : W)
      → from_client path cs client w ≡ started none cs' w'
      → get_num_executors cs' ≡ get_num_executors cs + 1
  from_client_one path cs cs' (error e) w w' h = absurd cc
  from_client_one path cs cs' (ok plug) w w' h =
      registered_one cs cs' (base path) plug w w' _ refl h

  start_plugins_next :
      (n : ℕ) (paths : List String) (path : String) (errs : Option Error)
      (cs cs' : Children (Executor W)) (w w' : W) (one : Started W)
      → start_plugin path cs w ≡ one
      → ((err : Option Error) (mid : Children (Executor W)) (v : W)
          → start_plugins paths err mid v ≡ started none cs' w'
          → (err ≡ none) × (get_num_executors cs' ≡ get_num_executors mid + n))
      → start_plugins (path ∷ paths) errs cs w ≡ started none cs' w'
      → (errs ≡ none) × (get_num_executors cs' ≡ get_num_executors cs + suc n)
  unfolding start_plugins
  start_plugins_next n paths path errs cs cs' w w' (started err mid v) e ih h =
      let (both, rest) = ih (append_error errs err) mid v (rw (e, start_plugins) at h) in
      let (before, fine) = append_error-none errs err both in
      let here = rw fine at e in
      let first =
        from_client_one path cs mid (new_plugin_client path w).0 (new_plugin_client path w).1 v
          here in
      (before, omega (arith, rest, first))
  start_plugins_next n paths path errs cs cs' w w' (crashed x) e ih h =
      let bad = rw (e, start_plugins) at h in absurd cc
  start_plugins_next n paths path errs cs cs' w w' out_of_fuel e ih h =
      let bad = rw (e, start_plugins) at h in absurd cc

  pub start_plugins_all :
      (paths : List String) (errs : Option Error) (cs cs' : Children (Executor W)) (w w' : W)
      → start_plugins paths errs cs w ≡ started none cs' w'
      → (errs ≡ none) × (get_num_executors cs' ≡ get_num_executors cs + length paths)
  unfolding start_plugins
  start_plugins_all [] errs cs cs' w w' h =
      let same : cs ≡ cs' = cc in let fine : errs ≡ none = cc in (fine, rw same (omega arith))
  start_plugins_all (path ∷ paths) errs cs cs' w w' h =
      start_plugins_next (length paths) paths path errs cs cs' w w' (start_plugin path cs w) refl
        (λ err mid v k. start_plugins_all paths err mid cs' v w' k) h

  -- Plugins that are started without an error are all in the router: an executor each more than
  -- before.
  start_plugins-num :
      (paths : List String) (cs cs' : Children (Executor W)) (w w' : W)
      → start_plugins paths none cs w ≡ started none cs' w'
      → get_num_executors cs' ≡ get_num_executors cs + length paths
  start_plugins-num paths cs cs' w w' h = (start_plugins_all paths none cs cs' w w' h).1
