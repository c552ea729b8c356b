-- ===== src/Plugin/Routes.antt =====
-- pkg/executor/plugin/client_manager.go with pkg/executor/router/router.go: the names that lead to
-- plugins that were started.
use bonk.Base.{String, List, [], ◌∷◌, Option, none, some, All, ◌≡◌, refl, sym, ◌∙◌}
use bonk.Base.Text.{append, NoSep}
use bonk.Errors.{Error, Outcome, ok, error, append_error, append_error-none}
use bonk.Executor.{Executor}
use bonk.Router.{
  leaf, Children, get, set, Registered, registered, refused, panicked, unfinished,
  register_executor,
}
use bonk.Router.Plain.{IsFlat, register_plain, set-IsFlat, Within, set-Within, route_below}
use bonk.Router.Entries.{get-set_self}
use bonk.Router.Route.{route}
use bonk.Plugin.Starting.{
  Started, started, crashed, out_of_fuel, start_plugin, start_plugins, from_client, from_registered,
  start_plugins_all,
}

module _ {W : Type 0} (new_plugin_client : String → W → Outcome (Executor W) × W)
    (base : String → String) where
  -- The client of a path, as it was made at some time.
  abbrev pub Made : String → Executor W → Type 0
  Made path plug = (v : W) × ((new_plugin_client path v).0 ≡ ok plug)

  -- A plugin that was started without an error.
  abbrev Added : Children (Executor W) → String → Children (Executor W) → Type 0
  Added cs path cs' =
      (plug : Executor W) × Made path plug
      × (get (base path) cs ≡ none)
      × (cs' ≡ set (base path) (leaf plug) cs)

  from_registered_plain :
      (path : String) (cs cs' : Children (Executor W)) (plug : Executor W) (v w w' : W)
      (r : Registered (Executor W))
      → (new_plugin_client path v).0 ≡ ok plug
      → register_executor cs (base path) (leaf plug) ≡ r
      → NoSep (base path)
      → IsFlat cs
      → from_registered new_plugin_client base r w ≡ started none cs' w'
      → Added cs path cs'
  from_registered_plain path cs cs' plug v w w' (registered mid) made e plain flat h =
      let same : mid ≡ cs' = cc in
      let (free, is) = register_plain cs mid (base path) plug e plain flat in
      (plug, (v, made), free, sym same ∙ is)
  from_registered_plain path cs cs' plug v w w' (refused x mid) made e plain flat h = absurd cc
  from_registered_plain path cs cs' plug v w w' (panicked x) made e plain flat h = absurd cc
  from_registered_plain path cs cs' plug v w w' unfinished made e plain flat h = absurd cc

  from_client_plain :
      (path : String) (cs cs' : Children (Executor W)) (v w w' : W) (client : Outcome (Executor W))
      → (new_plugin_client path v).0 ≡ client
      → NoSep (base path)
      → IsFlat cs
      → from_client new_plugin_client base path cs client w ≡ started none cs' w'
      → Added cs path cs'
  from_client_plain path cs cs' v w w' (error x) made plain flat h = absurd cc
  from_client_plain path cs cs' v w w' (ok plug) made plain flat h =
      from_registered_plain path cs cs' plug v w w' _ made refl plain flat h

  start_plugin_plain :
      (path : String) (cs cs' : Children (Executor W)) (w w' : W)
      → NoSep (base path)
      → IsFlat cs
      → start_plugin new_plugin_client base path cs w ≡ started none cs' w'
      → Added cs path cs'
  unfolding start_plugin
  start_plugin_plain path cs cs' w w' plain flat h =
      from_client_plain path cs cs' w (new_plugin_client path w).1 w' _ refl plain flat h

  -- The client of each path is in the router, under the last part of the path.
  abbrev pub Holds : Children (Executor W) → String → Type 0
  Holds cs path = (plug : Executor W) × Made path plug × (get (base path) cs ≡ some (leaf plug))

  abbrev pub AllPlain : List String → Type 0
  AllPlain paths = All (λ path. NoSep (base path)) paths

  -- What a start leaves, and what the later ones keep of it.
  abbrev pub Held : List String → Children (Executor W) → Children (Executor W) → Type 0
  Held paths cs cs' = All (Holds cs') paths × Within cs cs' × IsFlat cs'

  Held-next :
      (path : String) (paths : List String) (cs mid cs' : Children (Executor W))
      → Added cs path mid
      → Held paths mid cs'
      → Held (path ∷ paths) cs cs'
  Held-next path paths cs mid cs' (plug, made, free, is) (held, within, flat) =
      let here : get (base path) mid ≡ some (leaf plug) =
        rw is (get-set_self (base path) (leaf plug) cs) in
      (
        ((plug, made, within (base path) plug here), held),
        λ k e g. within k e (rw is (set-Within (base path) plug cs free k e g)),
        flat,
      )

  Added-IsFlat :
      (path : String) (cs mid : Children (Executor W)) → Added cs path mid → IsFlat cs → IsFlat mid
  Added-IsFlat path cs mid (plug, made, free, is) flat = rw is (set-IsFlat (base path) plug cs flat)

  start_plugins_next :
      (path : String) (paths : List String) (errs : Option Error) (cs cs' : Children (Executor W))
      (w w' : W) (one : Started W)
      → start_plugin new_plugin_client base path cs w ≡ one
      → ((mid : Children (Executor W)) (v : W)
          → IsFlat mid
          → start_plugins new_plugin_client base paths none mid v ≡ started none cs' w'
          → Held paths mid cs')
      → NoSep (base path)
      → IsFlat cs
      → start_plugins new_plugin_client base (path ∷ paths) errs cs w ≡ started none cs' w'
      → Held (path ∷ paths) cs cs'
  unfolding start_plugins
  start_plugins_next path paths errs cs cs' w w' (started err mid v) e ih plain flat h =
      let rest : start_plugins new_plugin_client base paths (append_error errs err) mid v
          ≡ started none cs' w' =
        rw (e, start_plugins) at h in
      let both =
        (start_plugins_all new_plugin_client base paths (append_error errs err) mid cs' v w'
          rest).0 in
      let fine = (append_error-none errs err both).1 in
      let one = rw fine at e in
      let here = start_plugin_plain path cs mid w v plain flat one in
      Held-next path paths cs mid cs' here
        (ih mid v (Added-IsFlat path cs mid here flat) (rw both at rest))
  start_plugins_next path paths errs cs cs' w w' (crashed x) e ih plain flat h =
      let bad = rw (e, start_plugins) at h in absurd cc
  start_plugins_next path paths errs cs cs' w w' out_of_fuel e ih plain flat h =
      let bad = rw (e, start_plugins) at h in absurd cc

  pub start_plugins-Held :
      (paths : List String) (errs : Option Error) (cs cs' : Children (Executor W)) (w w' : W)
      → AllPlain paths
      → IsFlat cs
      → start_plugins new_plugin_client base paths errs cs w ≡ started none cs' w'
      → Held paths cs cs'
  unfolding start_plugins
  start_plugins-Held [] errs cs cs' w w' plain flat h =
      let same : cs ≡ cs' = cc in (tt, (λ k e g. rw (sym same) g), rw (sym same) flat)
  start_plugins-Held (path ∷ paths) errs cs cs' w w' (plain, plains) flat h =
      start_plugins_next path paths errs cs cs' w w' _ refl
        (λ mid v mid_flat rest. start_plugins-Held paths none mid cs' v w' plains mid_flat rest)
        plain flat h

  -- Every name below the last part of the path leads to a client of the path, with the rest of the
  -- name.
  abbrev pub Reaches : Children (Executor W) → String → Type 0
  Reaches cs path =
      (plug : Executor W) × Made path plug
      × ((rest : String) → route cs (append (base path) (append "." rest)) ≡ some (plug, rest))

  Holds-Reaches :
      (cs : Children (Executor W)) (path : String)
      → NoSep (base path)
      → Holds cs path
      → Reaches cs path
  Holds-Reaches cs path plain (plug, made, found) =
      (plug, made, λ rest. route_below cs (base path) rest plug plain found)

  pub All-Reaches :
      (cs : Children (Executor W)) (paths : List String)
      → AllPlain paths
      → All (Holds cs) paths
      → All (Reaches cs) paths
  All-Reaches cs [] plain held = tt
  All-Reaches cs (path ∷ paths) (plain, plains) (held, more) =
      (Holds-Reaches cs path plain held, All-Reaches cs paths plains more)
