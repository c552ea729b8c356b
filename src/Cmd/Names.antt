-- ===== src/Cmd/Names.antt =====
-- cmd/bonk/main.go and cmd/holos/main.go with the driver, the plugin manager and the router: the
-- executors that the tasks of the commands lead to.
use bonk.Base.{ℕ, String, List, [], ◌∷◌, some, ◌≡◌, refl, sym, ◌∙◌, ap}
use bonk.Base.Text.{append, NoSep, NoSep-of_cut, cut}
use bonk.Base.Paths.{path_base}
use bonk.Errors.{Outcome}
use bonk.Task.Value.{Session, new, Values}
use bonk.Executor.{Executor}
use bonk.Router.{leaf, Children, nil, cons, registered, as_executor, register_executor}
use bonk.Router.Route.{route}
use bonk.Plugin.Routes.{Made, Reaches}
use bonk.Plugin.Server.{new_plugin}
use bonk.Statecheck.{Host}
use bonk.Statecheck as Statecheck
use bonk.Driver.{built, build}
use bonk.Driver.Routes.{build-Reaches}
use bonk.K8s.Holos.{Cue, Component, component_task}
use bonk.K8s.Holos as Holos
use bonk.Cmd.{
  Shell, test_path, resources_path, kustomize_path, test_plugin, resources_plugin, kustomize_plugin,
  holos_plugin, test_task, resources_task, kustomize_task, bonk_options, platform_task,
  holos_options,
}

-- The last part of a plugin's path is the plugin's name.
test_base : path_base test_path ≡ "test"
unfolding path_base
test_base = refl

resources_base : path_base resources_path ≡ "resources"
unfolding path_base
resources_base = refl

kustomize_base : path_base kustomize_path ≡ "kustomize"
unfolding path_base
kustomize_base = refl

test_NoSep : NoSep (path_base test_path)
unfolding path_base cut
test_NoSep = NoSep-of_cut (path_base test_path) refl

resources_NoSep : NoSep (path_base resources_path)
unfolding path_base cut
resources_NoSep = NoSep-of_cut (path_base resources_path) refl

kustomize_NoSep : NoSep (path_base kustomize_path)
unfolding path_base cut
kustomize_NoSep = NoSep-of_cut (path_base kustomize_path) refl

-- The plugin can be made, and has the executor under the name.
module _ {E : Type 0} where
  abbrev pub Handled : String × List (String × E) → String → E → Type 0
  Handled (name, options) rest e =
      (cs : Children E) × (new_plugin options ≡ registered cs) × (route cs rest ≡ some (e, ""))

  test-Handled : (e : E) → Handled (test_plugin e) "Test" e
  unfolding new_plugin register_executor route
  test-Handled e = (cons "Test" (leaf e) nil, refl, refl)

  resources-Handled : (e : E) → Handled (resources_plugin e) "Resources" e
  unfolding new_plugin register_executor route
  resources-Handled e = (cons "Resources" (leaf e) nil, refl, refl)

  kustomize-Handled : (e : E) → Handled (kustomize_plugin e) "Kustomize" e
  unfolding new_plugin register_executor route
  kustomize-Handled e = (cons "Kustomize" (leaf e) nil, refl, refl)

  holos-Handled :
      (d e : E)
      → Handled (holos_plugin d e) "RenderPlatform" d
        × Handled (holos_plugin d e) "RenderComponent" e
  unfolding new_plugin register_executor route
  holos-Handled d e =
      let cs = cons "RenderPlatform" (leaf d) (cons "RenderComponent" (leaf e) nil) in
      ((cs, refl, refl), (cs, refl, refl))

module _ {W H : Type 0} (shell : Shell W) (hosts : Session → Host W H)
    (new_plugin_client : String → W → Outcome (Executor W) × W)
    (observe : List ℕ → Executor W → Executor W) where
  -- The task leads to a client of the plugin, which gets the rest of the name.
  abbrev pub Served : Children (Executor W) → String → String → String → Type 0
  Served cs path name rest =
      (plug : Executor W) × Made new_plugin_client path_base path plug
      × (route cs name ≡ some (plug, rest))

  Reaches-Served :
      (cs : Children (Executor W)) (path name rest : String)
      → append (path_base path) (append "." rest) ≡ name
      → Reaches new_plugin_client path_base cs path
      → Served cs path name rest
  Reaches-Served cs path name rest e (plug, made, leads) =
      (plug, made, ap (route cs) (sym e) ∙ leads rest)

  -- Let `bonk` come to its tasks. Then its executor observes and checks a router in which the three
  -- tasks lead to clients of the three plugins, with the names "Test", "Resources" and "Kustomize"; and each
  -- plugin can be made and has its executor under that name.
  pub bonk_tasks :
      (concurrency bubble id : ℕ) (cwd : String) (exec : Executor W) (w w' : W)
      → build hosts new_plugin_client path_base observe
          (bonk_options shell concurrency bubble id cwd)
          w
        ≡ built exec w'
      → (cs : Children (Executor W)) × (exec
          ≡ observe (bubble ∷ []) (Statecheck.as_executor hosts (as_executor cs)))
        × Served cs test_path (test_task.executor) "Test"
        × Served cs resources_path (resources_task.executor) "Resources"
        × Served cs kustomize_path (kustomize_task.executor) "Kustomize"
        × ((e : Executor W)
            → Handled (test_plugin e) "Test" e
              × Handled (resources_plugin e) "Resources" e
              × Handled (kustomize_plugin e) "Kustomize" e)
  unfolding bonk_options new path_base
  bonk_tasks concurrency bubble id cwd exec w w' h =
      let (cs, is, (t, (r, (k, _))), _) =
        build-Reaches hosts new_plugin_client path_base observe
          (bonk_options shell concurrency bubble id cwd) exec w w'
          (test_NoSep, (resources_NoSep, (kustomize_NoSep, tt))) tt h in
      (
        cs,
        is,
        Reaches-Served cs test_path "test.Test" "Test" refl t,
        Reaches-Served cs resources_path "resources.Resources" "Resources" refl r,
        Reaches-Served cs kustomize_path "kustomize.Kustomize" "Kustomize" refl k,
        λ e. (test-Handled e, resources-Handled e, kustomize-Handled e),
      )

  -- Let `holos` come to its task. Then its executor observes and checks a router in which the task,
  -- and the tasks of the components that follow from it, lead to the executor of its own process,
  -- with the names "RenderPlatform" and "RenderComponent", and the tasks of resources that follow
  -- from those lead to a client of the resources plugin, with the name "Resources"; and
  -- the plugins can be made and have their executors under those names.
  pub holos_tasks :
      (concurrency bubble id : ℕ) (platform dir : String) {I C : Type 0} (cue : Cue W I C)
      (holos exec : Executor W) (w w' : W)
      → build hosts new_plugin_client path_base observe
          (holos_options shell concurrency platform bubble id holos dir)
          w
        ≡ built exec w'
      → (cs : Children (Executor W)) × (exec
          ≡ observe (bubble ∷ []) (Statecheck.as_executor hosts (as_executor cs)))
        × (route cs (platform_task shell platform).executor ≡ some (holos, "RenderPlatform"))
        × ((c : Component)
            → route cs (component_task cue c).executor ≡ some (holos, "RenderComponent"))
        × ((vs : Values)
            → Served cs resources_path (Holos.resources_task cue vs).executor "Resources")
        × ((d e : Executor W)
            → Handled (holos_plugin d e) "RenderPlatform" d
              × Handled (holos_plugin d e) "RenderComponent" e
              × Handled (resources_plugin e) "Resources" e)
  unfolding holos_options new path_base cut
  holos_tasks concurrency bubble id platform dir cue holos exec w w' h =
      let (cs, is, (r, _), ((e, same, leads), _)) =
        build-Reaches hosts new_plugin_client path_base observe
          (holos_options shell concurrency platform bubble id holos dir) exec w w'
          (resources_NoSep, (kustomize_NoSep, tt)) ((NoSep-of_cut "holos" refl, holos, refl), tt)
          h in
      let mine : holos ≡ e = cc in
      (
        cs,
        is,
        leads "RenderPlatform" ∙ ap (λ x. some (x, "RenderPlatform")) (sym mine),
        λ c. leads "RenderComponent" ∙ ap (λ x. some (x, "RenderComponent")) (sym mine),
        λ vs. Reaches-Served cs resources_path "resources.Resources" "Resources" refl r,
        λ d e. ((holos-Handled d e).0, (holos-Handled d e).1, resources-Handled e),
      )
