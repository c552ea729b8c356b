-- ===== src/K8s/Rendering.antt =====
-- plugins/k8s/holos/render_component.go and render_platform.go: the followups as lists.
use bonk.Base.{
  String, List, [], ◌∷◌, map, true, Option, none, some, if◌then◌else◌, All, ◌≡◌, refl, sym, ◌∙◌,
}
use bonk.Errors.{ok}
use bonk.Task.Value.{Task, Session, new, with_inputs}
use bonk.Task.Id.{cut_id, new_id, cut_id-new_id}
use bonk.Task.Result.{Result, add_followup_tasks}
use bonk.Base.Text.{join}
use bonk.K8s.Holos.{
  Component, BuildPlan, Cue, component_task, add_components, platform, render_platform,
  add_artifacts, build_plan, render_component,
}
use bonk.K8s.Plans.{add_nothing, add_twice, tasks_of_plan, plan_lem, IsResources, tasks_of_plan_lem}

module _ {W I C : Type 0} (cue : Cue W I C) where
  render_component_loaded :
      (session : Session) (tsk : Task) (args : Component) (result : Option Result) (w : W)
      (plan : BuildPlan)
      → build_plan cue args session w ≡ ok plan
      → render_component cue session tsk (some args) result w
        ≡ some (record {
          err = none;
          tsk = tsk;
          result = if plan.disabled then result else add_artifacts cue plan.artifacts result;
          world = w;
        })
  unfolding render_component
  render_component_loaded session tsk args result w plan loaded = rw (loaded, render_component) refl

  render_platform_loaded :
      (session : Session) (tsk : Task) (path : String) (result : Option Result) (w : W)
      (components : List Component)
      → platform cue path session w ≡ ok components
      → render_platform cue session tsk (some path) result w
        ≡ some (record {
          err = none;
          tsk = tsk;
          result = add_components cue components result;
          world = w;
        })
  unfolding render_platform
  render_platform_loaded session tsk path result w components loaded =
      rw (loaded, render_platform) refl

  -- Rendering a component whose build plan can be loaded adds, in order, one task for each generator
  -- of resources that has any, in the artifacts of an enabled plan that are not skipped, and changes
  -- nothing else. All these tasks are for the resources plugin and have the same id "resources".
  pub render_component-tasks :
      (session : Session) (tsk : Task) (args : Component) (result : Option Result) (w : W)
      (plan : BuildPlan)
      → build_plan cue args session w ≡ ok plan
      → (render_component cue session tsk (some args) result w
          ≡ some (record {
            err = none;
            tsk = tsk;
            result = add_followup_tasks (tasks_of_plan cue plan) result;
            world = w;
          }))
        × All (IsResources cue) (tasks_of_plan cue plan)
  render_component-tasks session tsk args result w plan loaded = (
    render_component_loaded session tsk args result w plan loaded
        ∙ rw (plan_lem cue plan result) refl,
    tasks_of_plan_lem cue plan,
  )

  add_components_lem :
      (cs : List Component) (result : Option Result)
      → add_components cue cs result ≡ add_followup_tasks (map (component_task cue) cs) result
  add_components_lem [] result = sym (add_nothing result)
  add_components_lem (c ∷ cs) result =
      add_components_lem cs (add_followup_tasks (component_task cue c ∷ []) result)
      ∙ add_twice (component_task cue c ∷ []) (map (component_task cue) cs) result

  cut_ids :
      (cs : List Component)
      → map (λ (t : Task). cut_id t.id) (map (component_task cue) cs)
        ≡ map (λ (c : Component). ("component", c.name, true)) cs
  unfolding new with_inputs new_id join
  cut_ids [] = refl
  cut_ids (c ∷ cs) =
      rw
        (
          cut_ids cs,
          cut_id-new_id "component" c.name []
              (refl, (refl, (refl, (refl, (refl, (refl, (refl, (refl, (refl, tt))))))))),
        )
        refl

  -- Rendering a platform that can be loaded adds a task for each of its components, in order, and
  -- changes nothing else. The first separator in a task's id stands between
  -- "component" and the component's name.
  render_platform-tasks :
      (session : Session) (tsk : Task) (path : String) (result : Option Result) (w : W)
      (components : List Component)
      → platform cue path session w ≡ ok components
      → (render_platform cue session tsk (some path) result w
          ≡ some (record {
            err = none;
            tsk = tsk;
            result = add_followup_tasks (map (component_task cue) components) result;
            world = w;
          }))
        × (map (λ (t : Task). cut_id t.id) (map (component_task cue) components)
            ≡ map (λ (c : Component). ("component", c.name, true)) components)
  render_platform-tasks session tsk path result w components loaded = (
    render_platform_loaded session tsk path result w components loaded
        ∙ rw (add_components_lem components result) refl,
    cut_ids components,
  )
