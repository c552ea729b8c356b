-- ===== src/K8s/Plans.antt =====
-- plugins/k8s/holos/render_component.go: the tasks that a build plan stands for.
use bonk.Base.{
  List, [], ◌∷◌, ◌++◌, Option, none, some, if◌then◌else◌, ◌==◌, All, All-append, Bool-cases, inl,
  inr, ◌≡◌, refl, sym, ◌∙◌, ap,
}
use mathlib.Core.List.{append_assoc, append-nil}
use bonk.Task.Value.{Values, empty, item, Task, new}
use bonk.Task.Result.{Result, add_followup_tasks}
use bonk.K8s.Holos.{
  Generator, Artifact, BuildPlan, Cue, gather, resources_task, add_resources, add_generator,
  add_generators, add_artifact, add_artifacts,
}

pub add_nothing : (result : Option Result) → add_followup_tasks [] result ≡ result
unfolding add_followup_tasks
add_nothing none = refl
add_nothing (some r) = rw (append-nil r.followup_tasks) refl

pub add_twice :
    (xs ys : List Task) (result : Option Result)
    → add_followup_tasks ys (add_followup_tasks xs result) ≡ add_followup_tasks (xs ++ ys) result
unfolding add_followup_tasks
add_twice xs ys none = refl
add_twice xs ys (some r) = rw (append_assoc r.followup_tasks xs ys) refl

module _ {W I C : Type 0} (cue : Cue W I C) where
  -- The tasks that a plan stands for: one for each generator of resources that has any, in each
  -- artifact that is not skipped, in order.
  abbrev pub tasks_of_values : Values → List Task
  tasks_of_values empty = []
  tasks_of_values (item v vs) = resources_task cue (item v vs) ∷ []

  abbrev pub tasks_of_generator : Generator → List Task
  tasks_of_generator g =
      if g.kind == "Resources" then tasks_of_values (gather cue g.resources) else []

  abbrev pub tasks_of_generators : List Generator → List Task
  tasks_of_generators [] = []
  tasks_of_generators (g ∷ gs) = tasks_of_generator g ++ tasks_of_generators gs

  abbrev pub tasks_of_artifacts : List Artifact → List Task
  tasks_of_artifacts [] = []
  tasks_of_artifacts (a ∷ rest) =
      (if a.skip then [] else tasks_of_generators a.generators) ++ tasks_of_artifacts rest

  abbrev pub tasks_of_plan : BuildPlan → List Task
  tasks_of_plan plan = if plan.disabled then [] else tasks_of_artifacts plan.artifacts

  add_resources_lem :
      (vs : Values) (result : Option Result)
      → add_resources cue vs result ≡ add_followup_tasks (tasks_of_values vs) result
  add_resources_lem empty result = sym (add_nothing result)
  add_resources_lem (item v vs) result = refl

  add_generator_lem :
      (g : Generator) (result : Option Result)
      → add_generator cue g result ≡ add_followup_tasks (tasks_of_generator g) result
  add_generator_lem g result = elim (Bool-cases (g.kind == "Resources")) [
    | inl e ↦ rw e (add_resources_lem (gather cue g.resources) result)
    | inr e ↦ rw e (sym (add_nothing result))
  ]

  add_generators_lem :
      (gs : List Generator) (result : Option Result)
      → add_generators cue gs result ≡ add_followup_tasks (tasks_of_generators gs) result
  add_generators_lem [] result = sym (add_nothing result)
  add_generators_lem (g ∷ gs) result =
      add_generators_lem gs (add_generator cue g result)
      ∙ ap (add_followup_tasks (tasks_of_generators gs)) (add_generator_lem g result)
      ∙ add_twice (tasks_of_generator g) (tasks_of_generators gs) result

  add_artifact_lem :
      (a : Artifact) (result : Option Result)
      → add_artifact cue a result
        ≡ add_followup_tasks (if a.skip then [] else tasks_of_generators a.generators) result
  add_artifact_lem a result = elim (Bool-cases a.skip) [
    | inl e ↦ rw e (sym (add_nothing result))
    | inr e ↦ rw e (add_generators_lem a.generators result)
  ]

  add_artifacts_lem :
      (as_ : List Artifact) (result : Option Result)
      → add_artifacts cue as_ result ≡ add_followup_tasks (tasks_of_artifacts as_) result
  add_artifacts_lem [] result = sym (add_nothing result)
  add_artifacts_lem (a ∷ rest) result =
      add_artifacts_lem rest (add_artifact cue a result)
      ∙ ap (add_followup_tasks (tasks_of_artifacts rest)) (add_artifact_lem a result)
      ∙ add_twice (if a.skip then [] else tasks_of_generators a.generators)
          (tasks_of_artifacts rest) result

  pub plan_lem :
      (plan : BuildPlan) (result : Option Result)
      → (if plan.disabled then result else add_artifacts cue plan.artifacts result)
        ≡ add_followup_tasks (tasks_of_plan plan) result
  plan_lem plan result = elim (Bool-cases plan.disabled) [
    | inl e ↦ rw e (sym (add_nothing result))
    | inr e ↦ rw e (add_artifacts_lem plan.artifacts result)
  ]

  -- A task for resources.
  abbrev pub IsResources : Task → Type 0
  IsResources t = (t.id ≡ "resources") × (t.executor ≡ "resources.Resources")

  tasks_of_values_lem : (vs : Values) → All IsResources (tasks_of_values vs)
  unfolding new
  tasks_of_values_lem empty = tt
  tasks_of_values_lem (item v vs) = ((refl, refl), tt)

  tasks_of_generators_lem : (gs : List Generator) → All IsResources (tasks_of_generators gs)
  tasks_of_generators_lem [] = tt
  tasks_of_generators_lem (g ∷ gs) =
      let rest = tasks_of_generators_lem gs in
      elim (Bool-cases (g.kind == "Resources")) [
        | inl e ↦ rw e (
            All-append IsResources (tasks_of_values (gather cue g.resources))
              (tasks_of_generators gs) (tasks_of_values_lem (gather cue g.resources)) rest)
        | inr e ↦ rw e rest
      ]

  tasks_of_artifacts_lem : (as_ : List Artifact) → All IsResources (tasks_of_artifacts as_)
  tasks_of_artifacts_lem [] = tt
  tasks_of_artifacts_lem (a ∷ rest) =
      let others = tasks_of_artifacts_lem rest in
      elim (Bool-cases a.skip) [
        | inl e ↦ rw e others
        | inr e ↦ rw e (
            All-append IsResources (tasks_of_generators a.generators) (tasks_of_artifacts rest)
              (tasks_of_generators_lem a.generators) others)
      ]

  pub tasks_of_plan_lem : (plan : BuildPlan) → All IsResources (tasks_of_plan plan)
  tasks_of_plan_lem plan = elim (Bool-cases plan.disabled) [
    | inl e ↦ rw e tt
    | inr e ↦ rw e (tasks_of_artifacts_lem plan.artifacts)
  ]
