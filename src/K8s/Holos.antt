-- ===== src/K8s/Holos.antt =====
-- plugins/k8s/holos/render_platform.go and render_component.go: the platform and the components that
-- a CUE configuration describes, as followup tasks.
use bonk.Base.{String, List, [], ◌∷◌, Bool, Option, none, some, if◌then◌else◌, ◌==◌}
use bonk.Base.Text.{append}
use bonk.Errors.{Error, Outcome, ok, error, ◌>>=◌, wrap}
use bonk.Task.Value.{
  Value, slice, dict, Values, empty, item, field, end, Task, Session, local_path, new, with_inputs,
}
use bonk.Task.Id.{new_id}
use bonk.Task.Result.{Result, add_followup_tasks}
use bonk.Executor.{Returned}

-- `core.Component`, as far as the code reads it, and as the arguments of a task.
pub record Component : Type 0 where
  pub name : String
  pub path : String
  pub as_args : Value

-- `core.Generator`. A map stands for its entries in the order of an iteration.
pub record Generator : Type 0 where
  pub kind : String
  pub resources : List (String × List (String × Value))

pub record Artifact : Type 0 where
  pub artifact : String
  pub skip : Bool
  pub generators : List Generator

pub record BuildPlan : Type 0 where
  pub disabled : Bool
  pub artifacts : List Artifact

-- What the code calls of CUE; `I` is a `build.Instance`, `C` a `cue.Value`. Loading reads the files
-- of the world.
pub record Cue (W I C : Type 0) : Type 0 where
  pub instances : List String → String → W → List I
  pub build_instances : List I → Outcome (List C)
  -- `cue.Value{}`
  pub no_value : C
  pub unify : C → C → C
  pub lookup_path : String → C → C
  pub value_error : C → Option Error
  pub decode_platform : C → Outcome (List Component)
  pub decode_build_plan : C → Outcome BuildPlan

abbrev pub wrap_error : {A : Type 0} → String → Outcome A → Outcome A
wrap_error msg (ok a) = ok a
wrap_error msg (error e) = error (wrap msg e)

module _ {W I C : Type 0} (cue : Cue W I C) where
  -- `config.Dir`
  abbrev pub directory : Session → String
  directory session = elim (local_path session) [ none ↦ "" | some path ↦ path ]

  abbrev pub unify_all : C → List C → C
  unify_all value [] = value
  unify_all value (part ∷ parts) = unify_all (cue.unify value part) parts

  abbrev pub existing : C → Outcome C
  existing value = elim (cue.value_error value) [ none ↦ ok value | some e ↦ error e ]

  -- The part that both executors begin with: the value at `holos`.
  unfoldable pub load_holos : String → Session → W → Outcome C
  unfolding local_path
  load_holos path session w = do
    values ←
        wrap_error "failed to load platform"
          (cue.build_instances (cue.instances (append "./" path ∷ []) (directory session) w))
    wrap_error "failed to find holos config"
        (existing (cue.lookup_path "holos" (unify_all cue.no_value values)))

  abbrev pub component_task : Component → Task
  component_task c =
      new (new_id ("component" ∷ c.name ∷ [])) "holos.RenderComponent" c.as_args
        (with_inputs (append c.path "/*.cue" ∷ []) ∷ [])

  abbrev pub add_components : List Component → Option Result → Option Result
  add_components [] result = result
  add_components (c ∷ cs) result =
      add_components cs (add_followup_tasks (component_task c ∷ []) result)

  unfoldable pub platform : String → Session → W → Outcome (List Component)
  unfolding load_holos
  platform path session w = do
    config ← load_holos path session w
    wrap_error "failed to decode platform" (cue.decode_platform config)

  -- `Executor_RenderPlatform.Execute`, with the field `Platform` of its arguments. A task without
  -- arguments panics: `none`.
  unfoldable pub render_platform :
      Session → Task → Option String → Option Result → W → Option (Returned W)
  unfolding new with_inputs new_id platform add_followup_tasks
  render_platform session tsk none result w = none
  render_platform session tsk (some path) result w = elim (platform path session w) [
    | error e ↦ some (record { err = some e; tsk = tsk; result = result; world = w })
    | ok components ↦
        some
          (record { err = none; tsk = tsk; result = add_components components result; world = w })
  ]

  -- The two loops that gather the resources of a generator.
  abbrev pub gather_kind : List (String × Value) → Values → Values
  gather_kind [] rest = rest
  gather_kind ((k, v) ∷ entries) rest = item v (gather_kind entries rest)

  abbrev pub gather : List (String × List (String × Value)) → Values
  gather [] = empty
  gather ((k, entries) ∷ kinds) = gather_kind entries (gather kinds)

  abbrev pub resources_task : Values → Task
  resources_task vs =
      new "resources" "resources.Resources" (dict (field "resources" (slice vs) end)) []

  abbrev pub add_resources : Values → Option Result → Option Result
  add_resources empty result = result
  add_resources (item v vs) result = add_followup_tasks (resources_task (item v vs) ∷ []) result

  -- The switch: the kinds "Helm" and "File", and any other, do nothing.
  abbrev pub add_generator : Generator → Option Result → Option Result
  add_generator g result =
      if g.kind == "Resources" then add_resources (gather g.resources) result else result

  abbrev pub add_generators : List Generator → Option Result → Option Result
  add_generators [] result = result
  add_generators (g ∷ gs) result = add_generators gs (add_generator g result)

  abbrev pub add_artifact : Artifact → Option Result → Option Result
  add_artifact a result = if a.skip then result else add_generators a.generators result

  abbrev pub add_artifacts : List Artifact → Option Result → Option Result
  add_artifacts [] result = result
  add_artifacts (a ∷ rest) result = add_artifacts rest (add_artifact a result)

  unfoldable pub build_plan : Component → Session → W → Outcome BuildPlan
  unfolding load_holos
  build_plan args session w = do
    config ← load_holos args.path session w
    wrap_error "failed to decode buildplan" (cue.decode_build_plan config)

  -- `Executor_RenderComponent.Execute`. A task without arguments panics: `none`.
  unfoldable pub render_component :
      Session → Task → Option Component → Option Result → W → Option (Returned W)
  unfolding new build_plan add_followup_tasks
  render_component session tsk none result w = none
  render_component session tsk (some args) result w = elim (build_plan args session w) [
    | error e ↦ some (record { err = some e; tsk = tsk; result = result; world = w })
    | ok plan ↦ some (record {
      err = none;
      tsk = tsk;
      result = if plan.disabled then result else add_artifacts plan.artifacts result;
      world = w;
    })
  ]
