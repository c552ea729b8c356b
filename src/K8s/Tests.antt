-- ===== src/K8s/Tests.antt =====
-- Files that hold documents, by the task that they belong to, and small configurations.
use bonk.Base.{
  String, List, [], ◌∷◌, ◌++◌, All, true, false, none, some, if◌then◌else◌, ◌==◌, eq_refl, ◌≡◌,
  subst, refl, sym, ◌∙◌, ap,
}
use bonk.Errors.{ok, message}
use bonk.Task.Value.{
  pointer, Value, nil, bool, text, slice, empty, item, Task, Session, new_test_session,
}
use bonk.Task.Result.{empty_result, add_outputs, add_followup_tasks}
use bonk.Executor.{Returned}
use bonk.K8s.{Files}
use bonk.K8s.Resources.{Encoder, execute}
use bonk.K8s.Documents.{IsYaml, execute-documents}
use bonk.K8s.Kustomization.{Kustomizer}
use bonk.K8s.Holos.{Component, Generator, BuildPlan, Cue, build_plan, load_holos, render_component}
use bonk.K8s.Plans.{IsResources, tasks_of_plan}
use bonk.K8s.Rendering.{render_component-tasks}

abbrev Disk : Type 0
Disk = String → List Value

abbrev put : String → List Value → Disk → Disk
put id vs disk q = if q == id then vs else disk q

abbrev files : Files Disk String
files = record {
  create = λ session id name w. (ok id, put id [] w);
  write = λ file contents w. (some (message "disk full"), w);
  close = λ file w. (none, w);
}

-- YAML has no pointers.
abbrev seen : Value → Value
seen (pointer v) = v
seen v = v

abbrev encoder : Encoder Disk String
encoder = record {
  encode = λ file v w. (none, put file (w file ++ (seen v ∷ [])) w);
  close = λ file w. (none, w);
}

abbrev file_of : Session → String → String
file_of session id = id

abbrev documents : String → Disk → List Value
documents file w = w file

put_same : (id : String) (vs : List Value) (w : Disk) → put id vs w id ≡ vs
put_same id vs w = rw (eq_refl id) refl

ok_eq : {a b : String} → ok a ≡ ok b → a ≡ b
ok_eq e = cc

disk-IsYaml : IsYaml files encoder file_of documents seen
disk-IsYaml = record {
  created = λ session id file w w' e. (
    sym (ok_eq (ap (λ p. p.0) e)),
    ap (λ p. documents file p.1) (sym e)
        ∙ subst (λ f. put id [] w f ≡ []) (ok_eq (ap (λ p. p.0) e)) (put_same id [] w),
  );
  encoded = λ file v w w' e.
      ap (λ p. documents file p.1) (sym e) ∙ put_same file (w file ++ (seen v ∷ [])) w;
  flushed = λ file w w' e. ap (λ p. documents file p.1) (sym e);
  closed = λ file w w' e. ap (λ p. documents file p.1) (sym e);
}

abbrev a_task : Task
a_task = record { id = "t"; executor = "e"; inputs = none; dependencies = none; args = nil }

abbrev two : Value
two = slice (item (text "a") (item (pointer (bool true)) empty))

abbrev old : Disk
old q = text "old" ∷ []

abbrev left : Disk
left = put "t" (text "a" ∷ bool true ∷ []) (put "t" (text "a" ∷ []) (put "t" [] old))

execute-documents_example :
    (left "t" ≡ text "a" ∷ bool true ∷ [])
    × (add_outputs ("resources.yaml" ∷ []) (some empty_result)
        ≡ add_outputs ("resources.yaml" ∷ []) (some empty_result))
unfolding execute add_outputs
execute-documents_example =
    execute-documents files encoder file_of documents seen disk-IsYaml new_test_session a_task two
      (some empty_result) old
      (record {
        err = none;
        tsk = a_task;
        result = add_outputs ("resources.yaml" ∷ []) (some empty_result);
        world = left;
      })
      refl refl

abbrev kustomizer : Kustomizer Disk (List String) (List String) String
kustomizer = record {
  empty_kustomization = [];
  set_resources = λ rs k. rs;
  fix_kustomization = λ k. k;
  default_file_name = "kustomization.yaml";
  over_source = λ session. [];
  create_in = λ name fs. ok (name ∷ fs);
  encode = λ k fs. ok (k ++ fs);
  close_encoder = λ fs. ok fs;
  close_file = λ fs. ok fs;
  run = λ fs path w. ok path;
  as_yaml = λ r. ok r;
}

abbrev kustomized : Returned Disk
kustomized =
    bonk.K8s.Kustomization.execute files kustomizer new_test_session a_task none (some empty_result)
      old

abbrev a_component : Component
a_component = record { name = "web"; path = "components/web"; as_args = nil }

abbrev resources_of : String → Generator
resources_of name = record {
  kind = "Resources";
  resources = ("Service", (name, text name) ∷ []) ∷ [];
}

abbrev a_plan : BuildPlan
a_plan = record {
  disabled = false;
  artifacts =
      record { artifact = "a"; skip = true; generators = resources_of "skipped" ∷ [] }
      ∷ record {
        artifact = "b";
        skip = false;
        generators =
            resources_of "one" ∷ record { kind = "Helm"; resources = [] } ∷ resources_of "two" ∷ [];
      }
      ∷ [];
}

abbrev cue : Cue Disk String String
cue = record {
  instances = λ args dir w. args;
  build_instances = λ is. ok is;
  no_value = "";
  unify = λ a b. b;
  lookup_path = λ path c. c;
  value_error = λ c. none;
  decode_platform = λ c. ok (a_component ∷ []);
  decode_build_plan = λ c. ok a_plan;
}

render_component-tasks_example :
    (render_component cue new_test_session a_task (some a_component) (some empty_result) old
      ≡ some (record {
        err = none;
        tsk = a_task;
        result = add_followup_tasks (tasks_of_plan cue a_plan) (some empty_result);
        world = old;
      }))
    × All (IsResources cue) (tasks_of_plan cue a_plan)
unfolding build_plan load_holos
render_component-tasks_example =
    render_component-tasks cue new_test_session a_task a_component (some empty_result) old a_plan
      refl
