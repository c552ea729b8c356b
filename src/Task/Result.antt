-- ===== src/Task/Result.antt =====
-- pkg/task/result.go: the outputs and followup tasks of an execution. A `*Result` is an `Option`,
-- since every method accepts nil. Each method is one critical section of the result's mutex.
pub mod Json
use bonk.Base.{String, List, [], ◌∷◌, ◌++◌, Option, none, some, Bool, true, false, if◌then◌else◌}
use bonk.Base.Text.{append}
use bonk.Task.Value.{Task}

pub record Result : Type 0 where
  pub outputs : List String
  pub followup_tasks : List Task

-- `task.Result{}`
abbrev pub empty_result : Result
empty_result = record { outputs = []; followup_tasks = [] }

unfoldable pub get_outputs : Option Result → List String
get_outputs none = []
get_outputs (some r) = r.outputs

unfoldable pub add_outputs : List String → Option Result → Option Result
add_outputs outputs none = none
add_outputs outputs (some r) = some (record r { outputs = r.outputs ++ outputs })

unfoldable pub get_followup_tasks : Option Result → List Task
get_followup_tasks none = []
get_followup_tasks (some r) = r.followup_tasks

-- The tasks are copied out of the pointers that are given.
unfoldable pub add_followup_tasks : List Task → Option Result → Option Result
add_followup_tasks tasks none = none
add_followup_tasks tasks (some r) = some (record r { followup_tasks = r.followup_tasks ++ tasks })

-- `r.Append(other)`; `same` says that the two pointers are one.
unfoldable pub append_result : Bool → Option Result → Option Result → Option Result
append_result same none other = none
append_result same (some r) none = some r
append_result same (some r) (some other) =
    if same
    then some r
    else some (record {
      outputs = r.outputs ++ other.outputs;
      followup_tasks = r.followup_tasks ++ other.followup_tasks;
    })

-- `String`. The verb %v of package fmt is a parameter: of a list of pointers it prints addresses.
module _ (sprint_outputs : List String → String) (sprint_followups : List Task → String) where
  abbrev prop_strings : List String → List Task → List String
  prop_strings [] [] = []
  prop_strings (o ∷ os) [] = append "Outputs: " (sprint_outputs (o ∷ os)) ∷ []
  prop_strings [] (t ∷ ts) = append "Followups: " (sprint_followups (t ∷ ts)) ∷ []
  prop_strings (o ∷ os) (t ∷ ts) =
      append "Outputs: " (sprint_outputs (o ∷ os))
      ∷ append "Followups: " (sprint_followups (t ∷ ts))
      ∷ []

  abbrev join_comma : List String → String
  join_comma [] = ""
  join_comma (s ∷ []) = s
  join_comma (s ∷ t ∷ rest) = append s (append ", " (join_comma (t ∷ rest)))

  unfoldable pub to_string : Option Result → String
  to_string none = "<nil>"
  to_string (some r) =
      append "Result{" (append (join_comma (prop_strings r.outputs r.followup_tasks)) "}")
