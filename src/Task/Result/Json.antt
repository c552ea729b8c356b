-- ===== src/Task/Result/Json.antt =====
-- The JSON form of a result, at the level of `resultJson`; package encoding/json reads and writes it.
-- A pointer in the list of followup tasks is nil where the text has `null`.
use bonk.Base.{String, List, [], ◌∷◌, Option, none, some, false, ◌≡◌, refl, arith}
use bonk.Task.Value.{Task}
use bonk.Task.Result.{
  Result, empty_result, get_outputs, add_outputs, get_followup_tasks, add_followup_tasks,
  append_result,
}

pub record ResultJson : Type 0 where
  pub outputs : List String
  pub followup_tasks : List (Option Task)

abbrev pointers : List Task → List (Option Task)
pointers [] = []
pointers (t ∷ ts) = some t ∷ pointers ts

-- Each `*tsk` of `AddFollowupTasks`: `none` is the panic on a nil pointer.
abbrev contents : List (Option Task) → Option (List Task)
contents [] = some []
contents (none ∷ ps) = none
contents (some t ∷ ps) = elim (contents ps) [ none ↦ none | some ts ↦ some (t ∷ ts) ]

-- `MarshalJSON`: `none` is the JSON `null`.
unfoldable pub marshal_json : Option Result → Option ResultJson
unfolding get_outputs get_followup_tasks
marshal_json none = none
marshal_json (some r) = some (record {
  outputs = get_outputs (some r);
  followup_tasks = pointers (get_followup_tasks (some r));
})

-- `UnmarshalJSON` of a text that decodes to `res`; `none` is a panic. A nil receiver takes nothing
-- and follows no pointer.
unfoldable pub unmarshal_json : ResultJson → Option Result → Option (Option Result)
unfolding add_outputs add_followup_tasks
unmarshal_json res none = some none
unmarshal_json res (some r) = elim (contents res.followup_tasks) [
  | none ↦ none
  | some tasks ↦ some (add_followup_tasks tasks (add_outputs res.outputs (some r)))
]

contents-pointers : (ts : List Task) → contents (pointers ts) ≡ some ts
contents-pointers [] = refl
contents-pointers (t ∷ ts) = rw (contents-pointers ts)

-- Unmarshalling what a result is marshalled to appends that result to the receiver; into an empty
-- receiver it gives the result back.
unmarshal_json-marshal_json :
    (r receiver : Result) (j : ResultJson)
    → marshal_json (some r) ≡ some j
    → (unmarshal_json j (some receiver) ≡ some (append_result false (some receiver) (some r)))
      × (unmarshal_json j (some empty_result) ≡ some (some r))
unfolding marshal_json unmarshal_json append_result
unmarshal_json-marshal_json r receiver j h =
    let whole = contents-pointers r.followup_tasks in (ground (arith, whole), ground (arith, whole))
