-- ===== src/Rpc/Exchange.antt =====
-- pkg/executor/rpc/client.go and server.go: a task that is executed across a connection.
use bonk.Base.Text.{append}
use bonk.Base.{map, ℕ, String, List, [], ◌∷◌, Option, none, some, nat_eq, if◌then◌else◌}
use bonk.Errors.{Error, message, wrap, status}
use bonk.Task.Value.{Slice, elements, Task, Session, of_server, new, with_inputs}
use bonk.Task.Id.{new_id}
use bonk.Task.Result.{
  Result, empty_result, get_outputs, add_outputs, get_followup_tasks, add_followup_tasks,
}
use bonk.Executor.{Executor, Returned}
use bonk.Rpc.{Proto, Converted, converted, refused, panicked, unfinished, Coder, to_proto_value}

-- `ExecuteTaskRequest`. A repeated field does not tell nil from empty: it reads as nil when empty.
pub record Request : Type 0 where
  pub session_id : ℕ
  pub id : String
  pub executor : String
  pub inputs : List String
  pub arguments : Proto

-- `ExecuteTaskResponse_FollowupTask`
pub record Followup : Type 0 where
  pub id : String
  pub executor : String
  pub inputs : List String
  pub arguments : Proto

pub record Response : Type 0 where
  pub output : List String
  pub followup_tasks : List Followup

abbrev pub repeated : List String → Slice String
repeated [] = none
repeated (x ∷ xs) = some (x ∷ xs)

-- `CodeExecErr`
abbrev pub code_exec_err : ℕ
code_exec_err = 100

-- `codes.InvalidArgument`, `codes.Unknown`
abbrev invalid_argument : ℕ
invalid_argument = 3

abbrev unknown : ℕ
unknown = 2

-- What the server answers: a response, an error, or no answer since the process panics.
pub data Answer : Type 0 where
  answered : Response → Answer
  failed : Error → Answer
  crashed : Answer
  out_of_fuel : Answer

-- What the caller of the client sees.
pub data Call (W : Type 0) : Type 0 where
  returned : Returned W → Call W
  client_panicked : Call W
  unfinished_call : Call W

-- `s.sessions[sessionID]`
unfoldable pub find_session : ℕ → List (ℕ × Session) → Option Session
find_session id [] = none
find_session id ((i, s) ∷ rest) = if nat_eq i id then some s else find_session id rest

-- `grpcServerSession`: the session that an executor behind the server gets with a task.
abbrev pub behind_server : Session → Session
behind_server session = record session { workspace = of_server session.workspace }

-- The client takes the error of its executor out of the status.
abbrev pub client_error : Error → Error
client_error (status code msg) =
    if nat_eq code code_exec_err
    then message msg
    else wrap "unknown error performing task" (status code msg)
client_error e = wrap "unknown error performing task" e

module _ (coder : Coder) (fuel : ℕ) where
  -- The loop over the followups of `ExecuteTask`. The first error ends the answer, since it is sent
  -- in place of the response.
  abbrev pub followups_to_proto : List Task → Converted (List Followup)
  followups_to_proto [] = converted []
  followups_to_proto (t ∷ ts) =
      let rest = followups_to_proto ts in
      elim (to_proto_value coder fuel t.args) [
        | converted p ↦ elim rest [
          | converted fs ↦ converted (
              record { id = t.id; executor = t.executor; inputs = elements t.inputs; arguments = p }
              ∷ fs)
          | refused e ↦ refused e
          | panicked ↦ panicked
          | unfinished ↦ unfinished
        ]
        | refused e ↦ elim rest [ panicked ↦ panicked | unfinished ↦ unfinished | _ ↦ refused e ]
        | panicked ↦ panicked
        | unfinished ↦ unfinished
      ]

  -- The task that the server executes.
  abbrev pub received : Request → Task
  received req = record {
    id = req.id;
    executor = req.executor;
    inputs = repeated req.inputs;
    dependencies = none;
    args = coder.as_interface req.arguments;
  }

  abbrev pub respond : Option Result → Answer
  respond response = elim (followups_to_proto (get_followup_tasks response)) [
    | converted fs ↦ answered (record { output = get_outputs response; followup_tasks = fs })
    | refused e ↦ failed e
    | panicked ↦ crashed
    | unfinished ↦ out_of_fuel
  ]

  -- A followup as the client makes it.
  unfoldable pub followup_of : Followup → Task
  unfolding new new_id with_inputs
  followup_of f =
      new (new_id (f.id ∷ [])) f.executor (coder.as_interface f.arguments)
        (with_inputs f.inputs ∷ [])

-- `lost` is the error of a call whose server is gone.
module _ {W : Type 0} (coder : Coder) (fuel : ℕ) (error_text : Error → String)
    (mkdir_output : Session → String → W → Option Error × W) (lost : Error)
    (exec : Executor W) where
  -- `grpcServer.ExecuteTask`
  unfoldable pub execute_task : List (ℕ × Session) → Request → W → Answer × W
  unfolding find_session get_outputs get_followup_tasks
  execute_task sessions req w = elim (find_session req.session_id sessions) [
    | none ↦ (failed (status invalid_argument "unopened session id"), w)
    | some session ↦
        let tsk = received coder fuel req in
        let (made, w') = mkdir_output session tsk.id w in
        elim made [
          | some e ↦ (
            failed (status unknown (append "failed to create output directory: " (error_text e))),
            w',
          )
          | none ↦
              let r = exec.execute (behind_server session) tsk (some empty_result) w' in
              elim r.err [
                | some e ↦ (failed (status code_exec_err (error_text e)), r.world)
                | none ↦ (respond coder fuel r.result, r.world)
              ]
        ]
  ]

  -- What the client does with the answer.
  abbrev pub take : Answer → Task → Option Result → W → Call W
  take (answered res) tsk result w = returned (record {
    err = none;
    tsk = tsk;
    result =
        add_followup_tasks (map (followup_of coder fuel) res.followup_tasks)
          (add_outputs res.output result);
    world = w;
  })
  take (failed e) tsk result w =
      returned (record { err = some (client_error e); tsk = tsk; result = result; world = w })
  take crashed tsk result w =
      returned (record { err = some (client_error lost); tsk = tsk; result = result; world = w })
  take out_of_fuel tsk result w = unfinished_call

  -- `grpcClient.Execute`
  unfoldable pub execute : List (ℕ × Session) → Session → Task → Option Result → W → Call W
  unfolding execute_task followup_of add_outputs add_followup_tasks
  execute sessions session tsk result w = elim (to_proto_value coder fuel tsk.args) [
    | refused e ↦ returned (record {
      err = some (wrap "failed to encode args to proto" e);
      tsk = tsk;
      result = result;
      world = w;
    })
    | panicked ↦ client_panicked
    | unfinished ↦ unfinished_call
    | converted p ↦
        let req : Request = record {
          session_id = session.id;
          id = tsk.id;
          executor = tsk.executor;
          inputs = elements tsk.inputs;
          arguments = p;
        } in
        let (answer, w') = execute_task sessions req w in take answer tsk result w'
  ]
