-- ===== src/Rpc/Remote.antt =====
-- pkg/executor/rpc: what a task executed across a connection gives, compared with the executor
-- behind the server.
use bonk.Base.{
  ℕ, ◌<◌, String, List, [], ◌∷◌, map, Option, none, some, All, ◌≡◌, refl, sym, ◌∙◌, ap, arith,
}
use bonk.Errors.{Error, message, status}
use bonk.Task.Value.{Slice, elements, Task, Session, append_slice}
use bonk.Task.Id.{new_id}
use bonk.Task.Result.{
  Result, empty_result, get_outputs, add_outputs, get_followup_tasks, add_followup_tasks,
}
use bonk.Executor.{Executor, Returned}
use bonk.Rpc.{Proto, converted, Coder, to_proto_value}
use bonk.Rpc.Convert.{IsSent, IsStructpb, depth, to_proto_value-as_interface}
use bonk.Rpc.Exchange.{
  Request, Followup, Answer, answered, failed, code_exec_err, repeated, returned, find_session,
  behind_server, received, followups_to_proto, followup_of, respond, take, execute_task, execute,
}

-- A task as it arrives: without its dependencies, and with nil for empty inputs.
abbrev pub sent : Task → Task
sent t = record t { inputs = repeated (elements t.inputs); dependencies = none }

append_slice-repeated : (xs : List String) → append_slice none xs ≡ repeated xs
append_slice-repeated [] = refl
append_slice-repeated (x ∷ xs) = refl

module _ (fuel : ℕ) where
  -- The arguments of the task can be sent.
  abbrev pub Sendable : Task → Type 0
  Sendable t = IsSent t.args × (depth t.args < fuel)

module _ (coder : Coder) (law : IsStructpb coder) (fuel : ℕ) where
  followup_of-sent :
      (t : Task) (p : Proto)
      → coder.as_interface p ≡ t.args
      → followup_of coder fuel
          (record { id = t.id; executor = t.executor; inputs = elements t.inputs; arguments = p })
        ≡ sent t
  unfolding followup_of bonk.Task.Value.new new_id bonk.Task.Value.with_inputs bonk.Base.Text.join
  followup_of-sent t p e = rw (e, append_slice-repeated (elements t.inputs)) refl

  followups_cons :
      (t : Task) (ts : List Task) (p : Proto) (fs : List Followup)
      → to_proto_value coder fuel t.args ≡ converted p
      → followups_to_proto coder fuel ts ≡ converted fs
      → followups_to_proto coder fuel (t ∷ ts)
        ≡ converted (
            record { id = t.id; executor = t.executor; inputs = elements t.inputs; arguments = p }
            ∷ fs)
  followups_cons t ts p fs c e = ground arith

  followups-sent :
      (ts : List Task)
      → All (Sendable fuel) ts
      → (fs : List Followup) × (followups_to_proto coder fuel ts ≡ converted fs)
        × (map (followup_of coder fuel) fs ≡ map sent ts)
  followups-sent [] h = ([], refl, refl)
  followups-sent (t ∷ ts) ((s, d), h) =
      let (p, c, a) = to_proto_value-as_interface coder law fuel t.args s d in
      let (fs, e, b) = followups-sent ts h in
      (
        record { id = t.id; executor = t.executor; inputs = elements t.inputs; arguments = p } ∷ fs,
        followups_cons t ts p fs c e,
        rw (followup_of-sent t p a, b) refl,
      )

module _ {W : Type 0} (coder : Coder) (law : IsStructpb coder) (fuel : ℕ)
    (error_text : Error → String) (mkdir_output : Session → String → W → Option Error × W)
    (lost : Error) (exec : Executor W) (sessions : List (ℕ × Session)) (session opened : Session)
    (tsk : Task) (w w' : W) (known : find_session session.id sessions ≡ some opened)
    (made : mkdir_output opened tsk.id w ≡ (none, w')) (sendable : Sendable fuel tsk) where
  -- The call behind the server.
  abbrev behind : Returned W
  behind = exec.execute (behind_server opened) (sent tsk) (some empty_result) w'

  abbrev request : Proto → Request
  request p = record {
    session_id = session.id;
    id = tsk.id;
    executor = tsk.executor;
    inputs = elements tsk.inputs;
    arguments = p;
  }

  received_task :
      (p : Proto) → coder.as_interface p ≡ tsk.args → received coder fuel (request p) ≡ sent tsk
  received_task p a = rw a refl

  behind-received :
      (p : Proto)
      → coder.as_interface p ≡ tsk.args
      → exec.execute (behind_server opened) (received coder fuel (request p)) (some empty_result) w'
        ≡ behind
  behind-received p a =
      ap (λ t. exec.execute (behind_server opened) t (some empty_result) w') (received_task p a)

  answers_fine :
      (p : Proto)
      → coder.as_interface p ≡ tsk.args
      → behind.err ≡ none
      → execute_task coder fuel error_text mkdir_output lost exec sessions (request p) w
        ≡ (respond coder fuel behind.result, behind.world)
  unfolding execute_task
  answers_fine p a fine =
      let behind_is = behind-received p a in ground (arith, known, made, behind_is, fine)

  answers_error :
      (p : Proto) (e : Error)
      → coder.as_interface p ≡ tsk.args
      → behind.err ≡ some e
      → execute_task coder fuel error_text mkdir_output lost exec sessions (request p) w
        ≡ (failed (status code_exec_err (error_text e)), behind.world)
  unfolding execute_task
  answers_error p e a bad =
      let behind_is = behind-received p a in ground (arith, known, made, behind_is, bad)

  responds :
      (fs : List Followup)
      → followups_to_proto coder fuel (get_followup_tasks behind.result) ≡ converted fs
      → respond coder fuel behind.result
        ≡ answered (record { output = get_outputs behind.result; followup_tasks = fs })
  responds fs e = ground arith

  called :
      (result : Option Result) (p : Proto) (answer : Answer) (v : W)
      → to_proto_value coder fuel tsk.args ≡ converted p
      → execute_task coder fuel error_text mkdir_output lost exec sessions (request p) w
        ≡ (answer, v)
      → execute coder fuel error_text mkdir_output lost exec sessions session tsk result w
        ≡ take coder fuel error_text mkdir_output lost exec answer tsk result v
  unfolding execute
  called result p answer v c x = rw (c, execute) (rw x refl)

  -- Let package structpb be as documented. If the session is open at the server, the task's directory
  -- can be made, and the arguments of the task and of its followups can be sent, then a remote execution whose executor succeeds
  -- leaves the world that the executor leaves, and adds the executor's outputs and its followups to
  -- the result. The task and the followups arrive without dependencies, and with nil for empty
  -- inputs.
  pub execute-sent :
      (result : Option Result)
      → behind.err ≡ none
      → All (Sendable fuel) (get_followup_tasks behind.result)
      → execute coder fuel error_text mkdir_output lost exec sessions session tsk result w
        ≡ returned (record {
          err = none;
          tsk = tsk;
          result =
              add_followup_tasks
                (map sent (get_followup_tasks behind.result))
                (add_outputs (get_outputs behind.result) result);
          world = behind.world;
        })
  execute-sent result fine all =
      let (p, c, a) = to_proto_value-as_interface coder law fuel tsk.args sendable.0 sendable.1 in
      let (fs, e, b) = followups-sent coder law fuel (get_followup_tasks behind.result) all in
      called result p _ behind.world c
        (answers_fine p a fine ∙ ap (λ x. (x, behind.world)) (responds fs e))
      ∙ rw b refl

  -- Let package structpb be as documented. If the session is open at the server, the task's directory
  -- can be made, and the arguments of the task can be sent, then an error of the executor reaches the caller by its text, and nothing
  -- is added to the result.
  pub execute-error :
      (result : Option Result) (e : Error)
      → behind.err ≡ some e
      → execute coder fuel error_text mkdir_output lost exec sessions session tsk result w
        ≡ returned (record {
          err = some (message (error_text e));
          tsk = tsk;
          result = result;
          world = behind.world;
        })
  execute-error result e bad =
      let (p, c, a) = to_proto_value-as_interface coder law fuel tsk.args sendable.0 sendable.1 in
      called result p _ behind.world c (answers_error p e a bad)
