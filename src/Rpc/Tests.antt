-- ===== src/Rpc/Tests.antt =====
-- A coder of the basic kinds, and a server with one session.
use bonk.Base.{
  ◌<◌, arith, ℕ, ◌+◌, String, true, List, [], ◌∷◌, map, Option, none, some, ◌≡◌, refl, ap,
}
use bonk.Errors.{Error, Outcome, ok, error, message}
use bonk.Task.Value.{
  Value, nil, bool, float, text, slice, dict, Values, empty, item, Fields, end, field, Task,
  Session, new_test_session,
}
use bonk.Task.Result.{
  Result, empty_result, add_outputs, add_followup_tasks, get_outputs, get_followup_tasks,
}
use bonk.Executor.{Executor}
use bonk.Rpc.{
  Proto, null_value, bool_value, number_value, string_value, list_value, struct_value, Protos,
  no_values, value, ProtoFields, no_fields, entry, converted, Coder, to_proto_value,
}
use bonk.Rpc.Convert.{depth, IsStructpb, values_of, fields_of, to_proto_value-as_interface}
use bonk.Rpc.Exchange.{returned, execute, find_session}
use bonk.Rpc.Remote.{sent, execute-sent, execute-error}

abbrev mutual
  pub interface_of : Proto → Value
  interface_of null_value = nil
  interface_of (bool_value b) = bool b
  interface_of (number_value n) = float n
  interface_of (string_value s) = text s
  interface_of (list_value ps) = slice (interfaces_of ps)
  interface_of (struct_value ps) = dict (entries_of ps)

  pub interfaces_of : Protos → Values
  interfaces_of no_values = empty
  interfaces_of (value p ps) = item (interface_of p) (interfaces_of ps)

  pub entries_of : ProtoFields → Fields
  entries_of no_fields = end
  entries_of (entry k p ps) = field k (interface_of p) (entries_of ps)

abbrev pub basic : Value → Outcome Proto
basic (bool b) = ok (bool_value b)
basic (float n) = ok (number_value n)
basic (text s) = ok (string_value s)
basic _ = error (message "invalid type")

abbrev pub coder : Coder
coder = record { new_value = basic; decode_struct = λ fs. ok fs; as_interface = interface_of }

interfaces_of_values : (ps : Protos) → interfaces_of ps ≡ values_of interface_of ps
interfaces_of_values no_values = refl
interfaces_of_values (value p ps) = rw (interfaces_of_values ps) refl

entries_of_fields : (ps : ProtoFields) → entries_of ps ≡ fields_of interface_of ps
entries_of_fields no_fields = refl
entries_of_fields (entry k p ps) = rw (entries_of_fields ps) refl

pub coder-IsStructpb : IsStructpb coder
coder-IsStructpb = record {
  new_bool = λ b. refl;
  new_number = λ n. refl;
  new_string = λ s. refl;
  as_nil = refl;
  as_bool = λ b. refl;
  as_number = λ n h. refl;
  as_string = λ s. refl;
  as_list = λ ps. ap slice (interfaces_of_values ps);
  as_map = λ ps. ap dict (entries_of_fields ps);
}

abbrev arguments : Value
arguments = dict (field "names" (slice (item (text "a") (item (bool true) empty))) end)

shallow : depth arguments < 3
shallow = omega arith

to_proto_value-as_interface_example :
    (p : Proto) × (to_proto_value coder 3 arguments ≡ converted p) × (interface_of p ≡ arguments)
to_proto_value-as_interface_example =
    to_proto_value-as_interface coder coder-IsStructpb 3 arguments ((tt, (tt, tt)), tt) shallow

abbrev a_task : Task
a_task = record {
  id = "t";
  executor = "e";
  inputs = some [];
  dependencies = some ("other" ∷ []);
  args = arguments;
}

abbrev a_result : Result
a_result = record { outputs = "o" ∷ []; followup_tasks = a_task ∷ [] }

abbrev succeeds : Executor ℕ
succeeds = record {
  execute = λ session tsk result w. record {
    err = none;
    tsk = tsk;
    result = some a_result;
    world = w + 1;
  };
  open_session = λ session w. (none, w);
  close_session = λ id w. w;
}

abbrev fails : Executor ℕ
fails = record {
  execute = λ session tsk result w. record {
    err = some (message "no");
    tsk = tsk;
    result = result;
    world = w + 1;
  };
  open_session = λ session w. (none, w);
  close_session = λ id w. w;
}

abbrev text_of : Error → String
text_of (message m) = m
text_of _ = "error"

abbrev make_directory : Session → String → ℕ → Option Error × ℕ
make_directory session id w = (none, w)

abbrev sessions : List (ℕ × Session)
sessions = (0, new_test_session) ∷ []

execute-sent_example :
    execute coder 3 text_of make_directory
      (message "lost")
      succeeds
      sessions
      new_test_session
      a_task
      (some empty_result)
      5
    ≡ returned (record {
      err = none;
      tsk = a_task;
      result =
          add_followup_tasks (map sent (a_task ∷ [])) (add_outputs ("o" ∷ []) (some empty_result));
      world = 6;
    })
unfolding find_session new_test_session get_outputs get_followup_tasks
execute-sent_example =
    execute-sent coder coder-IsStructpb 3 text_of make_directory (message "lost") succeeds sessions
      new_test_session new_test_session a_task 5 5 refl refl (((tt, (tt, tt)), tt), shallow)
      (some empty_result) refl ((((tt, (tt, tt)), tt), shallow), tt)

execute-error_example :
    execute coder 3 text_of make_directory
      (message "lost")
      fails
      sessions
      new_test_session
      a_task
      (some empty_result)
      5
    ≡ returned
        (record { err = some (message "no"); tsk = a_task; result = some empty_result; world = 6 })
unfolding find_session new_test_session
execute-error_example =
    execute-error coder coder-IsStructpb 3 text_of make_directory (message "lost") fails sessions
      new_test_session new_test_session a_task 5 5 refl refl (((tt, (tt, tt)), tt), shallow)
      (some empty_result) (message "no") refl
