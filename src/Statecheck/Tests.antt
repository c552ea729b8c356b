-- ===== src/Statecheck/Tests.antt =====
-- A host whose state files are a list, and whose hash counts what it reads.
use bonk.Base.{ℕ, ◌+◌, true, false, [], ◌∷◌, Option, none, some, ◌≡◌, ◌≢◌, ◌↔◌, ◌⊎◌, refl, length}
use bonk.Errors.{Error, message}
use bonk.Task.Value.{Session, Value, Task, new_test_session}
use bonk.Task.Result.{Result, empty_result, append_result}
use bonk.Executor.{Executor}
use bonk.Statecheck.{
  ok, error, SavedState, Host, collect_state, save_state, compare_state, detect_state_mismatches,
  execute, hash_files,
}
use bonk.Statecheck.Detect.{IsHasher, Matches, compare_state-eq-nil_iff}
use bonk.Statecheck.Execution.{Finds, execute_cases}
use bonk.Statecheck.Again.{execute-execute}

abbrev counting : Host (Option SavedState) ℕ
counting = record {
  mkdir_all = λ id w. (none, w);
  create_state = λ id w. (none, none);
  encode_state = λ id st w. (none, some st);
  open_state = λ id w. elim w [ none ↦ some (message "no file") | some st ↦ none ];
  decode_state = λ id w. elim w [ none ↦ error (message "empty") | some st ↦ ok st ];
  glob = λ root pattern w. ok (pattern ∷ []);
  open_file = λ root file w. none;
  copy = λ root file w h. (none, h + 1);
  new_hash = 0;
  reset = λ h. 0;
  sum = λ h. h;
  hash_value = λ h v. (ok 5, h);
  hash_tasks = λ h ts. (ok (length ts), 0);
}

counting-IsHasher : IsHasher counting
counting-IsHasher = record { reset_new = λ h. refl; starts_new = λ h ts. refl }

abbrev hosts : Session → Host (Option SavedState) ℕ
hosts session = counting

abbrev a_task : Task
a_task = record {
  id = "t";
  executor = "e";
  inputs = some ("a" ∷ "b" ∷ []);
  dependencies = none;
  args = Value.bool true;
}

abbrev a_result : Option Result
a_result = some (record { outputs = "o" ∷ []; followup_tasks = a_task ∷ [] })

abbrev a_state : SavedState
a_state = record {
  executor = "e";
  inputs = some ("a" ∷ "b" ∷ []);
  result = a_result;
  arguments_checksum = 5;
  inputs_checksum = 2;
  output_checksum = 1;
  followup_checksum = 1;
}

collected : collect_state counting a_task a_result none ≡ ok a_state
unfolding collect_state hash_files bonk.Task.Result.get_outputs bonk.Task.Result.get_followup_tasks
collected = refl

-- Other inputs.
changed_inputs :
    compare_state counting (record a_task { inputs = none }) a_state none
    ≡ "inputs" ∷ "inputs-checksum" ∷ []
unfolding compare_state
changed_inputs = refl

compare_state-eq-nil_iff_example :
    (compare_state counting a_task a_state none ≡ []) ↔ Matches counting a_task a_state none
compare_state-eq-nil_iff_example =
    compare_state-eq-nil_iff counting counting-IsHasher a_task a_state none

-- The child puts out "o" and the task again as a followup.
abbrev child : Executor (Option SavedState)
child = record {
  execute = λ session tsk result w. record { err = none; tsk = tsk; result = a_result; world = w };
  open_session = λ session w. (none, w);
  close_session = λ id w. w;
}

execute_cases_example :
    ((st : SavedState) × Finds hosts new_test_session counting-IsHasher a_task st none
      × (execute hosts child new_test_session a_task none none ≡ record {
        err = none;
        tsk = a_task;
        result = append_result false none st.result;
        world = none;
      }))
    ⊎ (((detect_state_mismatches counting a_task none).0 ≢ [])
        × (((e : Error) × (◌≡◌ {A = Option Error} none (some e))
              × (execute hosts child new_test_session a_task none none
                  ≡ record { err = none; tsk = a_task; result = a_result; world = none }))
            ⊎ ((◌≡◌ {A = Option Error} none none)
                × (execute hosts child new_test_session a_task none none ≡ record {
                  err = (save_state counting a_task a_result none).0;
                  tsk = a_task;
                  result = a_result;
                  world = (save_state counting a_task a_result none).1;
                }))))
execute_cases_example =
    execute_cases hosts new_test_session counting-IsHasher child a_task none none

-- A child that would fail.
abbrev failing : Executor (Option SavedState)
failing = record child {
  execute = λ session tsk result w. record {
    err = some (message "called");
    tsk = tsk;
    result = result;
    world = none;
  };
}

execute-execute_example :
    execute hosts failing new_test_session a_task (some empty_result) (some a_state) ≡ record {
      err = none;
      tsk = a_task;
      result = append_result false (some empty_result) a_result;
      world = some a_state;
    }
unfolding execute collect_state save_state hash_files bonk.Task.Result.get_outputs
    bonk.Task.Result.get_followup_tasks detect_state_mismatches
execute-execute_example =
    execute-execute hosts new_test_session counting-IsHasher child failing a_task none
      (some empty_result) none (some a_state) (λ e. cc) refl refl
      ((λ st c. (refl, c)), record { inputs = refl; outputs = refl })
