-- ===== src/Scheduler/Tests.antt =====
-- A task with one followup, run with room for two goroutines.
use bonk.Base.{
  String, ℕ, ◌+◌, ◌≤◌, arith, [], ◌∷◌, Option, none, some, ◌≡◌, ◌≢◌, refl, suc, ltb, false, ◌==◌,
  if◌then◌else◌, SameTexts, true,
}
use bonk.Base.Text.{join}
use bonk.Errors.{Error, message}
use bonk.Task.Value.{Value, Task, new_test_session}
use bonk.Task.Result.{Result, get_outputs, empty_result}
use bonk.Executor.{Executor}
use bonk.Scheduler.{
  Routine, begun, handing_over, Caller, calling, waiting, returned, Room, State, Step, run, fail,
  go, finish, child_call, after_call, caller_run, caller_fail, caller_go, caller_finish, wait,
  Steps, here, next, execute, execute_many,
}
use bonk.Scheduler.Collect.{Answers, Collects, node, CollectsAll, none_left, one_more}
use bonk.Scheduler.Complete.{execute_many_complete}
use bonk.Scheduler.Progress.{Returns, execute_many-bounded}
use bonk.Scheduler.Blocked.{execute_many-limit_one}

abbrev task_of : String → Task
task_of id = record {
  id = id;
  executor = "e";
  inputs = none;
  dependencies = none;
  args = Value.nil;
}

abbrev result_of : String → Result
result_of id =
    if id == "p"
    then record { outputs = "o" ∷ []; followup_tasks = task_of "c" ∷ [] }
    else record { outputs = "x" ∷ []; followup_tasks = [] }

-- Nothing is open in the world 0.
abbrev closed_error : ℕ → Option Error
closed_error ℕ.zero = some (message "closed")
closed_error (suc n) = none

abbrev IsOpen : ℕ → Type 0
IsOpen w = 1 ≤ w

is_fine : (w : ℕ) → IsOpen w → closed_error w ≡ none
is_fine ℕ.zero h = absurd (omega (arith, h))
is_fine (suc n) h = refl

-- Every call adds one to the world.
abbrev spawns : Executor ℕ
spawns = record {
  execute = λ session tsk result w. record {
    err = closed_error w;
    tsk = tsk;
    result = some (result_of tsk.id);
    world = w + 1;
  };
  open_session = λ session w. (none, suc w);
  close_session = λ id w. w;
}

abbrev two : Room
two n = ltb n 2

abbrev one : Room
one ℕ.zero = true
one (suc n) = false

abbrev unlimited : Room
unlimited n = true

no_room : (n : ℕ) → one (suc n) ≡ false
no_room n = refl

abbrev parent : Task
parent = task_of "p"

abbrev child : Task
child = task_of "p.c"

abbrev outputs_before : Result
outputs_before = record { outputs = "old" ∷ []; followup_tasks = [] }

parent-Answers : Answers spawns new_test_session IsOpen parent (child ∷ []) ("o" ∷ [])
unfolding join new_test_session bonk.Scheduler.as_child get_outputs
    bonk.Task.Result.get_followup_tasks bonk.Task.Id.get_child
parent-Answers = record {
  succeeds = is_fine;
  stays = λ w h. omega (arith, h);
  leaves = λ w h. refl;
}

child-Answers : Answers spawns new_test_session IsOpen child [] ("x" ∷ [])
unfolding join new_test_session bonk.Scheduler.as_child get_outputs
    bonk.Task.Result.get_followup_tasks
child-Answers = record { succeeds = is_fine; stays = λ w h. omega (arith, h); leaves = λ w h. refl }

child-Collects : Collects spawns new_test_session IsOpen child ("x" ∷ []) 2
child-Collects = node [] ("x" ∷ []) [] 0 child-Answers none_left refl refl

parent-Collects : Collects spawns new_test_session IsOpen parent ("o" ∷ "x" ∷ []) 5
parent-Collects =
    node (child ∷ []) ("o" ∷ []) ("x" ∷ []) 3 parent-Answers
      (one_more ("x" ∷ []) [] 2 0 child-Collects none_left refl refl) refl refl

all-CollectsAll : CollectsAll spawns new_test_session IsOpen (parent ∷ []) ("o" ∷ "x" ∷ []) 6
all-CollectsAll = one_more ("o" ∷ "x" ∷ []) [] 5 0 parent-Collects none_left refl refl

abbrev ended : State ℕ
ended = record {
  world = 3;
  caller = returned none;
  group = [];
  result = some (record { outputs = "old" ∷ "x" ∷ "o" ∷ []; followup_tasks = [] });
  err = none;
}

-- The followup puts out before its parent.
run_to_end :
    Steps spawns new_test_session two
      (execute_many spawns new_test_session (parent ∷ []) (some outputs_before) 1)
      8
      ended
unfolding execute_many join new_test_session bonk.Scheduler.as_child get_outputs
    bonk.Task.Result.get_followup_tasks bonk.Task.Result.add_outputs bonk.Task.Id.get_child
run_to_end =
    next
      (next
        (next
          (next
            (next
              (next
                (next (next here (caller_go parent [] [] refl refl refl) refl)
                  (run parent [] [] refl refl refl) refl)
                (go child [] ("o" ∷ []) [] [] refl refl refl) refl)
              (run child [] (handing_over [] ("o" ∷ []) ∷ []) refl refl refl) refl)
            (finish ("x" ∷ []) [] (handing_over [] ("o" ∷ []) ∷ []) refl refl) refl)
          (finish ("o" ∷ []) [] [] refl refl) refl)
        (caller_finish [] refl refl) refl)
      (wait refl refl refl) refl

execute_many_complete_example :
    (◌≡◌ {A = Option Error} none none)
    × SameTexts ("old" ∷ "x" ∷ "o" ∷ []) ("old" ∷ "o" ∷ "x" ∷ [])
    × (8 ≡ 6 + 2)
unfolding get_outputs
execute_many_complete_example =
    execute_many_complete spawns new_test_session IsOpen two (parent ∷ []) ("o" ∷ "x" ∷ []) 6 8
      outputs_before 1 ended none (omega arith) all-CollectsAll run_to_end refl

execute_to_end :
    Steps spawns new_test_session two
      (execute spawns new_test_session parent (some outputs_before) 1)
      6
      ended
unfolding execute join new_test_session bonk.Scheduler.as_child get_outputs
    bonk.Task.Result.get_followup_tasks bonk.Task.Result.add_outputs bonk.Task.Id.get_child
execute_to_end =
    next
      (next
        (next
          (next
            (next (next here (caller_run parent refl refl refl) refl)
              (caller_go child [] ("o" ∷ []) refl refl refl) refl)
            (run child [] [] refl refl refl) refl)
          (finish ("x" ∷ []) [] [] refl refl) refl)
        (caller_finish ("o" ∷ []) refl refl) refl)
      (wait refl refl refl) refl

execute_many-bounded_example :
    (8 ≤ 6 + 2) × (((m : ℕ) → two m ≡ true) → Returns spawns new_test_session IsOpen two ended)
execute_many-bounded_example =
    execute_many-bounded spawns new_test_session IsOpen two (parent ∷ []) ("o" ∷ "x" ∷ []) 6 8
      outputs_before 1 ended (omega arith) all-CollectsAll run_to_end

-- The only goroutine has run the task, and waits for room for the followup.
abbrev stuck : State ℕ
stuck = record {
  world = 2;
  caller = waiting;
  group = handing_over (child ∷ []) ("o" ∷ []) ∷ [];
  result = none;
  err = none;
}

run_to_stuck :
    Steps spawns new_test_session one
      (execute_many spawns new_test_session (parent ∷ []) none 1)
      3
      stuck
unfolding execute_many join new_test_session bonk.Scheduler.as_child get_outputs
    bonk.Task.Result.get_followup_tasks bonk.Task.Result.add_outputs bonk.Task.Id.get_child
run_to_stuck =
    next
      (next (next here (caller_go parent [] [] refl refl refl) refl)
        (run parent [] [] refl refl refl) refl)
      (caller_finish [] refl refl) refl

left_by_parent :
    after_call spawns new_test_session (child_call spawns new_test_session parent 1)
    ≡ handing_over (child ∷ []) ("o" ∷ [])
unfolding join new_test_session bonk.Scheduler.as_child get_outputs
    bonk.Task.Result.get_followup_tasks bonk.Task.Id.get_child
left_by_parent = refl

execute_many-limit_one_example : stuck.caller ≢ returned none
execute_many-limit_one_example =
    execute_many-limit_one spawns new_test_session one no_room parent child [] ("o" ∷ []) 1 refl
      left_by_parent [] none 3 stuck none run_to_stuck
