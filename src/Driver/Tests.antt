-- ===== src/Driver/Tests.antt =====
-- An executor that keeps its open sessions.
use bonk.Base.{
  SameTexts, ℕ, zero, suc, ◌-◌, ◌≤◌, Bool, true, false, nat_eq, if◌then◌else◌, ◌≢◌, List, [], ◌∷◌,
  Option, none, some, ◌≡◌, refl, arith,
}
use mathlib.Core.List.{Permᴰ}
use bonk.Errors.{Error, message, wrap}
use bonk.Task.Value.{Value, Task, Session, new_test_session}
use bonk.Task.Result.{Result, empty_result, add_outputs, get_outputs}
use bonk.Executor.{Executor}
use bonk.Scheduler.{
  Caller, Routine, run, finish, caller_go, Room, handing_over, calling, waiting, Steps, here, next,
  State, Step, execute_many, caller_finish, wait,
}
use bonk.Scheduler as Scheduler
use bonk.Scheduler.Collect.{Answers, node, CollectsAll, none_left, one_more}
use bonk.Driver.Outputs.{Run-outputs}
use bonk.Driver.Returns.{Run-returns}
use bonk.Driver.{Progress, Round, not_opened, executed, finished, round, Run, fails, completes}
use bonk.Driver.Sessions.{Tracks, among, Run-closed, Run-leaves_open}

-- The world is the sessions that are open. One that is open is not opened again.
abbrev World : Type 0
World = ℕ → Bool

abbrev set_open : ℕ → Bool → World → World
set_open id b w i = if nat_eq id i then b else w i

abbrev busy_error : Bool → Option Error
busy_error true = some (message "busy")
busy_error false = none

abbrev single : Executor World
single = record {
  execute = λ session tsk result w. record { err = none; tsk = tsk; result = result; world = w };
  open_session = λ session w. (busy_error (w session.id), set_open session.id true w);
  close_session = λ id w. set_open id false w;
}

abbrev always : Room
always n = true

abbrev is_open : ℕ → World → Bool
is_open id w = w id

set_self : (id : ℕ) (b : Bool) (w : World) → set_open id b w id ≡ b
set_self id b w = ground arith

set_other : (id : ℕ) (b : Bool) (w : World) (i : ℕ) → id ≢ i → set_open id b w i ≡ w i
set_other id b w i ne = ground (arith, ne)

single-Tracks : Tracks single is_open
single-Tracks = record {
  opened = λ session w e. set_self session.id true w;
  opened_other = λ session w i ne. set_other session.id true w i ne;
  refused = λ session w e h o. set_self session.id true w;
  kept = λ session tsk result w i. refl;
  closed = λ id w. set_self id false w;
  closed_other = λ id w i ne. set_other id false w i ne;
}

abbrev no_session : World
no_session i = false

abbrev one_open : World
one_open = set_open 0 true no_session

-- No task is run in the opened session.
abbrev start : State World
start = record {
  world = one_open;
  caller = calling (handing_over [] []);
  group = [];
  result = none;
  err = none;
}

abbrev mid : State World
mid = record start { caller = waiting }

abbrev done : State World
done = record start { caller = Scheduler.returned none }

runs_none :
    Steps single new_test_session always
      (execute_many single new_test_session [] none one_open)
      2
      done
unfolding execute_many add_outputs
runs_none =
    let s1 : Step single new_test_session always start mid = caller_finish [] refl refl in
    let s2 : Step single new_test_session always mid done = wait refl refl refl in
    next (next here s1 refl) s2 refl

abbrev at_start : Progress World
at_start = record { err = none; result = none; world = no_session }

abbrev at_end : Progress World
at_end = record { err = none; result = none; world = one_open }

first_round : Round single always new_test_session [] at_start at_end
unfolding new_test_session
first_round = executed 2 done none refl runs_none refl refl

abbrev one_session : List (Session × List Task)
one_session = (new_test_session, []) ∷ []

abbrev closed_again : Progress World
closed_again = record { err = none; result = none; world = set_open 0 false one_open }

fine_run : Run single always one_session none no_session closed_again
unfolding new_test_session
fine_run =
    completes at_end one_session (round first_round (finished refl)) refl
      (Permᴰ.cons refl Permᴰ.nil) refl

one_closed :
    is_open 0 closed_again.world ≡ (if among 0 one_session then false else is_open 0 no_session)
unfolding new_test_session
one_closed =
    Run-closed single always is_open single-Tracks one_session none no_session closed_again fine_run
      refl 0

abbrev busy : Progress World
busy = record { err = some (message "busy"); result = none; world = set_open 0 true one_open }

abbrev busy_end : Progress World
busy_end = record busy {
  err = some (wrap "failed to register tasks with scheduler" (message "busy"));
}

busy_run :
    Run single always
      ((new_test_session, []) ∷ (new_test_session, []) ∷ [])
      none
      no_session
      busy_end
unfolding new_test_session
busy_run =
    let second : Round single always new_test_session [] at_end busy =
      not_opened (message "busy") refl refl in
    fails (message "busy") busy (round first_round (round second (finished refl))) refl refl

Run-leaves_open_example : is_open 0 busy_end.world ≡ true
unfolding new_test_session
Run-leaves_open_example =
    Run-leaves_open single always is_open single-Tracks new_test_session []
      ((new_test_session, []) ∷ []) none no_session busy_end
      (wrap "failed to register tasks with scheduler" (message "busy")) refl busy_run refl

-- Tasks fail while no session is open.
abbrev closed_error : ℕ → Option Error
closed_error zero = some (message "closed")
closed_error (suc n) = none

is_fine : (w : ℕ) → 1 ≤ w → closed_error w ≡ none
is_fine zero h = absurd (omega (arith, h))
is_fine (suc n) h = refl

abbrev IsOpen : List Session → ℕ → Type 0
IsOpen [] w = Unit
IsOpen (session ∷ opened) w = 1 ≤ w

-- In an open session every task puts out "o".
abbrev puts : Executor ℕ
puts = record {
  execute = λ session tsk result w. record {
    err = closed_error w;
    tsk = tsk;
    result = some (record { outputs = "o" ∷ []; followup_tasks = [] });
    world = w;
  };
  open_session = λ session w. (none, suc w);
  close_session = λ id w. w - 1;
}

abbrev a_task : Task
a_task = record { id = "t"; executor = "e"; inputs = none; dependencies = none; args = Value.nil }

puts-Answers : Answers puts new_test_session (λ w. 1 ≤ w) a_task [] ("o" ∷ [])
unfolding get_outputs bonk.Task.Result.get_followup_tasks
puts-Answers = record { succeeds = is_fine; stays = λ w h. h; leaves = λ w h. refl }

puts-CollectsAll : CollectsAll puts new_test_session (λ w. 1 ≤ w) (a_task ∷ []) ("o" ∷ []) 3
puts-CollectsAll =
    one_more ("o" ∷ []) [] 2 0 (node [] ("o" ∷ []) [] 0 puts-Answers none_left refl refl) none_left
      refl refl

abbrev stands : Caller → List Routine → Option Result → State ℕ
stands caller group result = record {
  world = 1;
  caller = caller;
  group = group;
  result = result;
  err = none;
}

abbrev put_out : Result
put_out = record { outputs = "o" ∷ []; followup_tasks = [] }

runs_one :
    Steps puts new_test_session always
      (execute_many puts new_test_session (a_task ∷ []) (some empty_result) 1)
      5
      (stands (Scheduler.returned none) [] (some put_out))
unfolding execute_many add_outputs get_outputs bonk.Task.Result.get_followup_tasks
runs_one =
    next
      (next
        (next
          (next (next here (caller_go a_task [] [] refl refl refl) refl)
            (run a_task [] [] refl refl refl) refl)
          (finish ("o" ∷ []) [] [] refl refl) refl)
        (caller_finish [] refl refl) refl)
      (wait refl refl refl) refl

abbrev task_session : List (Session × List Task)
task_session = (new_test_session, a_task ∷ []) ∷ []

abbrev all_put : Progress ℕ
all_put = record { err = none; result = some put_out; world = 1 }

put_run : Run puts always task_session (some empty_result) 0 (record all_put { world = 0 })
put_run =
    let only : Round puts always new_test_session (a_task ∷ [])
        (record { err = none; result = some empty_result; world = 0 }) all_put =
      executed 5 (stands (Scheduler.returned none) [] (some put_out)) none refl runs_one refl
        refl in
    completes all_put task_session (round only (finished refl)) refl (Permᴰ.cons refl Permᴰ.nil)
      refl

outputs_put : (◌≡◌ {A = Option Error} none none) × SameTexts ("o" ∷ []) ("o" ∷ [])
unfolding get_outputs
outputs_put =
    Run-outputs puts always IsOpen task_session ("o" ∷ []) empty_result 0
      (record all_put { world = 0 }) tt ((λ w h. (refl, omega arith)), tt)
      ("o" ∷ [], 3, [], puts-CollectsAll, refl, refl) put_run

Run-returns_example :
    (p : Progress ℕ) × Run puts always task_session (some empty_result) 0 p
    × (p.err ≡ none)
    × SameTexts (get_outputs p.result) ("o" ∷ [])
Run-returns_example =
    Run-returns puts always IsOpen (λ n. refl) task_session ("o" ∷ []) empty_result 0 tt
      ((λ w h. (refl, omega arith)), tt) ("o" ∷ [], 3, [], puts-CollectsAll, refl, refl)
