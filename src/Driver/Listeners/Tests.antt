-- ===== src/Driver/Listeners/Tests.antt =====
-- A listener of a run with one task, whose goroutines run only while the session is being closed.
use bonk.Base.{
  ℕ, List, [], ◌∷◌, ◌++◌, Option, none, some, true, false, SameTexts, if◌then◌else◌, ◌≡◌, refl,
  length,
}
use mathlib.Core.List.{Permᴰ}
use bonk.Task.Value.{Task, Session, Value, new_test_session}
use bonk.Task.Result.{Result, empty_result, get_outputs, get_followup_tasks, add_outputs}
use bonk.Executor.{Executor}
use bonk.Scheduler.{
  Caller, Routine, run, finish, caller_go, Room, waiting, Steps, here, next, State, execute_many,
  caller_finish, wait, calling, handing_over,
}
use bonk.Scheduler as Scheduler
use bonk.Observable.{
  Observ, Pending, Deliver, deliver, Deliveries, has_pending, listen, execute, open_session,
  close_session,
}
use bonk.Observable as Observable
use bonk.Observable.Scheduled.{Schedule, observed}
use bonk.Driver.{Progress, Round, executed, finished, round, Run, completes, close_all}
use bonk.Driver.Ids.{Work}
use bonk.Driver.Sessions.{among, Run-closed}
use bonk.Driver.Tracked as Tracked
use bonk.Driver.Tracked.{observed-Tracks}
use bonk.Driver.Outputs.{Run-outputs}
use bonk.Driver.Observed.{IsSafe, observed-OpensAll, observed-PutsOut}
use bonk.Scheduler.Collect.{Answers, node, CollectsAll, none_left, one_more}
use bonk.Errors.{Error}

-- All pending goroutines run, one after the other.
drain_all : List Pending → Observ ℕ → Observ ℕ
drain_all [] o = o
drain_all (p ∷ ps) o = drain_all ps (record o { pending = ps; log = o.log ++ (p ∷ []) })

Deliveries-cons : {a b c : Observ ℕ} → Deliver a b → Deliveries b c → Deliveries a c
Deliveries-cons d Observable.here = Observable.next Observable.here d
Deliveries-cons d (Observable.next ds e) = Observable.next (Deliveries-cons d ds) e

drain_all-Deliveries :
    (ps : List Pending) (o : Observ ℕ) → o.pending ≡ ps → Deliveries o (drain_all ps o)
unfolding drain_all
drain_all-Deliveries [] o e = Observable.here
drain_all-Deliveries (p ∷ ps) o e =
    Deliveries-cons (deliver [] ps p e refl) (drain_all-Deliveries ps _ refl)

drain_all-pending :
    (ps : List Pending) (o : Observ ℕ) → o.pending ≡ ps → (drain_all ps o).pending ≡ []
unfolding drain_all
drain_all-pending [] o e = e
drain_all-pending (p ∷ ps) o e = drain_all-pending ps _ refl

has_none : (ref : ℕ) (ps : List Pending) → ps ≡ [] → has_pending ref ps ≡ false
unfolding has_pending
has_none ref ps e = rw e refl

abbrev late : Schedule ℕ
late = record {
  turn = λ o. o;
  turn_delivers = λ o. Observable.here;
  drain = λ ref o. drain_all o.pending o;
  drain_delivers = λ ref o. drain_all-Deliveries o.pending o refl;
  drained =
      λ ref o. has_none ref (drain_all o.pending o).pending (drain_all-pending o.pending o refl);
}

abbrev puts : Executor ℕ
puts = record {
  execute = λ session tsk result w. record {
    err = none;
    tsk = tsk;
    result = some (record { outputs = "o" ∷ []; followup_tasks = [] });
    world = w;
  };
  open_session = λ session w. (none, w);
  close_session = λ id w. w;
}

abbrev exec : Executor (Observ ℕ)
exec = observed puts late

abbrev a_task : Task
a_task = record { id = "t"; executor = "e"; inputs = none; dependencies = none; args = Value.nil }

abbrev one_listener : Observ ℕ
one_listener = record {
  world = 0;
  sessions = [];
  next_ref = 0;
  listeners = 7 ∷ [];
  pending = [];
  log = [];
}

abbrev is_open : Observ ℕ
is_open = (exec.open_session new_test_session one_listener).1

abbrev has_run : Observ ℕ
has_run = (exec.execute new_test_session a_task (some empty_result) is_open).world

abbrev always : Room
always n = true

abbrev put_out : Result
put_out = record { outputs = "o" ∷ []; followup_tasks = [] }

abbrev ended : State (Observ ℕ)
ended = record {
  world = has_run;
  caller = Scheduler.returned none;
  group = [];
  result = some put_out;
  err = none;
}

runs :
    Steps exec new_test_session always
      (execute_many exec new_test_session (a_task ∷ []) (some empty_result) is_open)
      5
      ended
unfolding execute_many add_outputs get_outputs get_followup_tasks observed new_test_session
runs =
    next
      (next
        (next
          (next (next here (caller_go a_task [] [] refl refl refl) refl)
            (run a_task [] [] refl refl refl) refl)
          (finish ("o" ∷ []) [] [] refl refl) refl)
        (caller_finish [] refl refl) refl)
      (wait refl refl refl) refl

abbrev sessions : Work
sessions = (new_test_session, a_task ∷ []) ∷ []

abbrev at_end : Progress (Observ ℕ)
at_end = record {
  err = none;
  result = some put_out;
  world = close_all exec always sessions has_run;
}

whole : Run exec always sessions (some empty_result) one_listener at_end
unfolding observed
whole =
    let p : Progress (Observ ℕ) = record at_end { world = has_run } in
    let only : Round exec always new_test_session (a_task ∷ [])
        (record { err = none; result = some empty_result; world = one_listener }) p =
      executed 5 ended none refl runs refl refl in
    completes p sessions (round only (finished refl)) refl (Permᴰ.cons refl Permᴰ.nil) refl

-- The listener was told that the task runs and that it succeeded.
told : length at_end.world.log ≡ 2
unfolding observed drain_all new_test_session
told = refl

Run-closed_example :
    Tracked.is_open puts late 0 at_end.world
    ≡ (if among 0 sessions then false else Tracked.is_open puts late 0 one_listener)
Run-closed_example =
    Run-closed exec always (Tracked.is_open puts late) (observed-Tracks puts late) sessions
      (some empty_result) one_listener at_end whole refl 0

-- Every world of the executor under the observable one is safe.
abbrev Safe : List Session → ℕ → Type 0
Safe opened w = Unit

a_task-Answers : Answers puts new_test_session (λ w. Unit) a_task [] ("o" ∷ [])
unfolding get_outputs get_followup_tasks
a_task-Answers = record { succeeds = λ w h. refl; stays = λ w h. tt; leaves = λ w h. refl }

task-CollectsAll : CollectsAll puts new_test_session (λ w. Unit) (a_task ∷ []) ("o" ∷ []) 3
task-CollectsAll =
    one_more ("o" ∷ []) [] 2 0 (node [] ("o" ∷ []) [] 0 a_task-Answers none_left refl refl)
      none_left refl refl

Run-outputs_example :
    (◌≡◌ {A = Option Error} none none) × SameTexts (get_outputs (some put_out)) ("o" ∷ [])
Run-outputs_example =
    Run-outputs exec always (IsSafe puts late Safe) sessions ("o" ∷ []) empty_result one_listener
      at_end (tt, tt)
      (observed-OpensAll puts late Safe always [] sessions ((λ w h. (refl, tt)), tt))
      (observed-PutsOut puts late Safe always [] sessions ("o" ∷ [])
        ("o" ∷ [], 3, [], task-CollectsAll, refl, refl))
      whole
