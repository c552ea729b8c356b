-- ===== src/Observable/Tests.antt =====
-- One listener and one session.
use bonk.Base.{tally, ℕ, ◌+◌, Bool, [], ◌∷◌, none, some, ◌≡◌, refl, nat_eq}
use bonk.Errors.{message}
use bonk.Task.Value.{Value, Task, new_test_session}
use bonk.Executor.{Executor}
use bonk.Observable.{
  Observ, Pending, TaskStatus, execute, deliver, Deliveries, here, next, close_session,
  find_session,
}
use bonk.Observable.Messages.{described, execute-messages}
use bonk.Observable.Delivery.{close_session-Deliveries}

-- It counts its calls, and fails.
abbrev failing : Executor ℕ
failing = record {
  execute = λ session tsk result w. record {
    err = some (message "no");
    tsk = tsk;
    result = result;
    world = w + 1;
  };
  open_session = λ session w. (none, w);
  close_session = λ id w. w;
}

abbrev a_task : Task
a_task = record { id = "t"; executor = "e"; inputs = none; dependencies = none; args = Value.nil }

abbrev idle : Observ ℕ
idle = record {
  world = 0;
  sessions = (0, 7) ∷ [];
  next_ref = 8;
  listeners = 1 ∷ [];
  pending = [];
  log = [];
}

abbrev running : Pending
running = record {
  session_ref = 7;
  listener = 1;
  msg = record { task_id = "t"; status = TaskStatus.status_running; error = none };
}

abbrev finished : Pending
finished = record {
  session_ref = 7;
  listener = 1;
  msg = record { task_id = "t"; status = TaskStatus.status_error; error = some (message "no") };
}

abbrev executed : Observ ℕ
executed = record idle { world = 1; pending = running ∷ finished ∷ [] }

execute-messages_example :
    execute failing new_test_session a_task none idle
    ≡ described failing (some 7) new_test_session a_task none idle
unfolding find_session new_test_session
execute-messages_example = execute-messages failing new_test_session a_task none idle

-- The listener is told that the task failed before it is told that it runs.
abbrev all_delivered : Observ ℕ
all_delivered = record executed { pending = []; log = finished ∷ running ∷ [] }

out_of_order : Deliveries executed all_delivered
out_of_order =
    next (next here (deliver (running ∷ []) [] finished refl refl))
      (deliver [] [] running refl refl)

execute_executed : (execute failing new_test_session a_task none idle).obs ≡ executed
unfolding execute new_test_session
execute_executed = refl

abbrev of_session : Pending → Bool
of_session p = nat_eq p.session_ref 7

close_session-Deliveries_example :
    tally of_session (record all_delivered { sessions = [] }).log
    ≡ tally of_session executed.log + tally of_session executed.pending
unfolding find_session close_session
close_session-Deliveries_example =
    close_session-Deliveries failing of_session 0 7 executed all_delivered
      (record all_delivered { sessions = [] }) refl (λ p h. h) out_of_order refl
