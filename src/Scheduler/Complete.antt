-- ===== src/Scheduler/Complete.antt =====
-- pkg/executor/scheduler/scheduler.go: the outputs and the number of steps of whole runs.
use bonk.Base.{
  ℕ, suc, ◌+◌, String, List, [], ◌++◌, Option, none, some, ◌≡◌, refl, subst, arith, count,
  count-append, SameTexts,
}
use bonk.Errors.{Error}
use bonk.Task.Value.{Task, Session}
use bonk.Task.Result.{Result, get_outputs}
use bonk.Executor.{Executor}
use bonk.Scheduler.{
  begun, calling, returned, Room, State, Step, run, fail, go, finish, caller_run, caller_fail,
  caller_go, caller_finish, wait, Steps, here, next, execute_many, execute,
}
use bonk.Scheduler.Collect.{Collects, CollectsAll, GroupCollects, idle, idle_only}
use bonk.Scheduler.Invariant.{Inv, not_failed, apart_at, Goes, run-Goes, go-Goes, finish-Goes}
use bonk.Scheduler.CallerSteps.{
  caller_at, caller_run-Goes, caller_go-Goes, caller_finish-Goes, wait-Goes,
}

module _ {W : Type 0} (exec : Executor W) (session : Session) (Safe : W → Type 0) (room : Room)
    (total : String → ℕ) where
  pub Step-Goes :
      {n : ℕ} {s s' : State W}
      → Inv exec session Safe total n s
      → Step exec session room s s'
      → Goes exec session Safe room total n s'
  Step-Goes i (run tsk xs ys g ok e) = rw e (run-Goes exec session Safe room total tsk xs ys i g)
  Step-Goes {s} i (fail tsk x xs ys g bad e) =
      let r = apart_at exec session Safe room total {s = s} (begun tsk) xs ys i g in
      absurd (not_failed exec session Safe tsk s.world r.os r.n x i.safe r.one bad)
  Step-Goes i (go f fs os xs ys g free e) =
      rw e (go-Goes exec session Safe room total f fs os xs ys i g)
  Step-Goes i (finish os xs ys g e) = rw e (finish-Goes exec session Safe room total os xs ys i g)
  Step-Goes i (caller_run tsk c ok e) = rw e (caller_run-Goes exec session Safe room total tsk i c)
  Step-Goes {s} i (caller_fail tsk x c bad e) =
      let (k, col, _) = caller_at exec session Safe room total {s = s} (calling (begun tsk)) i c in
      absurd (not_failed exec session Safe tsk s.world i.callers k x i.safe col bad)
  Step-Goes i (caller_go f fs os c free e) =
      rw e (caller_go-Goes exec session Safe room total f fs os i c)
  Step-Goes i (caller_finish os c e) = rw e (caller_finish-Goes exec session Safe room total os i c)
  Step-Goes i (wait c g e) = rw e (wait-Goes exec session Safe room total i c g)

  pub Steps-Inv :
      {s : State W} {n k : ℕ} {s' : State W}
      → Inv exec session Safe total n s
      → Steps exec session room s k s'
      → (n' : ℕ) × (n ≡ k + n') × Inv exec session Safe total n' s'
  Steps-Inv {n} i here = (n, omega arith, i)
  Steps-Inv i (next before step e) =
      let (m, p, j) = Steps-Inv i before in
      let (n', q, j') = Step-Goes j step in (n', omega (arith, p, q, e), j')

  -- A run has returned: no step is left, and all is put out.
  Inv-returned :
      {n : ℕ} {s : State W} {x : Option Error}
      → Inv exec session Safe total n s
      → s.caller ≡ returned x
      → (x ≡ none) × (n ≡ 0) × ((a : String) → count a (get_outputs s.result) ≡ total a)
  Inv-returned {s} {x} i h =
      let (nothing, no_step, fine) =
        caller_at exec session Safe room total {s = s} (returned x) i h in
      let (empty, no_more) = idle_only exec session Safe (
        subst (λ l. GroupCollects exec session Safe l i.groups i.group_steps) (i.done x h)
          i.group_collects) in
      (
        fine,
        omega (arith, i.steps, no_step, no_more),
        λ a. let c = rw (nothing, empty) at (i.counted a) in omega (arith, c),
      )

module _ {W : Type 0} (exec : Executor W) (session : Session) (Safe : W → Type 0)
    (room : Room) where
  abbrev pub plus : Result → List String → String → ℕ
  plus r os a = count a r.outputs + count a os

  pub execute_many-Inv :
      (tsks : List Task) (os : List String) (n : ℕ) (r : Result) (w : W)
      → Safe w
      → CollectsAll exec session Safe tsks os n
      → Inv exec session Safe (plus r os) (n + 2) (execute_many exec session tsks (some r) w)
  unfolding execute_many get_outputs
  execute_many-Inv tsks os n r w safe c = record {
    callers = os;
    groups = [];
    caller_steps = suc (suc n);
    group_steps = 0;
    caller_collects = (suc n, (os, n, c, refl, refl), refl);
    group_collects = idle;
    has_result = (r, refl);
    counted = λ a. omega arith;
    steps = omega arith;
    no_error = refl;
    safe = safe;
    done = λ x p. cc;
  }

  execute-Inv :
      (tsk : Task) (os : List String) (n : ℕ) (r : Result) (w : W)
      → Safe w
      → Collects exec session Safe tsk os n
      → Inv exec session Safe (plus r os) (n + 1) (execute exec session tsk (some r) w)
  unfolding execute get_outputs
  execute-Inv tsk os n r w safe c = record {
    callers = os;
    groups = [];
    caller_steps = suc n;
    group_steps = 0;
    caller_collects = (n, c, refl);
    group_collects = idle;
    has_result = (r, refl);
    counted = λ a. omega arith;
    steps = omega arith;
    no_error = refl;
    safe = safe;
    done = λ x p. cc;
  }

  -- The world of a run stays safe.
  pub execute_many-Safe :
      (tsks : List Task) (os : List String) (n k : ℕ) (r : Result) (w : W) (s' : State W)
      → Safe w
      → CollectsAll exec session Safe tsks os n
      → Steps exec session room (execute_many exec session tsks (some r) w) k s'
      → Safe s'.world
  execute_many-Safe tsks os n k r w s' safe c steps =
      let (_, _, j) =
        Steps-Inv exec session Safe room (plus r os) (execute_many-Inv tsks os n r w safe c)
          steps in
      j.safe

  complete :
      {n k : ℕ} (r : Result) (os : List String) {s s' : State W} {x : Option Error}
      → Inv exec session Safe (plus r os) n s
      → Steps exec session room s k s'
      → s'.caller ≡ returned x
      → (x ≡ none) × SameTexts (get_outputs s'.result) (r.outputs ++ os) × (k ≡ n)
  complete r os i steps h =
      let (n', p, j) = Steps-Inv exec session Safe room (plus r os) i steps in
      let (fine, no_step, all) = Inv-returned exec session Safe room (plus r os) j h in
      (fine, λ a. omega (arith, all a, count-append a r.outputs os), omega (arith, p, no_step))

  -- Let there be safe worlds, the first one among them, in which each task and each followup is
  -- executed without an error and into a safe world, with the same followups and outputs in all of
  -- them. Then ExecuteMany, where it returns, returns no error, and its result has the outputs that
  -- it had and those of all tasks and followups, in some order, whatever the limit and the order of
  -- the goroutines' steps; it takes exactly the steps of the tasks.
  pub execute_many_complete :
      (tsks : List Task) (os : List String) (n k : ℕ) (r : Result) (w : W) (s' : State W)
      (x : Option Error)
      → Safe w
      → CollectsAll exec session Safe tsks os n
      → Steps exec session room (execute_many exec session tsks (some r) w) k s'
      → s'.caller ≡ returned x
      → (x ≡ none) × SameTexts (get_outputs s'.result) (r.outputs ++ os) × (k ≡ n + 2)
  execute_many_complete tsks os n k r w s' x safe c steps h =
      complete r os (execute_many-Inv tsks os n r w safe c) steps h

  -- The same of Execute, which runs one task in the caller.
  execute_complete :
      (tsk : Task) (os : List String) (n k : ℕ) (r : Result) (w : W) (s' : State W)
      (x : Option Error)
      → Safe w
      → Collects exec session Safe tsk os n
      → Steps exec session room (execute exec session tsk (some r) w) k s'
      → s'.caller ≡ returned x
      → (x ≡ none) × SameTexts (get_outputs s'.result) (r.outputs ++ os) × (k ≡ n + 1)
  execute_complete tsk os n k r w s' x safe c steps h =
      complete r os (execute-Inv tsk os n r w safe c) steps h
