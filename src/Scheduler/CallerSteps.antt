-- ===== src/Scheduler/CallerSteps.antt =====
-- pkg/executor/scheduler/scheduler.go: what the steps of the caller leave of the invariant.
use bonk.Base.{
  ℕ, suc, ◌+◌, String, List, [], ◌∷◌, ◌++◌, ◌≡◌, refl, subst, arith, count, count-append,
}
use bonk.Task.Value.{Task, Session}
use bonk.Task.Result.{get_outputs, add_outputs}
use bonk.Executor.{Executor}
use bonk.Scheduler.{
  begun, handing_over, Caller, calling, waiting, returned, Room, State, child_call, after_call,
}
use bonk.Scheduler.Collect.{both, first, none_left_only}
use bonk.Scheduler.Invariant.{CallerCollects, Inv, ran, stayed, Goes}

module _ {W : Type 0} (exec : Executor W) (session : Session) (Safe : W → Type 0) (room : Room)
    (total : String → ℕ) where
  abbrev pub caller_at :
      {n : ℕ} {s : State W} (c : Caller) (i : Inv exec session Safe total n s)
      → s.caller ≡ c
      → CallerCollects exec session Safe c i.callers i.caller_steps
  caller_at c i h =
      subst (λ x. CallerCollects exec session Safe x i.callers i.caller_steps) h i.caller_collects

  pub caller_run-Goes :
      {n : ℕ} {s : State W} (tsk : Task)
      → Inv exec session Safe total n s
      → s.caller ≡ calling (begun tsk)
      → Goes exec session Safe room total n (record s {
        world = (child_call exec session tsk s.world).world;
        caller = calling (after_call exec session (child_call exec session tsk s.world));
      })
  caller_run-Goes {s} tsk i h =
      let (k, c, e) = caller_at {s = s} (calling (begun tsk)) i h in
      let (m, c', e') = ran exec session Safe tsk s.world i.callers k i.safe c in
      (
        suc m + i.group_steps,
        omega (arith, i.steps, e, e'),
        record {
          callers = i.callers;
          groups = i.groups;
          caller_steps = suc m;
          group_steps = i.group_steps;
          caller_collects = (m, c', refl);
          group_collects = i.group_collects;
          has_result = i.has_result;
          counted = i.counted;
          steps = refl;
          no_error = i.no_error;
          safe = stayed exec session Safe tsk s.world i.callers k i.safe c;
          done = λ x p. cc;
        },
      )

  pub caller_go-Goes :
      {n : ℕ} {s : State W} (f : Task) (fs : List Task) (own : List String)
      → Inv exec session Safe total n s
      → s.caller ≡ calling (handing_over (f ∷ fs) own)
      → Goes exec session Safe room total n
          (record s { caller = calling (handing_over fs own); group = begun f ∷ s.group })
  caller_go-Goes {s} f fs own i h =
      let (k, col, e'') = caller_at {s = s} (calling (handing_over (f ∷ fs) own)) i h in
      let (rest, m, c, e, e') = col in
      let d = first exec session Safe c in
      (
        suc (suc d.m) + (d.n + i.group_steps),
        omega (arith, i.steps, e', e'', d.steps),
        record {
          callers = own ++ d.more;
          groups = d.os ++ i.groups;
          caller_steps = suc (suc d.m);
          group_steps = d.n + i.group_steps;
          caller_collects = (suc d.m, (d.more, d.m, d.others, refl, refl), refl);
          group_collects = both d.os i.groups d.n i.group_steps d.one i.group_collects refl refl;
          has_result = i.has_result;
          counted = λ a.
              let whole : count a i.callers ≡ count a own + (count a d.os + count a d.more) =
                rw (e, d.split)
                  (omega
                    (arith, count-append a own (d.os ++ d.more), count-append a d.os d.more)) in
              omega (
                arith,
                i.counted a,
                whole,
                count-append a own d.more,
                count-append a d.os i.groups,
              );
          steps = refl;
          no_error = i.no_error;
          safe = i.safe;
          done = λ x p. cc;
        },
      )

  pub caller_finish-Goes :
      {n : ℕ} {s : State W} (own : List String)
      → Inv exec session Safe total n s
      → s.caller ≡ calling (handing_over [] own)
      → Goes exec session Safe room total n
          (record s { caller = waiting; result = add_outputs own s.result })
  unfolding get_outputs add_outputs
  caller_finish-Goes {s} own i h =
      let (k, col, e'') = caller_at {s = s} (calling (handing_over [] own)) i h in
      let (rest, m, c, e, e') = col in
      let (nothing, no_step) = none_left_only exec session Safe c in
      let (res, is_res) = i.has_result in
      (
        1 + i.group_steps,
        omega (arith, i.steps, e', e'', no_step),
        record {
          callers = [];
          groups = i.groups;
          caller_steps = 1;
          group_steps = i.group_steps;
          caller_collects = (refl, refl);
          group_collects = i.group_collects;
          has_result = (record res { outputs = res.outputs ++ own }, rw is_res);
          counted = λ a.
              let whole : count a i.callers ≡ count a own =
                rw (e, nothing) (omega (arith, count-append a own [])) in
              let before = i.counted a in
              rw is_res (omega (arith, rw is_res at before, whole, count-append a res.outputs own));
          steps = refl;
          no_error = i.no_error;
          safe = i.safe;
          done = λ x p. cc;
        },
      )

  pub wait-Goes :
      {n : ℕ} {s : State W}
      → Inv exec session Safe total n s
      → s.caller ≡ waiting
      → s.group ≡ []
      → Goes exec session Safe room total n (record s { caller = returned s.err })
  wait-Goes {s} i h g =
      let (nothing, one) = caller_at {s = s} waiting i h in
      (
        i.group_steps,
        omega (arith, i.steps, one),
        record {
          callers = [];
          groups = i.groups;
          caller_steps = 0;
          group_steps = i.group_steps;
          caller_collects = (refl, refl, i.no_error);
          group_collects = i.group_collects;
          has_result = i.has_result;
          counted = λ a. let before = i.counted a in rw nothing at before;
          steps = omega arith;
          no_error = i.no_error;
          safe = i.safe;
          done = λ x p. g;
        },
      )
