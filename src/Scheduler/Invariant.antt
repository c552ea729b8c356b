-- ===== src/Scheduler/Invariant.antt =====
-- pkg/executor/scheduler/scheduler.go: what is out and what is still to come, while the
-- goroutines of the group move.
use bonk.Base.{
  ℕ, suc, ◌+◌, String, List, [], ◌∷◌, ◌++◌, Option, none, some, ◌≡◌, refl, sym, ◌∙◌, subst, arith,
  count, count-append,
}
use bonk.Errors.{Error}
use bonk.Task.Value.{Task, Session}
use bonk.Task.Result.{Result, get_outputs, add_outputs}
use bonk.Executor.{Executor}
use bonk.Scheduler.{
  Routine, begun, handing_over, Caller, calling, waiting, returned, Room, State, child_call,
  after_call,
}
use bonk.Scheduler.Collect.{
  Collects, node, RoutineCollects, GroupCollects, both, Apart, apart, first, none_left_only,
}

pub append-ne-nil : (xs : List Routine) (g : Routine) (ys : List Routine) → xs ++ (g ∷ ys) ≡ [] → ⊥
append-ne-nil [] g ys h = cc
append-ne-nil (x ∷ xs) g ys h = cc

module _ {W : Type 0} (exec : Executor W) (session : Session) (Safe : W → Type 0) where
  -- What the caller still puts out, and how many steps it takes.
  abbrev pub CallerCollects : Caller → List String → ℕ → Type 0
  CallerCollects (calling g) os n = (m : ℕ) × RoutineCollects exec session Safe g os m × (n ≡ suc m)
  CallerCollects waiting os n = (os ≡ []) × (n ≡ 1)
  CallerCollects (returned e) os n = (os ≡ []) × (n ≡ 0) × (e ≡ none)

  -- The result and what is still to come make up the total; no error has occurred, and the world is safe.
  pub record Inv (total : String → ℕ) (n : ℕ) (s : State W) : Type 0 where
    pub callers : List String
    pub groups : List String
    pub caller_steps : ℕ
    pub group_steps : ℕ
    pub caller_collects : CallerCollects s.caller callers caller_steps
    pub group_collects : GroupCollects exec session Safe s.group groups group_steps
    pub has_result : (r : Result) × (s.result ≡ some r)
    pub counted :
        (a : String) → count a (get_outputs s.result) + count a callers + count a groups ≡ total a
    pub steps : n ≡ caller_steps + group_steps
    pub no_error : s.err ≡ none
    pub safe : Safe s.world
    pub done : (e : Option Error) → s.caller ≡ returned e → s.group ≡ []

  -- One step of a routine that has been told apart.
  pub ran :
      (tsk : Task) (w : W) (os : List String) (n : ℕ)
      → Safe w
      → Collects exec session Safe tsk os n
      → (m : ℕ) × RoutineCollects exec session Safe
          (after_call exec session (child_call exec session tsk w))
          os
          m
        × (n ≡ suc m)
  ran tsk w os n safe (node fs own rest m answers below e f) = (
    suc m,
    subst (λ g. RoutineCollects exec session Safe g os (suc m)) (sym (answers.leaves w safe))
        (rest, m, below, e, refl),
    f,
  )

  pub not_failed :
      (tsk : Task) (w : W) (os : List String) (n : ℕ) (e : Error)
      → Safe w
      → Collects exec session Safe tsk os n
      → (child_call exec session tsk w).err ≡ some e
      → ⊥
  not_failed tsk w os n e safe (node fs own rest m answers below p q) h =
      cc (answers.succeeds w safe)

  pub stayed :
      (tsk : Task) (w : W) (os : List String) (n : ℕ)
      → Safe w
      → Collects exec session Safe tsk os n
      → Safe (child_call exec session tsk w).world
  stayed tsk w os n safe (node fs own rest m answers below p q) = answers.stays w safe

  module _ (room : Room) (total : String → ℕ) where
    -- The group without one of its routines.
    abbrev pub apart_at :
        {n : ℕ} {s : State W} (g : Routine) (xs ys : List Routine) (i : Inv total n s)
        → s.group ≡ xs ++ (g ∷ ys)
        → Apart exec session Safe g (xs ++ ys) i.groups i.group_steps
    apart_at {s} g xs ys i h =
        apart exec session Safe xs ys g i.groups i.group_steps
          (subst (λ l. GroupCollects exec session Safe l i.groups i.group_steps) h i.group_collects)

    abbrev pub Goes : ℕ → State W → Type 0
    Goes n s' = (n' : ℕ) × (n ≡ suc n') × Inv total n' s'

    pub run-Goes :
        {n : ℕ} {s : State W} (tsk : Task) (xs ys : List Routine)
        → Inv total n s
        → s.group ≡ xs ++ (begun tsk ∷ ys)
        → Goes n (record s {
          world = (child_call exec session tsk s.world).world;
          group = after_call exec session (child_call exec session tsk s.world) ∷ (xs ++ ys);
        })
    run-Goes {s} tsk xs ys i h =
        let r = apart_at {s = s} (begun tsk) xs ys i h in
        let (m, c, e) = ran tsk s.world r.os r.n i.safe r.one in
        (
          i.caller_steps + (m + r.m),
          omega (arith, i.steps, r.steps),
          record {
            callers = i.callers;
            groups = r.os ++ r.more;
            caller_steps = i.caller_steps;
            group_steps = m + r.m;
            caller_collects = i.caller_collects;
            group_collects = both r.os r.more m r.m c r.others refl refl;
            has_result = i.has_result;
            counted = λ a. omega (arith, i.counted a, r.counted a, count-append a r.os r.more);
            steps = refl;
            no_error = i.no_error;
            safe = stayed tsk s.world r.os r.n i.safe r.one;
            done = λ e' d. absurd (append-ne-nil xs _ ys (sym h ∙ i.done e' d));
          },
        )

    pub go-Goes :
        {n : ℕ} {s : State W} (f : Task) (fs : List Task) (own : List String) (xs ys : List Routine)
        → Inv total n s
        → s.group ≡ xs ++ (handing_over (f ∷ fs) own ∷ ys)
        → Goes n (record s { group = begun f ∷ handing_over fs own ∷ (xs ++ ys) })
    go-Goes {s} f fs own xs ys i h =
        let r = apart_at {s = s} (handing_over (f ∷ fs) own) xs ys i h in
        let (rest, m, c, e, e') = r.one in
        let d = first exec session Safe c in
        (
          i.caller_steps + (d.n + (suc d.m + r.m)),
          omega (arith, i.steps, r.steps, e', d.steps),
          record {
            callers = i.callers;
            groups = d.os ++ ((own ++ d.more) ++ r.more);
            caller_steps = i.caller_steps;
            group_steps = d.n + (suc d.m + r.m);
            caller_collects = i.caller_collects;
            group_collects =
                both d.os ((own ++ d.more) ++ r.more) d.n (suc d.m + r.m) d.one
                  (both (own ++ d.more) r.more (suc d.m) r.m (d.more, d.m, d.others, refl, refl)
                    r.others refl refl)
                  refl refl;
            has_result = i.has_result;
            counted = λ a.
                let whole : count a r.os ≡ count a own + (count a d.os + count a d.more) =
                  rw (e, d.split)
                    (omega
                      (arith, count-append a own (d.os ++ d.more), count-append a d.os d.more)) in
                omega (
                  arith,
                  i.counted a,
                  r.counted a,
                  whole,
                  count-append a d.os ((own ++ d.more) ++ r.more),
                  count-append a (own ++ d.more) r.more,
                  count-append a own d.more,
                );
            steps = refl;
            no_error = i.no_error;
            safe = i.safe;
            done = λ e'' p. absurd (append-ne-nil xs _ ys (sym h ∙ i.done e'' p));
          },
        )

    pub finish-Goes :
        {n : ℕ} {s : State W} (own : List String) (xs ys : List Routine)
        → Inv total n s
        → s.group ≡ xs ++ (handing_over [] own ∷ ys)
        → Goes n (record s { group = xs ++ ys; result = add_outputs own s.result })
    unfolding get_outputs add_outputs
    finish-Goes {s} own xs ys i h =
        let r = apart_at {s = s} (handing_over [] own) xs ys i h in
        let (rest, m, c, e, e') = r.one in
        let (nothing, no_step) = none_left_only exec session Safe c in
        let (res, is_res) = i.has_result in
        (
          i.caller_steps + r.m,
          omega (arith, i.steps, r.steps, e', no_step),
          record {
            callers = i.callers;
            groups = r.more;
            caller_steps = i.caller_steps;
            group_steps = r.m;
            caller_collects = i.caller_collects;
            group_collects = r.others;
            has_result = (record res { outputs = res.outputs ++ own }, rw is_res);
            counted = λ a.
                let whole : count a r.os ≡ count a own =
                  rw (e, nothing) (omega (arith, count-append a own [])) in
                let before = i.counted a in
                rw is_res (
                  omega (
                    arith,
                    rw is_res at before,
                    r.counted a,
                    whole,
                    count-append a res.outputs own,
                  ));
            steps = refl;
            no_error = i.no_error;
            safe = i.safe;
            done = λ e'' p. absurd (append-ne-nil xs _ ys (sym h ∙ i.done e'' p));
          },
        )
