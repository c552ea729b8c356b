-- ===== src/Scheduler/Progress.antt =====
-- pkg/executor/scheduler/scheduler.go: the length of runs, and runs without a limit.
use bonk.Base.{
  true, ℕ, zero, suc, ◌+◌, ◌≤◌, String, List, [], ◌∷◌, Option, some, ◌≡◌, refl, ◌⊎◌, inl, inr,
  arith, Option-cases,
}
use bonk.Errors.{Error}
use bonk.Task.Value.{Task, Session}
use bonk.Task.Result.{Result}
use bonk.Executor.{Executor}
use bonk.Scheduler.{
  Routine, begun, handing_over, Caller, calling, waiting, returned, Room, State, child_call, Step,
  run, fail, go, finish, caller_run, caller_fail, caller_go, caller_finish, wait, Steps, here, next,
  execute_many,
}
use bonk.Scheduler.Collect.{CollectsAll}
use bonk.Scheduler.Invariant.{Inv}
use bonk.Scheduler.Complete.{Step-Goes, Steps-Inv, plus, execute_many-Inv}

module _ {W : Type 0} (exec : Executor W) (session : Session) (Safe : W → Type 0)
    (room : Room) where
  abbrev pub Returns : State W → Type 0
  Returns s₀ =
      (k : ℕ) × (s' : State W) × (x : Option Error) × Steps exec session room s₀ k s'
      × (s'.caller ≡ returned x)

  module _ (unlimited : (n : ℕ) → room n ≡ true) where
    abbrev Moves : State W → Type 0
    Moves s = (s' : State W) × Step exec session room s s'

    routine-Moves : (g : Routine) (gs : List Routine) (s : State W) → s.group ≡ g ∷ gs → Moves s
    routine-Moves (begun tsk) gs s h =
        elim (Option-cases (child_call exec session tsk s.world).err) [
          | inl ok ↦ (_, run tsk [] gs h ok refl)
          | inr (e, bad) ↦ (_, fail tsk e [] gs h bad refl)
        ]
    routine-Moves (handing_over [] os) gs s h = (_, finish os [] gs h refl)
    routine-Moves (handing_over (f ∷ fs) os) gs s h = (_, go f fs os [] gs h (unlimited _) refl)

    caller-Moves :
        (c : Caller) (group : List Routine) (s : State W)
        → s.caller ≡ c
        → s.group ≡ group
        → ((x : Option Error) × (c ≡ returned x)) ⊎ Moves s
    caller-Moves (calling (begun tsk)) group s h g =
        elim (Option-cases (child_call exec session tsk s.world).err) [
          | inl ok ↦ inr (_, caller_run tsk h ok refl)
          | inr (e, bad) ↦ inr (_, caller_fail tsk e h bad refl)
        ]
    caller-Moves (calling (handing_over [] os)) group s h g = inr (_, caller_finish os h refl)
    caller-Moves (calling (handing_over (f ∷ fs) os)) group s h g =
        inr (_, caller_go f fs os h (unlimited _) refl)
    caller-Moves waiting [] s h g = inr (_, wait h g refl)
    caller-Moves waiting (x ∷ xs) s h g = inr (routine-Moves x xs s g)
    caller-Moves (returned x) group s h g = inl (x, refl)

    -- Without a limit the scheduler is never stuck: it has returned, or some goroutine can step.
    never_stuck :
        (s : State W)
        → ((x : Option Error) × (s.caller ≡ returned x))
          ⊎ ((s' : State W) × Step exec session room s s')
    never_stuck s = caller-Moves s.caller s.group s refl refl

    -- A state with so many steps to go leads to the caller's return.
    Returns-from :
        (total : String → ℕ) (n k : ℕ) (s₀ s : State W)
        → Inv exec session Safe total n s
        → Steps exec session room s₀ k s
        → Returns s₀
    Returns-from total zero k s₀ s i before = elim (never_stuck s) [
      | inl (x, h) ↦ (k, s, x, before, h)
      | inr (s', step) ↦
          let (n', e, j) = Step-Goes exec session Safe room total i step in
          absurd (omega (arith, e))
    ]
    Returns-from total (suc n) k s₀ s i before = elim (never_stuck s) [
      | inl (x, h) ↦ (k, s, x, before, h)
      | inr (s', step) ↦
          let (n', e, j) = Step-Goes exec session Safe room total i step in
          let same : n' ≡ n = omega (arith, e) in
          Returns-from total n (suc k) s₀ s' (rw same at j) (next before step refl)
    ]

    -- Where all tasks and their followups succeed in safe worlds and there is no limit, some run of
    -- ExecuteMany comes to its return.
    pub execute_many-Returns :
        (tsks : List Task) (os : List String) (n : ℕ) (r : Result) (w : W)
        → Safe w
        → CollectsAll exec session Safe tsks os n
        → Returns (execute_many exec session tsks (some r) w)
    execute_many-Returns tsks os n r w safe c =
        Returns-from (plus exec session Safe room r os) (n + 2) 0 _ _
          (execute_many-Inv exec session Safe room tsks os n r w safe c) here

  -- Let there be safe worlds, the first one among them, in which each task and each followup is
  -- executed without an error and into a safe world, with the same followups and outputs in all of
  -- them. Then no run of ExecuteMany is longer than the tasks need, whatever the limit; and without
  -- a limit each run, however far it has come, can be carried on to the return of the caller.
  pub execute_many-bounded :
      (tsks : List Task) (os : List String) (n k : ℕ) (r : Result) (w : W) (s' : State W)
      → Safe w
      → CollectsAll exec session Safe tsks os n
      → Steps exec session room (execute_many exec session tsks (some r) w) k s'
      → (k ≤ n + 2) × (((m : ℕ) → room m ≡ true) → Returns s')
  execute_many-bounded tsks os n k r w s' safe c steps =
      let i = execute_many-Inv exec session Safe room tsks os n r w safe c in
      let (n', e, j) =
        Steps-Inv exec session Safe room (plus exec session Safe room r os) i steps in
      (
        omega (arith, e),
        λ unlimited. Returns-from unlimited (plus exec session Safe room r os) n' 0 s' s' j here,
      )
