-- ===== src/Scheduler/Blocked.antt =====
-- pkg/executor/scheduler/scheduler.go: runs with room for one goroutine.
use bonk.Base.{
  suc, false, ℕ, String, true, List, [], ◌∷◌, ◌++◌, Option, none, ◌≡◌, ◌≢◌, refl, sym, ◌∙◌, length,
  subst,
}
use mathlib.Core.List.{head-eq_of_cons-eq, tail-eq_of_cons-eq}
use bonk.Errors.{Error}
use bonk.Task.Value.{Task, Session}
use bonk.Task.Result.{Result}
use bonk.Executor.{Executor}
use bonk.Scheduler.{
  Routine, begun, handing_over, Caller, calling, waiting, returned, Room, State, child_call,
  after_call, Step, run, fail, go, finish, caller_run, caller_fail, caller_go, caller_finish, wait,
  Steps, here, next, execute_many,
}
use bonk.Scheduler.Invariant.{append-ne-nil}

single :
    (xs ys : List Routine) (g h : Routine) → g ∷ [] ≡ xs ++ (h ∷ ys) → (g ≡ h) × (xs ++ ys ≡ [])
single [] ys g h e = (head-eq_of_cons-eq e, sym (tail-eq_of_cons-eq e))
single (x ∷ xs) ys g h e = absurd (append-ne-nil xs h ys (sym (tail-eq_of_cons-eq e)))

module _ {W : Type 0} (exec : Executor W) (session : Session) (room : Room)
    (one : (n : ℕ) → room (suc n) ≡ false) (tsk f : Task) (fs : List Task) (own : List String)
    (w : W) (succeeds : (child_call exec session tsk w).err ≡ none)
    (leaves : after_call exec session (child_call exec session tsk w)
      ≡ handing_over (f ∷ fs) own) where
  abbrev Hands : Caller → Type 0
  Hands (calling (begun t)) = ⊥
  Hands (calling (handing_over ts os)) = Unit
  Hands waiting = Unit
  Hands (returned x) = ⊥

  -- The three phases of such a run; the last one is never left.
  data Phase (s : State W) : Type 0 where
    starting :
        (tsks : List Task)
        → s.caller ≡ calling (handing_over (tsk ∷ tsks) [])
        → s.group ≡ []
        → s.world ≡ w
        → Phase s
    alone : Hands s.caller → s.group ≡ begun tsk ∷ [] → s.world ≡ w → Phase s
    blocked : Hands s.caller → s.group ≡ handing_over (f ∷ fs) own ∷ [] → Phase s

  -- One routine takes all the room.
  full : {group : List Routine} {g : Routine} → group ≡ g ∷ [] → room (length group) ≡ true → ⊥
  full e free = let taken = rw e at free in let none_left = one 0 in cc

  from_starting :
      {s s' : State W} (tsks : List Task)
      → s.caller ≡ calling (handing_over (tsk ∷ tsks) [])
      → s.group ≡ []
      → s.world ≡ w
      → Step exec session room s s'
      → Phase s'
  from_starting tsks c g at_w (run t xs ys h ok e) = absurd (append-ne-nil xs _ ys (sym h ∙ g))
  from_starting tsks c g at_w (fail t x xs ys h bad e) = absurd (append-ne-nil xs _ ys (sym h ∙ g))
  from_starting tsks c g at_w (go f' fs' os xs ys h free e) =
      absurd (append-ne-nil xs _ ys (sym h ∙ g))
  from_starting tsks c g at_w (finish os xs ys h e) = absurd (append-ne-nil xs _ ys (sym h ∙ g))
  from_starting tsks c g at_w (caller_run t h ok e) = cc
  from_starting tsks c g at_w (caller_fail t x h bad e) = cc
  from_starting tsks c g at_w (caller_go f' fs' os h free e) =
      let same : f' ≡ tsk = cc in alone (rw e tt) (rw (e, same, g)) (rw e at_w)
  from_starting tsks c g at_w (caller_finish os h e) = cc
  from_starting tsks c g at_w (wait h h' e) = cc

  -- A step of the caller leaves the group alone while there is no room.
  from_alone :
      {s s' : State W}
      → Hands s.caller
      → s.group ≡ begun tsk ∷ []
      → s.world ≡ w
      → Step exec session room s s'
      → Phase s'
  from_alone {s} {s'} c g at_w (run t xs ys h ok e) =
      let (same, empty) = single xs ys _ _ (sym g ∙ h) in
      let t_is : t ≡ tsk = cc in
      let left : after_call exec session (child_call exec session t s.world)
          ≡ handing_over (f ∷ fs) own =
        rw (t_is, at_w) leaves in
      blocked (rw e c) (rw (e, left, empty))
  from_alone {s} c g at_w (fail t x xs ys h bad e) =
      let (same, empty) = single xs ys _ _ (sym g ∙ h) in
      let t_is : t ≡ tsk = cc in
      let wrong = rw t_is at bad in
      let right : (child_call exec session t s.world).err ≡ none = rw (t_is, at_w) succeeds in cc
  from_alone c g at_w (go f' fs' os xs ys h free e) =
      let (same, empty) = single xs ys _ _ (sym g ∙ h) in cc
  from_alone c g at_w (finish os xs ys h e) = let (same, empty) = single xs ys _ _ (sym g ∙ h) in cc
  from_alone c g at_w (caller_run t h ok e) = absurd (subst Hands h c)
  from_alone c g at_w (caller_fail t x h bad e) = absurd (subst Hands h c)
  from_alone c g at_w (caller_go f' fs' os h free e) = absurd (full g free)
  from_alone c g at_w (caller_finish os h e) = alone (rw e tt) (rw e g) (rw e at_w)
  from_alone c g at_w (wait h h' e) = cc

  from_blocked :
      {s s' : State W}
      → Hands s.caller
      → s.group ≡ handing_over (f ∷ fs) own ∷ []
      → Step exec session room s s'
      → Phase s'
  from_blocked c g (run t xs ys h ok e) = let (same, empty) = single xs ys _ _ (sym g ∙ h) in cc
  from_blocked c g (fail t x xs ys h bad e) = let (same, empty) = single xs ys _ _ (sym g ∙ h) in cc
  from_blocked c g (go f' fs' os xs ys h free e) = absurd (full g free)
  from_blocked c g (finish os xs ys h e) = let (same, empty) = single xs ys _ _ (sym g ∙ h) in cc
  from_blocked c g (caller_run t h ok e) = absurd (subst Hands h c)
  from_blocked c g (caller_fail t x h bad e) = absurd (subst Hands h c)
  from_blocked c g (caller_go f' fs' os h free e) = absurd (full g free)
  from_blocked c g (caller_finish os h e) = blocked (rw e tt) (rw e g)
  from_blocked c g (wait h h' e) = cc

  Step-Phase : {s s' : State W} → Phase s → Step exec session room s s' → Phase s'
  Step-Phase (starting tsks c g at_w) step = from_starting tsks c g at_w step
  Step-Phase (alone c g at_w) step = from_alone c g at_w step
  Step-Phase (blocked c g) step = from_blocked c g step

  Steps-Phase :
      {s : State W} {n : ℕ} {s' : State W} → Phase s → Steps exec session room s n s' → Phase s'
  Steps-Phase p here = p
  Steps-Phase p (next before step e) = Step-Phase (Steps-Phase p before) step

  Phase-not_returned : {s : State W} (x : Option Error) → Phase s → s.caller ≢ returned x
  Phase-not_returned x (starting tsks c g at_w) h = cc
  Phase-not_returned x (alone c g at_w) h = subst Hands h c
  Phase-not_returned x (blocked c g) h = subst Hands h c

  -- With a limit of one goroutine ExecuteMany does not return in any run if its first task, called
  -- in the world of the beginning, succeeds and gives a followup.
  pub execute_many-limit_one :
      (tsks : List Task) (r : Option Result) (n : ℕ) (s' : State W) (x : Option Error)
      → Steps exec session room (execute_many exec session (tsk ∷ tsks) r w) n s'
      → s'.caller ≢ returned x
  unfolding execute_many
  execute_many-limit_one tsks r n s' x steps =
      Phase-not_returned x (Steps-Phase (starting tsks refl refl refl) steps)
