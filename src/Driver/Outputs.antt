-- ===== src/Driver/Outputs.antt =====
-- pkg/driver/driver.go with pkg/executor/scheduler/scheduler.go: the outputs of a whole run.
use bonk.Base.{
  ℕ, String, List, [], ◌∷◌, ◌++◌, Option, none, some, count, count-append, SameTexts, ◌≡◌, refl,
  ◌∙◌, ap, arith,
}
use bonk.Errors.{Error, append_error}
use bonk.Task.Value.{Task, Session}
use bonk.Task.Result.{Result, get_outputs, add_outputs}
use bonk.Executor.{Executor}
use bonk.Scheduler.{
  Room, Step, run, fail, go, finish, caller_run, caller_fail, caller_go, caller_finish, wait, Steps,
  here, next, State, execute_many,
}
use bonk.Scheduler.Collect.{CollectsAll}
use bonk.Scheduler.Complete.{execute_many_complete, execute_many-Safe}
use bonk.Driver.{
  Progress, Round, not_opened, executed, Rounds, finished, round, Run, fails, completes,
}

abbrev HasResult : {W : Type 0} → State W → Type 0
HasResult s = (r : Result) × (s.result ≡ some r)

-- `Safe` is the worlds in which calls may be made while these sessions are open, the last one first.
module _ {W : Type 0} (exec : Executor W) (room : Room) (Safe : List Session → W → Type 0) where
  -- In safe worlds every session is opened without an error and into a safe world.
  abbrev pub OpensAll : List Session → List (Session × List Task) → Type 0
  OpensAll opened [] = Unit
  OpensAll opened ((session, tasks) ∷ rest) =
      ((w : W)
        → Safe opened w
        → ((exec.open_session session w).0 ≡ none)
          × Safe (session ∷ opened) (exec.open_session session w).1)
      × OpensAll (session ∷ opened) rest

  -- All tasks of all sessions, and the tasks that follow from them, succeed in the safe worlds of
  -- their session and put this out.
  abbrev pub PutsOut : List Session → List (Session × List Task) → List String → Type 0
  PutsOut opened [] os = os ≡ []
  PutsOut opened ((session, tasks) ∷ rest) os =
      (own : List String) × (n : ℕ) × (more : List String) × CollectsAll exec session
        (Safe (session ∷ opened)) tasks own n
      × PutsOut (session ∷ opened) rest more
      × (os ≡ own ++ more)

  added :
      (os : List String) (result : Option Result)
      → ((r : Result) × (result ≡ some r))
      → (r : Result) × (add_outputs os result ≡ some r)
  unfolding add_outputs
  added os result (r, e) = rw e (record r { outputs = r.outputs ++ os }, refl)

  Step-HasResult :
      (session : Session) (s s' : State W)
      → HasResult s
      → Step exec session room s s'
      → HasResult s'
  Step-HasResult session s s' h (run tsk xs ys g ok e) = rw e h
  Step-HasResult session s s' h (fail tsk x xs ys g bad e) = rw e h
  Step-HasResult session s s' h (go f fs os xs ys g free e) = rw e h
  Step-HasResult session s s' h (finish os xs ys g e) = rw e (added os s.result h)
  Step-HasResult session s s' h (caller_run tsk c ok e) = rw e h
  Step-HasResult session s s' h (caller_fail tsk x c bad e) = rw e h
  Step-HasResult session s s' h (caller_go f fs os c free e) = rw e h
  Step-HasResult session s s' h (caller_finish os c e) = rw e (added os s.result h)
  Step-HasResult session s s' h (wait c g e) = rw e h

  Steps-HasResult :
      (session : Session) (s : State W) {n : ℕ} (s' : State W)
      → HasResult s
      → Steps exec session room s n s'
      → HasResult s'
  Steps-HasResult session s s' h here = h
  Steps-HasResult session s s' h (next {t} before step e) =
      Step-HasResult session t s' (Steps-HasResult session s t h before) step

  -- A run, or a part of it, has succeeded with these outputs beside those of `r`.
  abbrev pub Good : List Session → Progress W → Result → List String → Type 0
  Good opened q r os =
      (q.err ≡ none)
      × Safe opened q.world
      × (r' : Result) × (q.result ≡ some r')
      × SameTexts r'.outputs (r.outputs ++ os)

  starts :
      (session : Session) (tasks : List Task) (r : Result) (w : W)
      → HasResult (execute_many exec session tasks (some r) w)
  unfolding execute_many
  starts session tasks r w = (r, refl)

  outputs_of :
      (result : Option Result) (r : Result) → result ≡ some r → get_outputs result ≡ r.outputs
  unfolding get_outputs
  outputs_of result r e = rw e refl

  executed-Good :
      (opened : List Session) (session : Session) (tasks : List Task) (os : List String) (m n : ℕ)
      (r : Result) (p q : Progress W) (w : W) (s : State W) (err : Option Error)
      → p.err ≡ none
      → Safe opened w
      → CollectsAll exec session (Safe opened) tasks os m
      → Steps exec session room (execute_many exec session tasks (some r) w) n s
      → s.caller ≡ bonk.Scheduler.returned err
      → q ≡ record { err = append_error p.err err; result = s.result; world = s.world }
      → Good opened q r os
  executed-Good opened session tasks os m n r p q w s err fine safe c steps back q_is =
      let (no_err, same, _) =
        execute_many_complete exec session (Safe opened) room tasks os m n r w s err safe c steps
          back in
      let (r', has) = Steps-HasResult session _ s (starts session tasks r w) steps in
      let ended : q.err ≡ append_error p.err err = ap (λ (t : Progress W). t.err) q_is in
      (
        ended ∙ rw (fine, no_err) refl,
        rw q_is (execute_many-Safe exec session (Safe opened) room tasks os m n r w s safe c steps),
        r',
        ap (λ (t : Progress W). t.result) q_is ∙ has,
        rw (outputs_of s.result r' has) at same,
      )

  pub Round-Good :
      (opened : List Session) (session : Session) (tasks : List Task) (os : List String) (n : ℕ)
      (r : Result) (p q : Progress W)
      → Round exec room session tasks p q
      → ((exec.open_session session p.world).0 ≡ none)
        × Safe (session ∷ opened) (exec.open_session session p.world).1
      → CollectsAll exec session (Safe (session ∷ opened)) tasks os n
      → p.err ≡ none
      → p.result ≡ some r
      → Good (session ∷ opened) q r os
  Round-Good opened session tasks os n r p q (not_opened e bad q_is) (opens, _) c fine has =
      absurd cc
  Round-Good opened session tasks os n r p q (executed k s err o steps back q_is) (opens, safe) c
        fine has =
      executed-Good (session ∷ opened) session tasks os n k r p q _ s err fine safe c
        (rw has at steps) back q_is

  -- The sessions that are open after these, too.
  abbrev pub all_opened : List Session → List (Session × List Task) → List Session
  all_opened opened [] = opened
  all_opened opened ((session, tasks) ∷ rest) = all_opened (session ∷ opened) rest

  Rounds-Good :
      (opened : List Session) (sessions : List (Session × List Task)) (os : List String)
      (r : Result) (p q : Progress W)
      → Rounds exec room sessions p q
      → OpensAll opened sessions
      → PutsOut opened sessions os
      → p.err ≡ none
      → Safe opened p.world
      → p.result ≡ some r
      → Good (all_opened opened sessions) q r os
  Rounds-Good opened [] os r p q (finished same) opens puts fine safe has =
      let same_result = ap (λ (t : Progress W). t.result) same in
      (
        ap (λ (t : Progress W). t.err) same ∙ fine,
        rw same safe,
        r,
        same_result ∙ has,
        λ a. rw puts (omega (arith, count-append a r.outputs [])),
      )
  Rounds-Good opened ((session, tasks) ∷ rest) os r p q (round {q = mid} first others)
        (opens, opens_rest) (own, n, more, c, puts, split) fine safe has =
      let (mid_fine, mid_safe, r', mid_has, same) =
        Round-Good opened session tasks own n r p mid first (opens p.world safe) c fine has in
      let (end_fine, end_safe, r'', end_has, same') =
        Rounds-Good (session ∷ opened) rest more r' mid q others opens_rest puts mid_fine mid_safe
          mid_has in
      (
        end_fine,
        end_safe,
        r'',
        end_has,
        λ a. rw split (
            omega (
              arith,
              same a,
              same' a,
              count-append a r.outputs own,
              count-append a r'.outputs more,
              count-append a own more,
              count-append a r.outputs (own ++ more),
            )),
      )

  -- Let there be safe worlds, the first one among them. In these let every session be opened without
  -- an error and into a safe world, and let all tasks of the session and the tasks that follow from
  -- them succeed, into safe worlds and with the same followups and outputs in all of them. Then
  -- every run that returns ends without an error, whatever the order of the scheduler's steps and of
  -- the sessions' closing, and its result has the outputs that it had and those of all tasks of all
  -- sessions, in some order.
  pub Run-outputs :
      (sessions : List (Session × List Task)) (os : List String) (r : Result) (w : W)
      (p : Progress W)
      → Safe [] w
      → OpensAll [] sessions
      → PutsOut [] sessions os
      → Run exec room sessions (some r) w p
      → (p.err ≡ none) × SameTexts (get_outputs p.result) (r.outputs ++ os)
  Run-outputs sessions os r w p safe opens puts (fails e q rounds bad p_is) =
      let wrong = (Rounds-Good [] sessions os r _ q rounds opens puts refl safe refl).0 in absurd cc
  Run-outputs sessions os r w p safe opens puts (completes q order rounds good perm p_is) =
      let (fine, _, r', has, same) =
        Rounds-Good [] sessions os r _ q rounds opens puts refl safe refl in
      let result : p.result ≡ some r' = ap (λ (t : Progress W). t.result) p_is ∙ has in
      (
        ap (λ (t : Progress W). t.err) p_is ∙ fine,
        λ a. ap (count a) (outputs_of p.result r' result) ∙ same a,
      )
