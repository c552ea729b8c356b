-- ===== src/Driver/Observed.antt =====
-- pkg/driver/driver.go with pkg/executor/observable/observer.go: an executor whose sessions open and
-- whose tasks succeed in safe worlds does so behind the observable executor, too, while the sessions
-- are open there.
use bonk.Base.{
  ℕ, String, List, [], ◌∷◌, ◌++◌, map, none, some, SameTexts, nat_eq, ◌≡◌, refl, sym, ◌∙◌, ap,
  subst, arith, Bool-cases, inl, inr,
}
use bonk.Task.Value.{Task, Session}
use bonk.Task.Result.{Result, empty_result, get_outputs, get_followup_tasks}
use bonk.Executor.{Executor}
use bonk.Scheduler.{Room, handing_over, as_child}
use bonk.Scheduler.Collect.{Answers, Collects, node, CollectsAll, none_left, one_more}
use bonk.Observable.{
  Observ, Observed, deliver, Deliveries, here, next, find_session, delete_session, execute,
  open_session,
}
use bonk.Observable.Delivery.{Deliveries-sessions}
use bonk.Observable.Owned.{find-delete_ne}
use bonk.Observable.Messages.{described, opened-described}
use bonk.Observable.Scheduled.{Schedule, observed}
use bonk.Driver.{Progress, Run}
use bonk.Driver.Outputs.{OpensAll, PutsOut, Run-outputs}

Deliveries-world : {W : Type 0} {o o' : Observ W} → Deliveries o o' → o'.world ≡ o.world
Deliveries-world here = refl
Deliveries-world (next ds (deliver xs ys p e is)) = ap (λ o. o.world) is ∙ Deliveries-world ds

-- Every one of these sessions is found.
abbrev pub AllFound : List Session → List (ℕ × ℕ) → Type 0
AllFound [] sessions = Unit
AllFound (session ∷ opened) sessions =
    ((ref : ℕ) × (find_session session.id sessions ≡ some ref)) × AllFound opened sessions

module _ {W : Type 0} (exec : Executor W) (sched : Schedule W)
    (Safe : List Session → W → Type 0) where
  abbrev pub IsSafe : List Session → Observ W → Type 0
  IsSafe opened o = Safe opened o.world × AllFound opened o.sessions

  abbrev root : Executor (Observ W)
  root = observed exec sched

  called :
      (session : Session) (tsk : Task) (o : Observ W) (ref : ℕ)
      → find_session session.id o.sessions ≡ some ref
      → execute exec session tsk (some empty_result) o
        ≡ described exec (some ref) session tsk (some empty_result) o
  called session tsk o ref found = opened-described exec session tsk (some empty_result) o ref found

  observed-Answers :
      (session : Session) (opened : List Session) (tsk : Task) (fs : List Task) (os : List String)
      → Answers exec session (Safe (session ∷ opened)) tsk fs os
      → Answers root session (IsSafe (session ∷ opened)) tsk fs os
  unfolding observed
  observed-Answers session opened tsk fs os answers = record {
    succeeds = λ o h.
        let (safe, ((ref, found), _)) = h in
        ap (λ (x : Observed exec). x.err) (called session tsk o ref found)
        ∙ answers.succeeds o.world safe;
    stays = λ o h.
        let (safe, ((ref, found), more)) = h in
        let is = called session tsk o ref found in
        let turned = sched.turn_delivers (execute exec session tsk (some empty_result) o).obs in
        let world = Deliveries-world turned ∙ ap (λ (x : Observed exec). x.obs.world) is in
        let sessions = Deliveries-sessions turned ∙ ap (λ (x : Observed exec). x.obs.sessions) is in
        (
          subst (Safe (session ∷ opened)) (sym world) (answers.stays o.world safe),
          subst (AllFound (session ∷ opened)) (sym sessions) ((ref, found), more),
        );
    leaves = λ o h.
        let (safe, ((ref, found), _)) = h in
        ap
          (λ (x : Observed exec).
            handing_over (map (as_child x.tsk.id) (get_followup_tasks x.result))
              (get_outputs x.result))
          (called session tsk o ref found)
        ∙ answers.leaves o.world safe;
  }

  module _ (session : Session) (opened : List Session) where
    abbrev Before : W → Type 0
    Before = Safe (session ∷ opened)

    abbrev After : Observ W → Type 0
    After = IsSafe (session ∷ opened)

    mutual
      observed-Collects :
          (tsk : Task) (os : List String) (n : ℕ)
          → Collects exec session Before tsk os n
          → Collects root session After tsk os n
      observed-Collects tsk os n (node fs own rest m answers below e f) =
          node fs own rest m (observed-Answers session opened tsk fs own answers)
            (observed-CollectsAll fs rest m below) e f

      observed-CollectsAll :
          (tsks : List Task) (os : List String) (n : ℕ)
          → CollectsAll exec session Before tsks os n
          → CollectsAll root session After tsks os n
      observed-CollectsAll tsks os n none_left = none_left
      observed-CollectsAll tsks os n (one_more own more k m c rest e f) =
          one_more own more k m (observed-Collects _ own k c) (observed-CollectsAll _ more m rest) e
            f

  -- A session that is opened is found, and so are those that were found before.
  found_after :
      (id ref : ℕ) (j : ℕ) (sessions : List (ℕ × ℕ))
      → ((r : ℕ) × (find_session j sessions ≡ some r))
      → (r : ℕ) × (find_session j ((id, ref) ∷ delete_session id sessions) ≡ some r)
  unfolding find_session
  found_after id ref j sessions (r, found) = elim (Bool-cases (nat_eq id j)) [
    | inl e ↦ (ref, rw e refl)
    | inr e ↦ (
      r,
      rw e (
          find-delete_ne id j sessions (λ same. let h = rw same at e in ground (arith, h)) ∙ found),
    )
  ]

  AllFound-after :
      (id ref : ℕ) (opened : List Session) (sessions : List (ℕ × ℕ))
      → AllFound opened sessions
      → AllFound opened ((id, ref) ∷ delete_session id sessions)
  AllFound-after id ref [] sessions h = tt
  AllFound-after id ref (session ∷ opened) sessions (h, hs) =
      (found_after id ref session.id sessions h, AllFound-after id ref opened sessions hs)

  new_found :
      (id ref : ℕ) (sessions : List (ℕ × ℕ)) → find_session id ((id, ref) ∷ sessions) ≡ some ref
  unfolding find_session
  new_found id ref sessions = ground arith

  opens_one :
      (session : Session) (opened : List Session)
      → ((w : W)
          → Safe opened w
          → ((exec.open_session session w).0 ≡ none)
            × Safe (session ∷ opened) (exec.open_session session w).1)
      → (o : Observ W) → IsSafe opened o
      → ((root.open_session session o).0 ≡ none)
        × IsSafe (session ∷ opened) (root.open_session session o).1
  unfolding observed open_session
  opens_one session opened opens o (safe, found) =
      let (fine, after) = opens o.world safe in
      let turned = sched.turn_delivers (open_session exec session o).1 in
      (
        fine,
        (
          subst (Safe (session ∷ opened)) (sym (Deliveries-world turned)) after,
          subst (AllFound (session ∷ opened)) (sym (Deliveries-sessions turned)) (
            (o.next_ref, new_found session.id o.next_ref (delete_session session.id o.sessions)),
            AllFound-after session.id o.next_ref opened o.sessions found,
          ),
        ),
      )

  pub observed-OpensAll :
      (room : Room) (opened : List Session) (sessions : List (Session × List Task))
      → OpensAll exec room Safe opened sessions
      → OpensAll root room IsSafe opened sessions
  observed-OpensAll room opened [] h = tt
  observed-OpensAll room opened ((session, tasks) ∷ rest) (opens, h) =
      (opens_one session opened opens, observed-OpensAll room (session ∷ opened) rest h)

  pub observed-PutsOut :
      (room : Room) (opened : List Session) (sessions : List (Session × List Task))
      (os : List String)
      → PutsOut exec room Safe opened sessions os
      → PutsOut root room IsSafe opened sessions os
  observed-PutsOut room opened [] os h = h
  observed-PutsOut room opened ((session, tasks) ∷ rest) os (own, n, more, c, h, split) = (
    own,
    n,
    more,
    observed-CollectsAll session opened tasks own n c,
    observed-PutsOut room (session ∷ opened) rest more h,
    split,
  )

  -- The outputs of a run with listeners, by what the executor under the observable one does.
  pub observed-Run-outputs :
      (room : Room) (sessions : List (Session × List Task)) (os : List String) (r : Result)
      (o : Observ W) (p : Progress (Observ W))
      → Safe [] o.world
      → OpensAll exec room Safe [] sessions
      → PutsOut exec room Safe [] sessions os
      → Run root room sessions (some r) o p
      → (p.err ≡ none) × SameTexts (get_outputs p.result) (r.outputs ++ os)
  observed-Run-outputs room sessions os r o p safe opens puts run =
      Run-outputs root room IsSafe sessions os r o p (safe, tt)
        (observed-OpensAll room [] sessions opens) (observed-PutsOut room [] sessions os puts) run
