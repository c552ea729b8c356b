-- ===== src/Driver/Tracked.antt =====
-- pkg/driver/driver.go with pkg/executor/observable/observer.go: the observable executor follows which
-- sessions are open.
use bonk.Base.{
  ℕ, Bool, true, false, List, ◌∷◌, Option, none, some, ◌≡◌, ◌≢◌, refl, sym, ◌∙◌, ap, arith,
  Option-cases, inl, inr,
}
use bonk.Task.Value.{Task, Session}
use bonk.Task.Result.{Result}
use bonk.Executor.{Executor}
use bonk.Observable.{Observ, Observed, find_session, delete_session, execute, open_session}
use bonk.Observable.Delivery.{Deliveries-sessions, close_session-closed}
use bonk.Observable.Owned.{find-delete_self, find-delete_ne}
use bonk.Observable.Messages.{described, execute-messages}
use bonk.Observable.Scheduled.{Schedule, observed, closing, opened-other}
use bonk.Driver.Sessions.{Tracks}

abbrev has_ref : Option ℕ → Bool
has_ref none = false
has_ref (some ref) = true

module _ {W : Type 0} (exec : Executor W) (sched : Schedule W) where
  abbrev pub is_open : ℕ → Observ W → Bool
  is_open id o = has_ref (find_session id o.sessions)

  new_found :
      (id ref : ℕ) (sessions : List (ℕ × ℕ))
      → has_ref (find_session id ((id, ref) ∷ sessions)) ≡ true
  unfolding find_session
  new_found id ref sessions = ground arith

  opened :
      (session : Session) (o : Observ W)
      → is_open session.id ((observed exec sched).open_session session o).1 ≡ true
  unfolding observed open_session
  opened session o =
      ap (λ l. has_ref (find_session session.id l))
        (Deliveries-sessions (sched.turn_delivers (open_session exec session o).1))
      ∙ new_found session.id o.next_ref (delete_session session.id o.sessions)

  described-sessions :
      (found : Option ℕ) (session : Session) (tsk : Task) (result : Option Result) (o : Observ W)
      → (described exec found session tsk result o).obs.sessions ≡ o.sessions
  described-sessions none session tsk result o = refl
  described-sessions (some ref) session tsk result o = refl

  kept :
      (session : Session) (tsk : Task) (result : Option Result) (o : Observ W) (id : ℕ)
      → is_open id ((observed exec sched).execute session tsk result o).world ≡ is_open id o
  unfolding observed
  kept session tsk result o id =
      ap (λ l. has_ref (find_session id l))
        (Deliveries-sessions (sched.turn_delivers (execute exec session tsk result o).obs)
          ∙ ap (λ (x : Observed exec). x.obs.sessions) (execute-messages exec session tsk result o)
          ∙ described-sessions _ session tsk result o)

  -- What a close of an open session leaves of the sessions.
  closing-sessions :
      (id ref : ℕ) (o : Observ W)
      → find_session id o.sessions ≡ some ref
      → (closing exec sched id o (some ref)).sessions ≡ delete_session id o.sessions
  closing-sessions id ref o found =
      let b = sched.drain ref o in
      let same = Deliveries-sessions (sched.drain_delivers ref o) in
      let ends =
        close_session-closed exec id ref b (ap (find_session id) same ∙ found)
          (sched.drained ref o) in
      rw ends (ap (delete_session id) same)

  closed : (id : ℕ) (o : Observ W) → is_open id ((observed exec sched).close_session id o) ≡ false
  unfolding observed
  closed id o = elim (Option-cases (find_session id o.sessions)) [
    | inl e ↦ rw e (ap has_ref e)
    | inr (ref, e) ↦ rw e (
        ap (λ l. has_ref (find_session id l)) (closing-sessions id ref o e)
        ∙ ap has_ref (find-delete_self id o.sessions))
  ]

  closed_other :
      (id : ℕ) (o : Observ W) (j : ℕ)
      → id ≢ j
      → is_open j ((observed exec sched).close_session id o) ≡ is_open j o
  unfolding observed
  closed_other id o j ne = elim (Option-cases (find_session id o.sessions)) [
    | inl e ↦ rw e refl
    | inr (ref, e) ↦ rw e (
        ap (λ l. has_ref (find_session j l)) (closing-sessions id ref o e)
        ∙ ap has_ref (find-delete_ne id j o.sessions (λ h. ne (sym h))))
  ]

  -- The observable executor follows which sessions are open, whatever the one under it does.
  pub observed-Tracks : Tracks (observed exec sched) is_open
  observed-Tracks = record {
    opened = λ session o fine. opened session o;
    opened_other =
        λ session o j ne. ap has_ref (opened-other exec sched session o j (λ h. ne (sym h)));
    refused = λ session o e bad was. opened session o;
    kept = kept;
    closed = closed;
    closed_other = closed_other;
  }
