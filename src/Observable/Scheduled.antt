-- ===== src/Observable/Scheduled.antt =====
-- pkg/executor/observable/observer.go: the observable executor as an executor, with the goroutines of
-- its listeners run by any schedule.
use bonk.Base.{
  ℕ, List, false, Option, none, some, ◌≡◌, ◌∙◌, ap, arith, inl, inr, Option-cases, Bool-cases,
  nat_eq, ◌≢◌,
}
use bonk.Task.Value.{Task, Session}
use bonk.Task.Result.{Result}
use bonk.Executor.{Executor}
use bonk.Observable.{
  Observ, find_session, delete_session, has_pending, Closing, panicked, waits, closed, Deliveries,
  execute, open_session, close_session,
}
use bonk.Observable.Delivery.{Deliveries-sessions, close_session-closed}
use bonk.Observable.Owned.{
  AllOwned, Deliveries-AllOwned, execute-AllOwned, open_session-AllOwned, open_session-other,
  closed-AllOwned, find-delete_self, find-delete_ne,
}

-- Which goroutines run after a call, and which run while a call of `CloseSession` waits for those of
-- its session. The wait ends when none of these is left.
pub record Schedule (W : Type 0) : Type 0 where
  pub turn : Observ W → Observ W
  pub turn_delivers : (o : Observ W) → Deliveries o (turn o)
  pub drain : ℕ → Observ W → Observ W
  pub drain_delivers : (ref : ℕ) (o : Observ W) → Deliveries o (drain ref o)
  pub drained : (ref : ℕ) (o : Observ W) → has_pending ref (drain ref o).pending ≡ false

module _ {W : Type 0} (exec : Executor W) (sched : Schedule W) where
  abbrev pub after_close : Observ W → Closing W → Observ W
  after_close o (closed o') = o'
  after_close o panicked = o
  after_close o waits = o

  abbrev pub closing : ℕ → Observ W → Option ℕ → Observ W
  closing id o none = o
  closing id o (some ref) = after_close o (close_session exec id (sched.drain ref o))

  -- A close of a session that is not open panics; here it leaves all as it is.
  unfoldable pub observed : Executor (Observ W)
  unfolding execute open_session close_session find_session
  observed = record {
    execute = λ session tsk result o.
        let x = execute exec session tsk result o in
        record { err = x.err; tsk = x.tsk; result = x.result; world = sched.turn x.obs };
    open_session = λ session o. let (err, o') = open_session exec session o in (err, sched.turn o');
    close_session = λ id o. closing id o (find_session id o.sessions);
  }

  turn-AllOwned :
      (o : Observ W) → AllOwned o → ((sched.turn o).sessions ≡ o.sessions) × AllOwned (sched.turn o)
  turn-AllOwned o owned = (
    Deliveries-sessions (sched.turn_delivers o),
    Deliveries-AllOwned (sched.turn_delivers o) owned,
  )

  pub executed-AllOwned :
      (session : Session) (tsk : Task) (result : Option Result) (o : Observ W)
      → AllOwned o
      → ((observed.execute session tsk result o).world.sessions ≡ o.sessions)
        × AllOwned (observed.execute session tsk result o).world
  unfolding observed
  executed-AllOwned session tsk result o owned =
      let (same, own) = execute-AllOwned exec session tsk result o owned in
      let (same', own') = turn-AllOwned (execute exec session tsk result o).obs own in
      (same' ∙ same, own')

  pub opened-AllOwned :
      (session : Session) (o : Observ W)
      → find_session session.id o.sessions ≡ none
      → AllOwned o
      → AllOwned (observed.open_session session o).1
  unfolding observed
  opened-AllOwned session o new owned =
      (turn-AllOwned (open_session exec session o).1
        (open_session-AllOwned exec session o new owned)).1

  pub opened-other :
      (session : Session) (o : Observ W) (j : ℕ)
      → j ≢ session.id
      → find_session j (observed.open_session session o).1.sessions ≡ find_session j o.sessions
  unfolding observed
  opened-other session o j ne =
      ap (find_session j)
        (Deliveries-sessions (sched.turn_delivers (open_session exec session o).1))
      ∙ open_session-other exec session o j ne

  -- What a close leaves: the session is gone, and no other has come.
  abbrev pub Leaves : ℕ → Observ W → Observ W → Type 0
  Leaves id o o' =
      AllOwned o'
      × (find_session id o'.sessions ≡ none)
      × ((j : ℕ) → find_session j o.sessions ≡ none → find_session j o'.sessions ≡ none)

  deleted-none :
      (id j : ℕ) (sessions : List (ℕ × ℕ))
      → find_session j sessions ≡ none
      → find_session j (delete_session id sessions) ≡ none
  deleted-none id j sessions h = elim (Bool-cases (nat_eq j id)) [
    | inl e ↦ let same : j ≡ id = ground arith in rw same (find-delete_self id sessions)
    | inr e ↦ find-delete_ne id j sessions (ground arith) ∙ h
  ]

  closing-Leaves :
      (id ref : ℕ) (o : Observ W)
      → find_session id o.sessions ≡ some ref
      → AllOwned o
      → Leaves id o (closing id o (some ref))
  closing-Leaves id ref o found owned =
      let b = sched.drain ref o in
      let same = Deliveries-sessions (sched.drain_delivers ref o) in
      let found' = ap (find_session id) same ∙ found in
      let ends = close_session-closed exec id ref b found' (sched.drained ref o) in
      rw ends (
        closed-AllOwned exec id ref b found' (sched.drained ref o)
            (Deliveries-AllOwned (sched.drain_delivers ref o) owned),
        find-delete_self id b.sessions,
        λ j h. deleted-none id j b.sessions (ap (find_session j) same ∙ h),
      )

  pub closed-Leaves :
      (id : ℕ) (o : Observ W) → AllOwned o → Leaves id o (observed.close_session id o)
  unfolding observed
  closed-Leaves id o owned = elim (Option-cases (find_session id o.sessions)) [
    | inl e ↦ rw e (owned, e, λ j h. h)
    | inr (ref, e) ↦ rw e (closing-Leaves id ref o e owned)
  ]
