-- ===== src/Observable/Owned.antt =====
-- pkg/executor/observable/observer.go: the sessions that pending messages are of.
use bonk.Base.{
  ℕ, List, [], ◌∷◌, ◌++◌, true, false, Option, none, some, All, All-append, ◌≡◌, ◌≢◌, refl, sym,
  ◌∙◌, arith, inl, inr, Option-cases,
}
use bonk.Task.Value.{Task, Session}
use bonk.Task.Result.{Result}
use bonk.Executor.{Executor}
use bonk.Observable.{
  TaskStatusMsg, Pending, Observ, find_session, delete_session, messages, has_pending, trigger,
  Deliver, deliver, Deliveries, here, next, execute, open_session, task_running_msg,
  task_finished_msg,
}

pub find-delete_self :
    (id : ℕ) (sessions : List (ℕ × ℕ)) → find_session id (delete_session id sessions) ≡ none
unfolding find_session delete_session
find-delete_self id [] = refl
find-delete_self id ((i, ref) ∷ rest) = let ih = find-delete_self id rest in ground (arith, ih)

pub find-delete_ne :
    (id j : ℕ) (sessions : List (ℕ × ℕ))
    → j ≢ id
    → find_session j (delete_session id sessions) ≡ find_session j sessions
unfolding find_session delete_session
find-delete_ne id j [] ne = refl
find-delete_ne id j ((i, ref) ∷ rest) ne =
    let ih = find-delete_ne id j rest ne in ground (arith, ih)

-- Behind another entry.
find_behind :
    (i j ref : ℕ) (sessions : List (ℕ × ℕ))
    → j ≢ i
    → find_session j ((i, ref) ∷ delete_session i sessions)
      ≡ find_session j (delete_session i sessions)
unfolding find_session
find_behind i j ref sessions ne = ground arith

-- A new session leaves what was found.
find_kept :
    (i j ref r : ℕ) (sessions : List (ℕ × ℕ))
    → find_session i sessions ≡ none
    → find_session j sessions ≡ some r
    → find_session j ((i, ref) ∷ delete_session i sessions) ≡ some r
find_kept i j ref r sessions new found =
    let ne : j ≢ i = λ same. let new' = rw (sym same) at new in absurd cc in
    find_behind i j ref sessions ne ∙ find-delete_ne i j sessions ne ∙ found

-- The message is of a session that is registered.
abbrev pub IsOwned : List (ℕ × ℕ) → Pending → Type 0
IsOwned sessions p = (id : ℕ) × (find_session id sessions ≡ some p.session_ref)

abbrev pub AllOwned : {W : Type 0} → Observ W → Type 0
AllOwned o = All (IsOwned o.sessions) o.pending

messages-IsOwned :
    (id ref : ℕ) (sessions : List (ℕ × ℕ)) (msg : TaskStatusMsg) (ls : List ℕ)
    → find_session id sessions ≡ some ref
    → All (IsOwned sessions) (messages ref msg ls)
unfolding messages
messages-IsOwned id ref sessions msg [] found = tt
messages-IsOwned id ref sessions msg (l ∷ ls) found =
    ((id, found), messages-IsOwned id ref sessions msg ls found)

-- One member fewer.
All-without :
    (P : Pending → Type 0) (xs ys : List Pending) (p : Pending)
    → All P (xs ++ (p ∷ ys))
    → All P (xs ++ ys)
All-without P [] ys p (_, h) = h
All-without P (x ∷ xs) ys p (h, more) = (h, All-without P xs ys p more)

-- The messages stay owned if the owners' sessions stay.
AllOwned-kept :
    (old new : List (ℕ × ℕ)) (ps : List Pending)
    → ((p : Pending) (id : ℕ)
        → find_session id old ≡ some p.session_ref
        → has_pending p.session_ref ps ≡ true
        → find_session id new ≡ some p.session_ref)
    → All (IsOwned old) ps
    → All (IsOwned new) ps
unfolding has_pending
AllOwned-kept old new [] keeps h = tt
AllOwned-kept old new (p ∷ ps) keeps ((id, found), h) = (
  (id, keeps p id found (ground arith)),
  AllOwned-kept old new ps (λ q j f more. keeps q j f (ground (arith, more))) h,
)

module _ {W : Type 0} where
  trigger-AllOwned :
      (id ref : ℕ) (msg : TaskStatusMsg) (o : Observ W)
      → find_session id o.sessions ≡ some ref
      → AllOwned o
      → AllOwned (trigger ref msg o)
  unfolding trigger
  trigger-AllOwned id ref msg o found owned =
      All-append (IsOwned o.sessions) o.pending (messages ref msg o.listeners) owned
        (messages-IsOwned id ref o.sessions msg o.listeners found)

  Deliver-AllOwned : {a b : Observ W} → Deliver a b → AllOwned a → AllOwned b
  Deliver-AllOwned {a} (deliver xs ys p e e') owned =
      rw e' (All-without (IsOwned a.sessions) xs ys p (rw e at owned))

  pub Deliveries-AllOwned : {a b : Observ W} → Deliveries a b → AllOwned a → AllOwned b
  Deliveries-AllOwned here owned = owned
  Deliveries-AllOwned (next ds d) owned = Deliver-AllOwned d (Deliveries-AllOwned ds owned)

module _ {W : Type 0} (exec : Executor W) where
  other_ref :
      (id j ref r : ℕ) (o : Observ W)
      → j ≡ id
      → find_session id o.sessions ≡ some ref
      → has_pending ref o.pending ≡ false
      → find_session j o.sessions ≡ some r
      → has_pending r o.pending ≡ true
      → ⊥
  other_ref id j ref r o same found empty f more =
      let f' = rw same at f in let one : r ≡ ref = cc in let more' = rw one at more in cc

  -- A task leaves the sessions, and its messages are of its session.
  pub execute-AllOwned :
      (session : Session) (tsk : Task) (result : Option Result) (o : Observ W)
      → AllOwned o
      → ((execute exec session tsk result o).obs.sessions ≡ o.sessions)
        × AllOwned (execute exec session tsk result o).obs
  unfolding execute
  execute-AllOwned session tsk result o owned =
      elim (Option-cases (find_session session.id o.sessions)) [
        | inl e ↦ rw (e, execute) (refl, owned)
        | inr (ref, e) ↦
            let started = trigger ref (task_running_msg tsk.id) o in
            let r = exec.execute session tsk result started.world in
            let ended : Observ W = record started { world = r.world } in
            let first : AllOwned started =
              trigger-AllOwned session.id ref (task_running_msg tsk.id) o e owned in
            rw (e, execute)
              (
                refl,
                trigger-AllOwned session.id ref (task_finished_msg r.tsk.id r.err) ended e first,
              )
      ]

  pub open_session-AllOwned :
      (session : Session) (o : Observ W)
      → find_session session.id o.sessions ≡ none
      → AllOwned o
      → AllOwned (open_session exec session o).1
  unfolding open_session find_session
  open_session-AllOwned session o new owned =
      AllOwned-kept o.sessions ((session.id, o.next_ref) ∷ delete_session session.id o.sessions)
        o.pending
        (λ p id found _. find_kept session.id id o.next_ref p.session_ref o.sessions new found)
        owned

  pub open_session-other :
      (session : Session) (o : Observ W) (j : ℕ)
      → j ≢ session.id
      → find_session j (open_session exec session o).1.sessions ≡ find_session j o.sessions
  unfolding open_session
  open_session-other session o j ne =
      find_behind session.id j o.next_ref o.sessions ne ∙ find-delete_ne session.id j o.sessions ne

  -- A session that is closed has no pending message.
  pub closed-AllOwned :
      (id ref : ℕ) (o : Observ W)
      → find_session id o.sessions ≡ some ref
      → has_pending ref o.pending ≡ false
      → AllOwned o
      → All (IsOwned (delete_session id o.sessions)) o.pending
  closed-AllOwned id ref o found empty owned =
      AllOwned-kept o.sessions (delete_session id o.sessions) o.pending
        (λ p j f more.
          find-delete_ne id j o.sessions
            (λ same. other_ref id j ref p.session_ref o same found empty f more)
          ∙ f)
        owned
