-- ===== src/Observable/Delivery.antt =====
-- pkg/executor/observable/observer.go: what `CloseSession` waits for.
use bonk.Base.{
  tally, tally-append, ℕ, ◌+◌, List, [], ◌∷◌, Bool, true, false, some, nat_eq, Bool-cases, inl, inr,
  ◌≡◌, refl, ap, ◌∙◌, sym, subst, arith,
}
use bonk.Executor.{Executor}
use bonk.Observable.{
  Observ, Pending, Closing, Deliver, deliver, Deliveries, here, next, waits, closed, find_session,
  has_pending, close_session, delete_session,
}

-- A test that only messages of the session pass.
abbrev pub IsOf : ℕ → (Pending → Bool) → Type 0
IsOf ref f = (p : Pending) → f p ≡ true → nat_eq p.session_ref ref ≡ true

tally-IsOf :
    (ref : ℕ) (f : Pending → Bool)
    → IsOf ref f
    → (ps : List Pending) → has_pending ref ps ≡ false
    → tally f ps ≡ 0
unfolding has_pending
tally-IsOf ref f own [] e = refl
tally-IsOf ref f own (p ∷ ps) e = elim (Bool-cases (f p)) [
  | inl fp ↦ ground (arith, own p fp)
  | inr fp ↦ ground (arith, tally-IsOf ref f own ps)
]

module _ {W : Type 0} where
  Deliver-tally :
      (f : Pending → Bool) {a b : Observ W}
      → Deliver a b
      → tally f b.pending + tally f b.log ≡ tally f a.pending + tally f a.log
  Deliver-tally f {a} (deliver xs ys p e e') =
      let total = tally-append f xs (p ∷ ys) in
      let rest = tally-append f xs ys in
      let calls = tally-append f a.log (p ∷ []) in rw (e', e) ground (arith, total, rest, calls)

  Deliveries-tally :
      (f : Pending → Bool) {a b : Observ W}
      → Deliveries a b
      → tally f b.pending + tally f b.log ≡ tally f a.pending + tally f a.log
  Deliveries-tally f here = refl
  Deliveries-tally f (next ds d) = Deliver-tally f d ∙ Deliveries-tally f ds

  pub Deliveries-sessions : {a b : Observ W} → Deliveries a b → b.sessions ≡ a.sessions
  Deliveries-sessions here = refl
  Deliveries-sessions (next ds (deliver xs ys p e e')) =
      ap (λ (o : Observ W). o.sessions) e' ∙ Deliveries-sessions ds

-- Whether the call waits, and the calls of listeners that were made when it returned.
module _ {W : Type 0} where
  abbrev Waiting : Closing W → Type 0
  Waiting waits = Unit
  Waiting _ = ⊥

  abbrev logged : Closing W → List Pending
  logged (closed c) = c.log
  logged _ = []

module _ {W : Type 0} (exec : Executor W) where
  close_session-waits :
      (id ref : ℕ) (b : Observ W)
      → find_session id b.sessions ≡ some ref
      → has_pending ref b.pending ≡ true
      → close_session exec id b ≡ waits
  unfolding close_session
  close_session-waits id ref b found h = rw (found, close_session) rw h refl

  pub close_session-closed :
      (id ref : ℕ) (b : Observ W)
      → find_session id b.sessions ≡ some ref
      → has_pending ref b.pending ≡ false
      → close_session exec id b
        ≡ closed (record b {
          world = exec.close_session id b.world;
          sessions = delete_session id b.sessions;
        })
  unfolding close_session
  close_session-closed id ref b found h = rw (found, close_session) rw h refl

  close_session-tally :
      (f : Pending → Bool) (id ref : ℕ) (b c : Observ W)
      → find_session id b.sessions ≡ some ref
      → IsOf ref f
      → close_session exec id b ≡ closed c
      → tally f c.log ≡ tally f b.pending + tally f b.log
  unfolding close_session
  close_session-tally f id ref b c found own e = elim (Bool-cases (has_pending ref b.pending)) [
    | inl h ↦ absurd (subst Waiting (sym (close_session-waits id ref b found h) ∙ e) tt)
    | inr h ↦
        let left = tally-IsOf ref f own b.pending h in
        let kept = ap logged (sym (close_session-closed id ref b found h) ∙ e) in
        rw (sym kept) omega (arith, left)
  ]

  -- Let a session be open, and goroutines run in any order until a call of `CloseSession` returns.
  -- By then every message of the session that was pending has been delivered, exactly once: for
  -- each test that only messages of the session pass, the calls of listeners that pass it are those
  -- made before and as many as were pending.
  pub close_session-Deliveries :
      (f : Pending → Bool) (id ref : ℕ) (a b c : Observ W)
      → find_session id a.sessions ≡ some ref
      → IsOf ref f
      → Deliveries a b
      → close_session exec id b ≡ closed c
      → tally f c.log ≡ tally f a.log + tally f a.pending
  close_session-Deliveries f id ref a b c found own ds e =
      let total = Deliveries-tally f ds in
      let here =
        close_session-tally f id ref b c (ap (find_session id) (Deliveries-sessions ds) ∙ found) own
          e in
      omega arith
