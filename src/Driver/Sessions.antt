-- ===== src/Driver/Sessions.antt =====
-- pkg/driver/driver.go: the sessions that a run opens and closes.
use bonk.Base.{
  ℕ, Bool, true, false, Bool-cases, nat_eq, ◌||◌, if◌then◌else◌, List, [], ◌∷◌, Option, none, some,
  Option-cases, ◌⊎◌, inl, inr, ◌≡◌, ◌≢◌, refl, sym, ◌∙◌, ap, arith,
}
use mathlib.Core.List.{Permᴰ}
use bonk.Errors.{Error, wrap}
use bonk.Task.Value.{Task, Session}
use bonk.Task.Result.{Result}
use bonk.Executor.{Executor}
use bonk.Scheduler.{
  Room, Step, run, fail, go, finish, caller_run, caller_fail, caller_go, caller_finish, wait, Steps,
  here, next, State, execute_many,
}
use bonk.Driver.{
  Progress, Round, not_opened, executed, Rounds, finished, round, close_all, Run, fails, completes,
}

-- Which sessions are open at the executor, by their ids: `OpenSession` opens its session, or closes
-- nothing where it gives an error, `CloseSession` closes its session, and tasks change nothing about
-- them.
pub record Tracks {W : Type 0} (exec : Executor W) (is_open : ℕ → W → Bool) : Type 0 where
  pub opened :
      (session : Session) (w : W)
      → (exec.open_session session w).0 ≡ none
      → is_open session.id (exec.open_session session w).1 ≡ true
  pub opened_other :
      (session : Session) (w : W) (id : ℕ)
      → session.id ≢ id
      → is_open id (exec.open_session session w).1 ≡ is_open id w
  pub refused :
      (session : Session) (w : W) (e : Error)
      → (exec.open_session session w).0 ≡ some e
      → is_open session.id w ≡ true
      → is_open session.id (exec.open_session session w).1 ≡ true
  pub kept :
      (session : Session) (tsk : Task) (result : Option Result) (w : W) (id : ℕ)
      → is_open id (exec.execute session tsk result w).world ≡ is_open id w
  pub closed : (id : ℕ) (w : W) → is_open id (exec.close_session id w) ≡ false
  pub closed_other :
      (closing : ℕ) (w : W) (id : ℕ)
      → closing ≢ id
      → is_open id (exec.close_session closing w) ≡ is_open id w

nat-cases : (a b : ℕ) → (nat_eq a b ≡ true) × (a ≡ b) ⊎ (nat_eq a b ≡ false) × (a ≢ b)
nat-cases a b = elim (Bool-cases (nat_eq a b)) [
  | inl e ↦ inl (e, ground (arith, e))
  | inr e ↦ inr (e, λ h. ground (arith, e, h))
]

-- The run has a session with this id.
abbrev pub among : ℕ → List (Session × List Task) → Bool
among id [] = false
among id ((session, tasks) ∷ rest) = nat_eq session.id id || among id rest

or_swap : (a b c : Bool) → (a || (b || c)) ≡ (b || (a || c))
or_swap true true c = refl
or_swap true false c = refl
or_swap false true c = refl
or_swap false false c = refl

Permᴰ-among :
    (id : ℕ) {xs ys : List (Session × List Task)} → Permᴰ xs ys → among id xs ≡ among id ys
Permᴰ-among id Permᴰ.nil = refl
Permᴰ-among id (Permᴰ.cons e p) = let ih = Permᴰ-among id p in rw (e, ih) refl
Permᴰ-among id (Permᴰ.swap {a} {b} {l} e d) =
    rw (sym e, sym d) (or_swap (nat_eq a.0.id id) (nat_eq b.0.id id) (among id l))
Permᴰ-among id (Permᴰ.trans p q) = Permᴰ-among id p ∙ Permᴰ-among id q

module _ {W : Type 0} (exec : Executor W) (room : Room) (is_open : ℕ → W → Bool)
    (law : Tracks exec is_open) where
  Step-kept :
      (session : Session) (id : ℕ) (s s' : State W)
      → Step exec session room s s'
      → is_open id s'.world ≡ is_open id s.world
  Step-kept session id s s' (run tsk xs ys g ok e) = rw e (law.kept session tsk _ s.world id)
  Step-kept session id s s' (fail tsk x xs ys g bad e) = rw e (law.kept session tsk _ s.world id)
  Step-kept session id s s' (go f fs os xs ys g free e) = rw e refl
  Step-kept session id s s' (finish os xs ys g e) = rw e refl
  Step-kept session id s s' (caller_run tsk c ok e) = rw e (law.kept session tsk _ s.world id)
  Step-kept session id s s' (caller_fail tsk x c bad e) = rw e (law.kept session tsk _ s.world id)
  Step-kept session id s s' (caller_go f fs os c free e) = rw e refl
  Step-kept session id s s' (caller_finish os c e) = rw e refl
  Step-kept session id s s' (wait c g e) = rw e refl

  Steps-kept :
      (session : Session) (id : ℕ) (s : State W) {n : ℕ} (s' : State W)
      → Steps exec session room s n s'
      → is_open id s'.world ≡ is_open id s.world
  Steps-kept session id s s' here = refl
  Steps-kept session id s s' (next {t} before step e) =
      Step-kept session id t s' step ∙ Steps-kept session id s t before

  begins :
      (session : Session) (tasks : List Task) (result : Option Result) (w : W) (id : ℕ)
      → is_open id (execute_many exec session tasks result w).world ≡ is_open id w
  unfolding execute_many
  begins session tasks result w id = refl

  -- In a round only the opening of the session changes what is open.
  Round-world :
      (session : Session) (tasks : List Task) (id : ℕ) (p q : Progress W)
      → Round exec room session tasks p q
      → is_open id q.world ≡ is_open id (exec.open_session session p.world).1
  Round-world session tasks id p q (not_opened e o q_is) = rw q_is refl
  Round-world session tasks id p q (executed n s err o steps c q_is) =
      rw q_is (Steps-kept session id _ s steps ∙ begins session tasks p.result _ id)

  Rounds-other :
      (sessions : List (Session × List Task)) (id : ℕ) (p q : Progress W)
      → Rounds exec room sessions p q
      → among id sessions ≡ false
      → is_open id q.world ≡ is_open id p.world
  Rounds-other [] id p q (finished same) h = rw same refl
  Rounds-other ((session, tasks) ∷ rest) id p q (round {q = mid} first others) h =
      elim (nat-cases session.id id) [
        | inl (b, _) ↦ let bad = rw b at h in absurd cc
        | inr (b, ne) ↦
            Rounds-other rest id mid q others (rw b at h)
            ∙ Round-world session tasks id p mid first
            ∙ law.opened_other session p.world id ne
      ]

  close_all-is_open :
      (sessions : List (Session × List Task)) (id : ℕ) (w : W)
      → is_open id (close_all exec room sessions w)
        ≡ (if among id sessions then false else is_open id w)
  close_all-is_open [] id w = refl
  close_all-is_open ((session, tasks) ∷ rest) id w =
      let ih = close_all-is_open rest id (exec.close_session session.id w) in
      elim (nat-cases session.id id) [
        | inl (b, same) ↦
            let gone : is_open id (exec.close_session session.id w) ≡ false =
              rw same (law.closed id w) in
            ih ∙ rw (gone, b) (same_branches (among id rest))
        | inr (b, ne) ↦ ih ∙ rw (law.closed_other session.id w id ne, b) refl
      ]
    where
      same_branches : (b : Bool) → (if b then false else false) ≡ false
      same_branches true = refl
      same_branches false = refl

  -- Let opening a session at the executor open it, or close none where it gives an error, closing a
  -- session close it, and nothing else change what is open. Then after a run without an error none of its sessions is open, and every other session is
  -- open where it was before, whatever the order in which the run closes them.
  pub Run-closed :
      (sessions : List (Session × List Task)) (result : Option Result) (w : W) (p : Progress W)
      → Run exec room sessions result w p
      → p.err ≡ none
      → (id : ℕ) → is_open id p.world ≡ (if among id sessions then false else is_open id w)
  Run-closed sessions result w p (fails e q rounds bad p_is) fine id =
      let wrong : some (wrap "failed to register tasks with scheduler" e) ≡ none =
        sym (ap (λ (t : Progress W). t.err) p_is) ∙ fine in
      absurd cc
  Run-closed sessions result w p (completes q order rounds good perm p_is) fine id =
      let closes = close_all-is_open order id q.world in
      let same = Permᴰ-among id perm in
      rw (p_is, same)
        (elim (Bool-cases (among id order)) [
          | inl b ↦ rw b (rw b at closes)
          | inr b ↦ rw b (rw b at closes ∙ Rounds-other sessions id _ q rounds (same ∙ b))
        ])

  Round-stays :
      (session : Session) (tasks : List Task) (id : ℕ) (p q : Progress W)
      → Round exec room session tasks p q
      → is_open id p.world ≡ true
      → is_open id q.world ≡ true
  Round-stays session tasks id p q round_ h = elim (nat-cases session.id id) [
    | inl (_, same) ↦ elim (Option-cases (exec.open_session session p.world).0) [
      | inl fine ↦
          Round-world session tasks id p q round_ ∙ rw (sym same) (law.opened session p.world fine)
      | inr (e, bad) ↦
          Round-world session tasks id p q round_
          ∙ rw (sym same) (law.refused session p.world e bad (rw (sym same) at h))
    ]
    | inr (_, ne) ↦
        Round-world session tasks id p q round_ ∙ law.opened_other session p.world id ne ∙ h
  ]

  Rounds-stays :
      (sessions : List (Session × List Task)) (id : ℕ) (p q : Progress W)
      → Rounds exec room sessions p q
      → is_open id p.world ≡ true
      → is_open id q.world ≡ true
  Rounds-stays [] id p q (finished same) h = rw same h
  Rounds-stays ((session, tasks) ∷ rest) id p q (round {q = mid} first others) h =
      Rounds-stays rest id mid q others (Round-stays session tasks id p mid first h)

  Rounds-first :
      (session : Session) (tasks : List Task) (rest : List (Session × List Task)) (p q : Progress W)
      → Rounds exec room ((session, tasks) ∷ rest) p q
      → (exec.open_session session p.world).0 ≡ none
      → is_open session.id q.world ≡ true
  Rounds-first session tasks rest p q (round {q = mid} first others) o =
      Rounds-stays rest session.id mid q others
        (Round-world session tasks session.id p mid first ∙ law.opened session p.world o)

  -- Let opening a session at the executor open it, or close none where it gives an error, closing a
  -- session close it, and nothing else change what is open. Then a run that gives an error after its first session was opened leaves that session open.
  pub Run-leaves_open :
      (session : Session) (tasks : List Task) (rest : List (Session × List Task))
      (result : Option Result) (w : W) (p : Progress W) (e : Error)
      → (exec.open_session session w).0 ≡ none
      → Run exec room ((session, tasks) ∷ rest) result w p
      → p.err ≡ some e
      → is_open session.id p.world ≡ true
  Run-leaves_open session tasks rest result w p e o (fails d q rounds failed p_is) bad =
      rw p_is (Rounds-first session tasks rest _ q rounds o)
  Run-leaves_open session tasks rest result w p e o (completes q order rounds good perm p_is) bad =
      let wrong : none ≡ some e = sym good ∙ sym (ap (λ (t : Progress W). t.err) p_is) ∙ bad in
      absurd cc
