-- ===== src/Driver/Returns.antt =====
-- pkg/driver/driver.go with pkg/executor/scheduler/scheduler.go: a whole run that returns.
use bonk.Base.{
  ℕ, true, String, List, [], ◌∷◌, Option, none, some, ◌≡◌, refl, subst, sym, SameTexts, ◌++◌,
}
use mathlib.Core.List.Permᴰ as Permutation
use bonk.Errors.{append_error}
use bonk.Task.Value.{Task, Session}
use bonk.Task.Result.{Result, get_outputs}
use bonk.Executor.{Executor}
use bonk.Scheduler.{Room, Steps, execute_many}
use bonk.Scheduler.Collect.{CollectsAll}
use bonk.Scheduler.Progress.{execute_many-Returns}
use bonk.Driver.{Progress, Round, executed, Rounds, finished, round, close_all, Run, completes}
use bonk.Driver.Outputs.{OpensAll, PutsOut, Round-Good, Run-outputs}

module _ {W : Type 0} (exec : Executor W) (room : Room) (Safe : List Session → W → Type 0)
    (unlimited : (n : ℕ) → room n ≡ true) where
  Round-exists :
      (opened : List Session) (session : Session) (tasks : List Task) (os : List String) (n : ℕ)
      (r : Result) (p : Progress W)
      → ((exec.open_session session p.world).0 ≡ none)
        × Safe (session ∷ opened) (exec.open_session session p.world).1
      → CollectsAll exec session (Safe (session ∷ opened)) tasks os n
      → p.result ≡ some r
      → (q : Progress W) × Round exec room session tasks p q
  Round-exists opened session tasks os n r p (opens, safe) c has =
      let entered = (exec.open_session session p.world).1 in
      let (k, s, x, steps, back) =
        execute_many-Returns exec session (Safe (session ∷ opened)) room unlimited tasks os n r
          entered safe c in
      (
        record { err = append_error p.err x; result = s.result; world = s.world },
        executed k s x opens
            (subst
              (λ (result : Option Result).
                Steps exec session room (execute_many exec session tasks result entered) k s)
              (sym has) steps)
            back refl,
      )

  Rounds-exists :
      (opened : List Session) (sessions : List (Session × List Task)) (os : List String)
      (r : Result) (p : Progress W)
      → OpensAll exec room Safe opened sessions
      → PutsOut exec room Safe opened sessions os
      → p.err ≡ none
      → Safe opened p.world
      → p.result ≡ some r
      → (q : Progress W) × Rounds exec room sessions p q × (q.err ≡ none)
  Rounds-exists opened [] os r p opens puts fine safe has = (p, finished refl, fine)
  Rounds-exists opened ((session, tasks) ∷ rest) os r p (opens, opens_rest)
        (own, n, more, c, puts, split) fine safe has =
      let enters = opens p.world safe in
      let (mid, first) = Round-exists opened session tasks own n r p enters c has in
      let (mid_fine, mid_safe, r', mid_has, _) =
        Round-Good exec room Safe opened session tasks own n r p mid first enters c fine has in
      let (q, others, end_fine) =
        Rounds-exists (session ∷ opened) rest more r' mid opens_rest puts mid_fine mid_safe
          mid_has in
      (q, round first others, end_fine)

  -- Let there be safe worlds, the first one among them. In these let every session be opened without
  -- an error and into a safe world, and let all tasks of the session and the tasks that follow from
  -- them succeed, into safe worlds and with the same followups and outputs in all of them. Let there
  -- be no limit on goroutines. Then some run returns, without an error and with the outputs that the
  -- result had and those of all tasks of all sessions, in some order.
  pub Run-returns :
      (sessions : List (Session × List Task)) (os : List String) (r : Result) (w : W)
      → Safe [] w
      → OpensAll exec room Safe [] sessions
      → PutsOut exec room Safe [] sessions os
      → (p : Progress W) × Run exec room sessions (some r) w p
        × (p.err ≡ none)
        × SameTexts (get_outputs p.result) (r.outputs ++ os)
  Run-returns sessions os r w safe opens puts =
      let (q, rounds, fine) = Rounds-exists [] sessions os r _ opens puts refl safe refl in
      let p : Progress W = record q { world = close_all exec room sessions q.world } in
      let whole : Run exec room sessions (some r) w p =
        completes q sessions rounds fine (Permutation.refl sessions) refl in
      let (end_fine, same) = Run-outputs exec room Safe sessions os r w p safe opens puts whole in
      (p, whole, end_fine, same)
