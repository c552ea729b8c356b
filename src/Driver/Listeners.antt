-- ===== src/Driver/Listeners.antt =====
-- pkg/driver/driver.go with pkg/executor/observable/observer.go: what listeners are told by the end of
-- a run.
mod Tests
use bonk.Base.{ℕ, List, [], none, All, nat_eq, ◌≡◌, ◌⊎◌, inl, inr, arith, Bool-cases}
use bonk.Task.Value.{Task, Session}
use bonk.Task.Result.{Result}
use bonk.Executor.{Executor}
use bonk.Scheduler.{
  Room, Step, run, fail, go, finish, caller_run, caller_fail, caller_go, caller_finish, wait, here,
  next,
}
use bonk.Observable.{Observ, find_session}
use bonk.Observable.Owned.{AllOwned}
use bonk.Observable.Scheduled.{Schedule, observed}
use bonk.Driver.Ids.{Work, IsOther, Among}
use bonk.Driver.{Progress, Round}

module _ {W : Type 0} where
  none_left :
      (id : ℕ) (o : Observ W)
      → (find_session id o.sessions ≡ none) ⊎ Among id []
      → find_session id o.sessions ≡ none
  none_left id o (inl h) = h
  none_left id o (inr a) = absurd a

module _ {W : Type 0} (exec : Executor W) (sched : Schedule W) (room : Room) where
  abbrev Goes : Session → List Task → Progress (Observ W) → Progress (Observ W) → Type 0
  Goes session tasks p q = Round (observed exec sched) room session tasks p q

  -- What is open after a round or several, besides their own sessions.
  abbrev Kept : Work → Observ W → Observ W → Type 0
  Kept sessions o o' =
      AllOwned o'
      × ((id : ℕ) → IsOther id sessions → find_session id o'.sessions ≡ find_session id o.sessions)

  -- No session of the list is open.
  abbrev AllNew : Work → Observ W → Type 0
  AllNew sessions o =
      All (λ (s : Session × List Task). find_session s.0.id o.sessions ≡ none) sessions
