-- ===== src/Cmd/Ends.antt =====
-- cmd/holos/main.go with pkg/driver: how the command ends.
use bonk.Base.{ℕ, true, String, List, [], Option, none, some, ◌≡◌, refl, sym, ◌∙◌}
use bonk.Base.Paths.{path_base}
use bonk.Errors.{Error, Outcome}
use bonk.Task.Result.{Result, empty_result}
use bonk.Task.Value.{Session}
use bonk.Executor.{Executor}
use bonk.Scheduler.{Room}
use bonk.Statecheck.{Host}
use bonk.Driver.{Options, Built, built, build}
use bonk.Driver.Outputs.{OpensAll, PutsOut, Run-outputs}
use bonk.Driver.Returns.{Run-returns}
use bonk.Cmd.{
  Shell, holos_options, session_dir, finish, entered, Drives, not_built, drives, RunHolos,
  runs_holos,
}

module _ {W H : Type 0} (shell : Shell W) (hosts : Session → Host W H)
    (new_plugin_client : String → W → Outcome (Executor W) × W)
    (observe : List ℕ → Executor W → Executor W) (limit : ℕ → Room)
    (Safe : List Session → W → Type 0) where
  built_once :
      (exec other : Executor W) (v u : W) (b : Built W)
      → b ≡ built exec v
      → b ≡ built other u
      → (exec ≡ other) × (v ≡ u)
  built_once exec other v u b p q = (cc, cc)

  -- A whole call of the driver whose tasks all succeed gives no error.
  Drives-none :
      (opts : Options W) (os : List String) (r : Result) (w : W) (exec : Executor W) (v : W)
      (err : Option Error) (w' : W)
      → build hosts new_plugin_client path_base observe opts w ≡ built exec v
      → Safe [] v
      → OpensAll exec (limit opts.concurrency) Safe [] opts.sessions
      → PutsOut exec (limit opts.concurrency) Safe [] opts.sessions os
      → Drives shell hosts new_plugin_client observe limit opts (some r) w err w'
      → err ≡ none
  Drives-none opts os r w exec v err w' b safe opens puts (not_built e failed_ err_is) =
      let bad = sym b ∙ failed_ in absurd cc
  Drives-none opts os r w exec v err w' b safe opens puts (drives other u p b' run err_is w_is) =
      let (same, at_u) = built_once exec other v u _ b b' in
      err_is
      ∙ (Run-outputs other (limit opts.concurrency) Safe opts.sessions os r u p (rw at_u at safe)
          (rw same at opens) (rw same at puts) run).0

  module _ (concurrency : ℕ) (platform : String) (holos : Executor W) (args : List String)
      (w : W) where
    -- The options and the world with which the command calls the driver.
    abbrev pub called : Options W
    called =
        holos_options shell concurrency platform (entered shell w).0 (entered shell w).1 holos
          (session_dir shell args (shell.getwd w))

    abbrev pub Ends : Option Error → W → Type 0
    Ends err w' =
        RunHolos shell hosts new_plugin_client observe limit concurrency platform holos args w err
          w'

    quits :
        (err : Option Error) (u w' : W)
        → err ≡ none
        → w' ≡ finish shell (entered shell w).0 err u
        → w' ≡ shell.quit_bubble (entered shell w).0 u
    quits err u w' e is = is ∙ rw e refl

    Ends-well :
        (os : List String) (exec : Executor W) (v : W) (err : Option Error) (w' : W)
        → build hosts new_plugin_client path_base observe called (entered shell w).2 ≡ built exec v
        → Safe [] v
        → OpensAll exec (limit called.concurrency) Safe [] called.sessions
        → PutsOut exec (limit called.concurrency) Safe [] called.sessions os
        → Ends err w'
        → (err ≡ none) × (u : W) × (w' ≡ shell.quit_bubble (entered shell w).0 u)
    Ends-well os exec v err w' b safe opens puts (runs_holos u driven w_is) =
        let fine =
          Drives-none called os empty_result (entered shell w).2 exec v err u b safe opens puts
            driven in
        (fine, u, quits err u w' fine w_is)

    -- Let the executors of `holos` be made, into a safe world. In safe worlds let its session be opened
    -- without an error and into a safe world, and let its task and the tasks that follow from it
    -- succeed, into safe worlds and with the same followups and outputs in all of them. Then every way in which the command returns
    -- gives no error and ends by quitting the terminal program; and where there is no limit on
    -- goroutines, it has a way to return.
    pub holos-Ends :
        (os : List String) (exec : Executor W) (v : W)
        → build hosts new_plugin_client path_base observe called (entered shell w).2 ≡ built exec v
        → Safe [] v
        → OpensAll exec (limit called.concurrency) Safe [] called.sessions
        → PutsOut exec (limit called.concurrency) Safe [] called.sessions os
        → ((err : Option Error) (w' : W)
            → Ends err w'
            → (err ≡ none) × (u : W) × (w' ≡ shell.quit_bubble (entered shell w).0 u))
          × (((n : ℕ) → limit called.concurrency n ≡ true) → (w' : W) × Ends none w')
    holos-Ends os exec v b safe opens puts = (
      λ err w' ends. Ends-well os exec v err w' b safe opens puts ends,
      λ unlimited.
          let (p, run, fine, _) =
            Run-returns exec (limit called.concurrency) Safe unlimited called.sessions os
              empty_result v safe opens puts in
          (
            shell.quit_bubble (entered shell w).0 p.world,
            runs_holos p.world (drives exec v p b run (sym fine) refl) refl,
          ),
    )
