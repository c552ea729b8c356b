-- ===== src/Statecheck/Again.antt =====
-- pkg/executor/statecheck/statecheck.go: a task that is executed a second time.
use bonk.Base.{false, [], Option, none, ◌≡◌, ◌≢◌, sym, ◌∙◌, ap, subst, inl, inr, arith}
use bonk.Task.Value.{Task, Session}
use bonk.Task.Result.{Result, append_result}
use bonk.Executor.{Executor, Returned}
use bonk.Statecheck.{
  ok, Host, SavedState, collect_state, prepared, detect_state_mismatches, save_state, execute,
}
use bonk.Statecheck.Detect.{IsHasher, compare_state-eq-nil_iff, detect_decoded}
use bonk.Statecheck.Execution.{Finds, execute_cases}
use bonk.Statecheck.Saved.{SameFiles, detect-save_state}

module _ {W H : Type 0} (hosts : Session → Host W H) (session : Session)
    (hasher : IsHasher (hosts session)) where
  abbrev host : Host W H
  host = hosts session

  -- What is saved reads back in a later world.
  abbrev pub ReadsBack : Task → Option Result → W → W → Type 0
  ReadsBack tsk result w v =
      (st : SavedState)
      → collect_state host tsk result (prepared host tsk w) ≡ ok st
      → (host.open_state tsk.id v ≡ none) × (host.decode_state tsk.id v ≡ ok st)

  -- Without a mismatch the task is skipped.
  skipped :
      (other : Executor W) (tsk : Task) (result saved : Option Result) (v : W)
      → detect_state_mismatches host tsk v ≡ ([], saved)
      → execute hosts other session tsk result v
        ≡ record { err = none; tsk = tsk; result = append_result false result saved; world = v }
  unfolding execute
  skipped other tsk result saved v e = ground (arith, e)

  Finds-nil :
      (tsk : Task) (st : SavedState) (w : W)
      → Finds hosts session hasher tsk st w
      → (detect_state_mismatches host tsk w).0 ≡ []
  Finds-nil tsk st w (o, d, m) =
      ap (λ x. x.0) (detect_decoded host hasher tsk st w o d)
      ∙ (compare_state-eq-nil_iff host hasher tsk st w).1 m

  -- An execution that called the child and gave no error saved its result.
  saved_fine :
      (child : Executor W) (tsk : Task) (result : Option Result) (w : W)
      → (detect_state_mismatches host tsk w).0 ≢ []
      → (execute hosts child session tsk result w).err ≡ none
      → (let r = child.execute session tsk result w in
          (save_state host r.tsk r.result r.world).0 ≡ none)
  saved_fine child tsk result w more fine =
      let E = λ (r : Returned W). r.err in
      elim (execute_cases hosts session hasher child tsk result w) [
        | inl (st, found, _) ↦ absurd (more (Finds-nil tsk st w found))
        | inr (_, inl (e, bad, same)) ↦ let same' = sym (ap E same) ∙ fine in absurd cc
        | inr (_, inr (_, same)) ↦ sym (ap E same) ∙ fine
      ]

  -- Let a task of a session be executed that did not match its saved state, without an error and by a child that
  -- leaves the task alone. If later the state file reads back as what was saved, and the input and
  -- output files are as they were when they were hashed, then the task is skipped in the same session: whatever the child
  -- is by then, it is not called, no error is given, the world stays, and the result of the first
  -- execution is appended.
  pub execute-execute :
      (child other : Executor W) (tsk : Task) (result result' : Option Result) (w v : W)
      → (detect_state_mismatches host tsk w).0 ≢ []
      → (child.execute session tsk result w).tsk ≡ tsk
      → (execute hosts child session tsk result w).err ≡ none
      → (let r = child.execute session tsk result w in
          ReadsBack tsk r.result r.world v
          × SameFiles host hasher tsk r.result (prepared host tsk r.world) v)
      → execute hosts other session tsk result' v ≡ record {
        err = none;
        tsk = tsk;
        result = append_result false result' (child.execute session tsk result w).result;
        world = v;
      }
  execute-execute child other tsk result result' w v more alone fine (reads, files) =
      let r = child.execute session tsk result w in
      let saved = saved_fine child tsk result w more fine in
      let saved' = subst (λ t. (save_state host t r.result r.world).0 ≡ none) alone saved in
      skipped other tsk result' r.result v
        (detect-save_state host hasher tsk r.result r.world v saved' reads files)
