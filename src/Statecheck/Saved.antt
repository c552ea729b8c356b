-- ===== src/Statecheck/Saved.antt =====
-- pkg/executor/statecheck/taskstate.go: a saved state and its later comparison.
use bonk.Base.{ℕ, [], Option, none, ◌≡◌, sym, ◌∙◌, arith, ap}
use bonk.Task.Value.{elements, Task}
use bonk.Task.Result.{Result, get_outputs, get_followup_tasks}
use bonk.Statecheck.{
  Outcome, ok, ◌>>=◌, Host, SavedState, source, output, hash_args, hash_files, collect_state,
  prepared, detect_state_mismatches, save_state,
}
use bonk.Statecheck.Detect.{IsHasher, Matches, compare_state-eq-nil_iff, detect_decoded}

-- The state is made of four checksums.
abbrev made_of :
    Task → Option Result → (args inputs outputs followups : Outcome ℕ) → Outcome SavedState
made_of tsk result args inputs outputs followups = args >>= λ a. inputs >>= λ i. outputs >>= λ o.
    followups >>= λ f. ok (record {
      executor = tsk.executor;
      inputs = tsk.inputs;
      result = result;
      arguments_checksum = a;
      inputs_checksum = i;
      output_checksum = o;
      followup_checksum = f;
    })

-- All four were computed, and stand in the state with the rest.
record Parts (tsk : Task) (result : Option Result) (a i o f : Outcome ℕ) (st : SavedState)
    : Type 0 where
  executor : st.executor ≡ tsk.executor
  inputs : st.inputs ≡ tsk.inputs
  result_is : st.result ≡ result
  args : a ≡ ok st.arguments_checksum
  sources : i ≡ ok st.inputs_checksum
  outputs : o ≡ ok st.output_checksum
  followups : f ≡ ok st.followup_checksum

parts :
    (tsk : Task) (result : Option Result) (a i o f : Outcome ℕ) (st : SavedState)
    → made_of tsk result a i o f ≡ ok st
    → Parts tsk result a i o f st
parts tsk result (ok a) (ok i) (ok o) (ok f) st h = ground arith
parts tsk result _ _ _ _ st h = cc

module _ {W H : Type 0} (host : Host W H) (hasher : IsHasher host) where
  open host use {new_hash, hash_tasks}

  -- The files that the checksums are made of read the same in two worlds.
  pub record SameFiles (tsk : Task) (result : Option Result) (w v : W) : Type 0 where
    pub inputs :
        hash_files host new_hash source (elements tsk.inputs) w
        ≡ hash_files host new_hash source (elements tsk.inputs) v
    pub outputs :
        hash_files host new_hash (output tsk.id) (get_outputs result) w
        ≡ hash_files host new_hash (output tsk.id) (get_outputs result) v

  -- Each hash starts from a new hasher.
  collected_new :
      (tsk : Task) (result : Option Result) (w : W)
      → collect_state host tsk result w
        ≡ made_of tsk result
            (hash_args host new_hash tsk.args).0
            (hash_files host new_hash source (elements tsk.inputs) w).0
            (hash_files host new_hash (output tsk.id) (get_outputs result) w).0
            (hash_tasks new_hash (get_followup_tasks result)).0
  unfolding collect_state
  collected_new tsk result w = rw (
    hasher.reset_new (hash_args host new_hash tsk.args).1,
    hasher.reset_new (hash_files host new_hash source (elements tsk.inputs) w).1,
    hasher.starts_new (hash_files host new_hash (output tsk.id) (get_outputs result) w).1
        (get_followup_tasks result),
  )

  collected-Parts :
      (tsk : Task) (result : Option Result) (st : SavedState) (w : W)
      → collect_state host tsk result w ≡ ok st
      → Parts tsk result
          (hash_args host new_hash tsk.args).0
          (hash_files host new_hash source (elements tsk.inputs) w).0
          (hash_files host new_hash (output tsk.id) (get_outputs result) w).0
          (hash_tasks new_hash (get_followup_tasks result)).0
          st
  collected-Parts tsk result st w h =
      parts tsk result _ _ _ _ st (sym (collected_new tsk result w) ∙ h)

  collected-Matches :
      (tsk : Task) (result : Option Result) (st : SavedState) (w v : W)
      → collect_state host tsk result w ≡ ok st
      → SameFiles tsk result w v
      → Matches host tsk st v
  collected-Matches tsk result st w v h same =
      let p = collected-Parts tsk result st w h in
      record {
        executor = sym p.executor;
        arguments = p.args;
        inputs = sym p.inputs;
        inputs_checksum = ap (λ c. c.0) (sym same.inputs) ∙ p.sources;
        outputs = rw p.result_is (ap (λ c. c.0) (sym same.outputs) ∙ p.outputs);
        followups = rw p.result_is p.followups;
      }

  -- A state was collected if SaveState returns no error.
  saved_collected :
      (tsk : Task) (result : Option Result) (w : W)
      → (save_state host tsk result w).0 ≡ none
      → (st : SavedState) × (collect_state host tsk result (prepared host tsk w) ≡ ok st)
  unfolding save_state
  saved_collected tsk result w s = ground arith

  -- If SaveState returns no error, the state file opens later and reads back as the state that was
  -- collected, and the input and output files are as they were when they were hashed, then
  -- DetectStateMismatches finds no mismatch and gives the saved result.
  pub detect-save_state :
      (tsk : Task) (result : Option Result) (w v : W)
      → (save_state host tsk result w).0 ≡ none
      → ((st : SavedState)
          → collect_state host tsk result (prepared host tsk w) ≡ ok st
          → (host.open_state tsk.id v ≡ none) × (host.decode_state tsk.id v ≡ ok st))
      → SameFiles tsk result (prepared host tsk w) v
      → detect_state_mismatches host tsk v ≡ ([], result)
  detect-save_state tsk result w v s reads_back same =
      let (st, c) = saved_collected tsk result w s in
      let (o, d) = reads_back st c in
      let m = collected-Matches tsk result st (prepared host tsk w) v c same in
      let p = collected-Parts tsk result st (prepared host tsk w) c in
      detect_decoded host hasher tsk st v o d
      ∙ ap (λ l. (l, st.result)) ((compare_state-eq-nil_iff host hasher tsk st v).1 m)
      ∙ ap (λ r. ([], r)) p.result_is
