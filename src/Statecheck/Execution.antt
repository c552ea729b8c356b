-- ===== src/Statecheck/Execution.antt =====
-- pkg/executor/statecheck/statecheck.go: when `Execute` skips a task, and what it does otherwise.
use bonk.Base.{
  String, false, List, [], ◌∷◌, Option, none, some, ◌≡◌, ◌≢◌, ◌⊎◌, refl, arith, inl, inr,
  Option-cases,
}
use bonk.Errors.{Error}
use bonk.Task.Value.{Task, Session}
use bonk.Task.Result.{Result, append_result}
use bonk.Executor.{Executor}
use bonk.Statecheck.{
  Outcome, ok, error, Host, SavedState, compare_state, detect_state_mismatches, save_state, execute,
}
use bonk.Statecheck.Detect.{IsHasher, Matches, compare_state-eq-nil_iff, detect_decoded}

module _ {W H : Type 0} (hosts : Session → Host W H) (session : Session)
    (hasher : IsHasher (hosts session)) where
  abbrev host : Host W H
  host = hosts session

  -- The saved state opens, decodes and matches.
  abbrev pub Finds : Task → SavedState → W → Type 0
  Finds tsk st w =
      (host.open_state tsk.id w ≡ none)
      × (host.decode_state tsk.id w ≡ ok st)
      × Matches host tsk st w

  Detection : Task → W → Type 0
  Detection tsk w =
      ((st : SavedState) × Finds tsk st w) ⊎ ((detect_state_mismatches host tsk w).0 ≢ [])

  decoded-Detection :
      (tsk : Task) (w : W) (st : SavedState)
      → host.open_state tsk.id w ≡ none
      → host.decode_state tsk.id w ≡ ok st
      → (names : List String) → compare_state host tsk st w ≡ names
      → Detection tsk w
  unfolding Detection
  decoded-Detection tsk w st o d [] e =
      inl (st, (o, d, (compare_state-eq-nil_iff host hasher tsk st w).0 e))
  decoded-Detection tsk w st o d (name ∷ names) e =
      inr (λ h. let p = detect_decoded host hasher tsk st w o d in cc)

  module _ (tsk : Task) (w : W) where
    unopened :
        (e : Error)
        → host.open_state tsk.id w ≡ some e
        → detect_state_mismatches host tsk w ≡ ("<state missing>" ∷ [], none)
    unfolding detect_state_mismatches
    unopened e o = ground arith

    undecoded :
        (e : Error)
        → host.open_state tsk.id w ≡ none
        → host.decode_state tsk.id w ≡ error e
        → detect_state_mismatches host tsk w ≡ ("<state decode failed>" ∷ [], none)
    unfolding detect_state_mismatches
    undecoded e o d = ground arith

  opened-Detection :
      (tsk : Task) (w : W)
      → host.open_state tsk.id w ≡ none
      → (d : Outcome SavedState) → host.decode_state tsk.id w ≡ d
      → Detection tsk w
  unfolding Detection
  opened-Detection tsk w o (ok st) d = decoded-Detection tsk w st o d _ refl
  opened-Detection tsk w o (error e) d = inr (λ h. let p = undecoded tsk w e o d in cc)

  detection : (tsk : Task) (w : W) → Detection tsk w
  unfolding Detection
  detection tsk w = elim (Option-cases (host.open_state tsk.id w)) [
    | inl o ↦ opened-Detection tsk w o _ refl
    | inr (e, o) ↦ inr (λ h. let p = unopened tsk w e o in cc)
  ]

  module _ (child : Executor W) (tsk : Task) (result : Option Result) (w : W) where
    skips :
        (st : SavedState)
        → Finds tsk st w
        → execute hosts child session tsk result w ≡ record {
          err = none;
          tsk = tsk;
          result = append_result false result st.result;
          world = w;
        }
    unfolding execute
    skips st (o, d, m) =
        let same = (compare_state-eq-nil_iff host hasher tsk st w).1 m in
        let skipped = detect_decoded host hasher tsk st w o d in ground (arith, skipped, same)

    returns_error :
        (e : Error)
        → (detect_state_mismatches host tsk w).0 ≢ []
        → (child.execute session tsk result w).err ≡ some e
        → execute hosts child session tsk result w ≡ child.execute session tsk result w
    unfolding execute
    returns_error e more bad = ground arith

    saves :
        (detect_state_mismatches host tsk w).0 ≢ []
        → (child.execute session tsk result w).err ≡ none
        → let r = child.execute session tsk result w in
          execute hosts child session tsk result w ≡ record r {
            err = (save_state host r.tsk r.result r.world).0;
            world = (save_state host r.tsk r.result r.world).1;
          }
    unfolding execute
    saves more fine = ground arith

    -- Either the saved state opens, decodes and matches: then the task is skipped, the child is
    -- not called, and the saved result is appended. Or there are mismatches, and the child is
    -- called: its error is returned and saves nothing, and after its success the new state is
    -- saved.
    pub execute_cases :
        ((st : SavedState) × Finds tsk st w
          × (execute hosts child session tsk result w ≡ record {
            err = none;
            tsk = tsk;
            result = append_result false result st.result;
            world = w;
          }))
        ⊎ (((detect_state_mismatches host tsk w).0 ≢ [])
            × let r = child.execute session tsk result w in
              (((e : Error) × (r.err ≡ some e) × (execute hosts child session tsk result w ≡ r))
                ⊎ ((r.err ≡ none)
                    × (execute hosts child session tsk result w ≡ record r {
                      err = (save_state host r.tsk r.result r.world).0;
                      world = (save_state host r.tsk r.result r.world).1;
                    }))))
    unfolding Detection
    execute_cases = elim (detection tsk w) [
      | inl (st, f) ↦ inl (st, f, skips st f)
      | inr more ↦ inr (
        more,
        elim (Option-cases (child.execute session tsk result w).err) [
          | inl fine ↦ inr (fine, saves more fine)
          | inr (e, bad) ↦ inl (e, bad, returns_error e more bad)
        ],
      )
    ]
