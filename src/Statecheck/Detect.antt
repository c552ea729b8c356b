-- ===== src/Statecheck/Detect.antt =====
-- pkg/executor/statecheck/taskstate.go: the comparison of `DetectStateMismatches`.
use bonk.Base.{
  ℕ, String, Bool, true, false, List, [], ◌∷◌, none, some, ◌≡◌, ◌↔◌, refl, arith, eq_iff, not, ◌==◌,
  ap,
}
use mathlib.Core.Option.{some-injective}
use bonk.Task.Value.{Slice, elements, Task}
use bonk.Task.Result.{get_outputs, get_followup_tasks}
use bonk.Statecheck.{
  Outcome, ok, error, Host, SavedState, source, output, hash_args, hash_files, compare_state,
  detect_state_mismatches, deep_equal, texts_eq, also_if, differs, failed_or_differs,
}

texts_eq→eq : (xs ys : List String) → texts_eq xs ys ≡ true → xs ≡ ys
unfolding texts_eq
texts_eq→eq [] [] h = refl
texts_eq→eq (x ∷ xs) (y ∷ ys) h = ground (arith, eq_iff x y, texts_eq→eq xs ys)
texts_eq→eq [] (y ∷ ys) h = cc
texts_eq→eq (x ∷ xs) [] h = cc

texts_eq_refl : (xs : List String) → texts_eq xs xs ≡ true
unfolding texts_eq
texts_eq_refl [] = refl
texts_eq_refl (x ∷ xs) = ground (arith, eq_iff x x, texts_eq_refl xs)

-- The comparison of input lists decides their equality, where nil and empty differ.
deep_equal_iff : (a b : Slice String) → (deep_equal a b ≡ true) ↔ (a ≡ b)
unfolding deep_equal
deep_equal_iff none none = (λ h. refl, λ h. refl)
deep_equal_iff (some xs) (some ys) =
    (λ h. ap (λ l. some l) (texts_eq→eq xs ys h), λ h. rw (some-injective _ _ h) (texts_eq_refl ys))
deep_equal_iff none (some ys) = (λ h. cc, λ h. cc)
deep_equal_iff (some xs) none = (λ h. cc, λ h. cc)

module _ {W H : Type 0} (host : Host W H) where
  open host use {new_hash, reset, hash_tasks}

  -- `Reset` makes a hasher new, and a hash of a value starts from a new hasher.
  pub record IsHasher : Type 0 where
    pub reset_new : (h : H) → reset h ≡ new_hash
    pub starts_new : (h : H) (ts : List Task) → (hash_tasks h ts).0 ≡ (hash_tasks new_hash ts).0

  -- Every part of a saved state is as the task has it now.
  pub record Matches (tsk : Task) (st : SavedState) (w : W) : Type 0 where
    pub executor : tsk.executor ≡ st.executor
    pub arguments : (hash_args host new_hash tsk.args).0 ≡ ok st.arguments_checksum
    pub inputs : tsk.inputs ≡ st.inputs
    pub inputs_checksum :
        (hash_files host new_hash source (elements tsk.inputs) w).0 ≡ ok st.inputs_checksum
    pub outputs :
        (hash_files host new_hash (output tsk.id) (get_outputs st.result) w).0
        ≡ ok st.output_checksum
    pub followups : (hash_tasks new_hash (get_followup_tasks st.result)).0 ≡ ok st.followup_checksum

  differs-eq-false : (o : Outcome ℕ) (n : ℕ) → (differs o n ≡ false) ↔ (o ≡ ok n)
  differs-eq-false (ok m) n = ground arith
  differs-eq-false (error e) n = (λ h. cc, λ h. cc)

  also_if-eq-nil :
      (b : Bool) (s : String) (rest : List String)
      → (also_if b s rest ≡ []) ↔ ((b ≡ false) × (rest ≡ []))
  also_if-eq-nil true s rest = (λ h. cc, λ h. cc)
  also_if-eq-nil false s rest = (λ h. (refl, h), λ h. h.1)

  failed_or_differs-eq-nil :
      (o : Outcome ℕ) (n : ℕ) (s t : String) (rest : List String)
      → (failed_or_differs o n s t rest ≡ []) ↔ ((o ≡ ok n) × (rest ≡ []))
  failed_or_differs-eq-nil (ok m) n s t rest = ground arith
  failed_or_differs-eq-nil (error e) n s t rest = (λ h. cc, λ h. cc)

  not-eq-false : (b : Bool) → (not b ≡ false) ↔ (b ≡ true)
  not-eq-false true = (λ h. refl, λ h. refl)
  not-eq-false false = (λ h. cc, λ h. cc)

  -- The list of mismatches, over the six comparisons.
  abbrev found : Task → SavedState → (args inputs outputs followups : Outcome ℕ) → List String
  found tsk st args inputs outputs followups =
      also_if (not (tsk.executor == st.executor)) "executor" (
        also_if (differs args st.arguments_checksum) "arguments-checksum" (
          also_if (not (deep_equal tsk.inputs st.inputs)) "inputs" (
            also_if (differs inputs st.inputs_checksum) "inputs-checksum" (
              failed_or_differs outputs st.output_checksum "!output-checksum-failed!"
                "output-checksum"
                (failed_or_differs followups st.followup_checksum "!followup-checksum-failed!"
                  "followup-checksum" [])))))

  module _ (tsk : Task) (st : SavedState) (w : W) where
    abbrev args_now : Outcome ℕ
    args_now = (hash_args host new_hash tsk.args).0

    abbrev inputs_now : Outcome ℕ
    inputs_now = (hash_files host new_hash source (elements tsk.inputs) w).0

    abbrev outputs_now : Outcome ℕ
    outputs_now = (hash_files host new_hash (output tsk.id) (get_outputs st.result) w).0

    abbrev followups_now : Outcome ℕ
    followups_now = (hash_tasks new_hash (get_followup_tasks st.result)).0

    found→Matches :
        found tsk st args_now inputs_now outputs_now followups_now ≡ [] → Matches tsk st w
    found→Matches h =
        let (e, h₁) = (also_if-eq-nil _ _ _).0 h in
        let (a, h₂) = (also_if-eq-nil _ _ _).0 h₁ in
        let (i, h₃) = (also_if-eq-nil _ _ _).0 h₂ in
        let (c, h₄) = (also_if-eq-nil _ _ _).0 h₃ in
        let (o, h₅) = (failed_or_differs-eq-nil _ _ _ _ _).0 h₄ in
        let (f, _) = (failed_or_differs-eq-nil _ _ _ _ _).0 h₅ in
        record {
          executor = (eq_iff _ _).0 ((not-eq-false _).0 e);
          arguments = (differs-eq-false _ _).0 a;
          inputs = (deep_equal_iff _ _).0 ((not-eq-false _).0 i);
          inputs_checksum = (differs-eq-false _ _).0 c;
          outputs = o;
          followups = f;
        }

    Matches→found :
        Matches tsk st w → found tsk st args_now inputs_now outputs_now followups_now ≡ []
    Matches→found m =
        let last =
          (failed_or_differs-eq-nil followups_now _ "!followup-checksum-failed!" "followup-checksum"
              []).1
            (m.followups, refl) in
        let fifth =
          (failed_or_differs-eq-nil outputs_now _ "!output-checksum-failed!" "output-checksum" _).1
            (m.outputs, last) in
        let fourth =
          (also_if-eq-nil _ "inputs-checksum" _).1
            ((differs-eq-false inputs_now _).1 m.inputs_checksum, fifth) in
        let third =
          (also_if-eq-nil _ "inputs" _).1
            ((not-eq-false _).1 ((deep_equal_iff _ _).1 m.inputs), fourth) in
        let second =
          (also_if-eq-nil _ "arguments-checksum" _).1
            ((differs-eq-false args_now _).1 m.arguments, third) in
        (also_if-eq-nil _ "executor" _).1 ((not-eq-false _).1 ((eq_iff _ _).1 m.executor), second)

  module _ (hasher : IsHasher) where
    compare_state-found :
        (tsk : Task) (st : SavedState) (w : W)
        → compare_state host tsk st w
          ≡ found tsk st
              (args_now tsk st w)
              (inputs_now tsk st w)
              (outputs_now tsk st w)
              (followups_now tsk st w)
    unfolding compare_state
    compare_state-found tsk st w = rw (
      hasher.reset_new (hash_args host new_hash tsk.args).1,
      hasher.reset_new (hash_files host new_hash source (elements tsk.inputs) w).1,
      hasher.reset_new (hash_files host new_hash (output tsk.id) (get_outputs st.result) w).1,
    )

    -- No mismatch is found exactly when every part of the state matches: the executor's name, the
    -- inputs, and the four checksums, each of which must also be computed without an error.
    pub compare_state-eq-nil_iff :
        (tsk : Task) (st : SavedState) (w : W)
        → (compare_state host tsk st w ≡ []) ↔ Matches tsk st w
    compare_state-eq-nil_iff tsk st w =
        rw (compare_state-found tsk st w) (found→Matches tsk st w, Matches→found tsk st w)

    pub detect_decoded :
        (tsk : Task) (st : SavedState) (w : W)
        → host.open_state tsk.id w ≡ none
        → host.decode_state tsk.id w ≡ ok st
        → detect_state_mismatches host tsk w ≡ (compare_state host tsk st w, st.result)
    unfolding detect_state_mismatches
    detect_decoded tsk st w o d = ground arith
