-- ===== src/Statecheck.antt =====
-- pkg/executor/statecheck: an executor that skips a task whose saved state still matches. The file
-- system (afero), the JSON coder and the hash functions are a `Host`.
pub mod Detect
pub mod Execution
pub mod Saved
pub mod Again
mod Tests
use bonk.Base.{
  ℕ, String, Bool, true, false, List, [], ◌∷◌, ◌++◌, Option, none, some, ◌==◌, nat_eq,
  if◌then◌else◌, not, ◌&&◌,
}
use bonk.Errors.{Error, message, wrap}
pub use bonk.Errors.{Outcome, ok, error, ◌>>=◌}
use bonk.Task.Value.{Value, nil, Slice, elements, Task, Session}
use bonk.Task.Result.{Result, get_outputs, get_followup_tasks, append_result}
use bonk.Executor.{Executor, Execute, Returned}

-- The file systems that are read: the session's sources, and the output directory of a task.
pub data Root : Type 0 where
  source : Root
  output : String → Root

-- `state`
pub record SavedState : Type 0 where
  pub executor : String
  pub inputs : Slice String
  pub result : Option Result
  pub arguments_checksum : ℕ
  pub inputs_checksum : ℕ
  pub output_checksum : ℕ
  pub followup_checksum : ℕ

-- What one session offers. `H` is the state of a `hash.Hash64`.
pub record Host (W H : Type 0) : Type 0 where
  pub mkdir_all : String → W → Option Error × W
  pub create_state : String → W → Option Error × W
  pub encode_state : String → SavedState → W → Option Error × W
  pub open_state : String → W → Option Error
  pub decode_state : String → W → Outcome SavedState
  pub glob : Root → String → W → Outcome (List String)
  pub open_file : Root → String → W → Option Error
  pub copy : Root → String → W → H → Option Error × H
  pub new_hash : H
  pub reset : H → H
  pub sum : H → ℕ
  pub hash_value : H → Value → Outcome ℕ × H
  pub hash_tasks : H → List Task → Outcome ℕ × H

-- `append(mismatches, name)` under a condition; the nil slice is no mismatch.
abbrev pub also_if : Bool → String → List String → List String
also_if true name rest = name ∷ rest
also_if false name rest = rest

-- `err != nil || checksum != saved`
abbrev pub differs : Outcome ℕ → ℕ → Bool
differs (ok n) saved = not (nat_eq n saved)
differs (error e) saved = true

-- The two names for a checksum that fails and one that differs.
abbrev pub failed_or_differs : Outcome ℕ → ℕ → String → String → List String → List String
failed_or_differs (ok n) saved failed different rest = also_if (not (nat_eq n saved)) different rest
failed_or_differs (error e) saved failed different rest = failed ∷ rest

texts_eq : List String → List String → Bool
texts_eq [] [] = true
texts_eq (x ∷ xs) (y ∷ ys) = x == y && texts_eq xs ys
texts_eq [] (y ∷ ys) = false
texts_eq (x ∷ xs) [] = false

-- `reflect.DeepEqual` of two slices of texts: nil is not equal to an empty slice.
unfoldable pub deep_equal : Slice String → Slice String → Bool
unfolding texts_eq
deep_equal none none = true
deep_equal (some xs) (some ys) = texts_eq xs ys
deep_equal none (some ys) = false
deep_equal (some xs) none = false

module _ {W H : Type 0} (host : Host W H) where
  -- `hashAnyValue` of the arguments.
  abbrev pub hash_args : H → Value → Outcome ℕ × H
  hash_args h nil = (ok 0, h)
  hash_args h v = host.hash_value h v

  -- The inner loop of `hashFiles`. The hasher is changed in place, also where an error ends it.
  hash_matches : Root → List String → W → H → Option Error × H
  hash_matches root [] w h = (none, h)
  hash_matches root (file ∷ files) w h = elim (host.open_file root file w) [
    | some e ↦ (some (wrap "failed to open input file" e), h)
    | none ↦
        let (err, h') = host.copy root file w h in
        elim err [
          | some e ↦ (some (wrap "failed to hash input file" e), h')
          | none ↦ hash_matches root files w h'
        ]
  ]

  hash_patterns : Root → List String → W → H → Option Error × H
  unfolding hash_matches
  hash_patterns root [] w h = (none, h)
  hash_patterns root (pattern ∷ patterns) w h = elim (host.glob root pattern w) [
    | error e ↦ (some (wrap "failed to expand glob" e), h)
    | ok matches ↦
        let (err, h') = hash_matches root matches w h in
        elim err [ some e ↦ (some e, h') | none ↦ hash_patterns root patterns w h' ]
  ]

  unfoldable pub hash_files : H → Root → List String → W → Outcome ℕ × H
  unfolding hash_patterns
  hash_files h root files w =
      let (err, h') = hash_patterns root files w h in
      (elim err [ some e ↦ error e | none ↦ ok (host.sum h') ], h')

  -- The state that `SaveState` writes. The hasher is not reset between the outputs and the
  -- followups.
  unfoldable pub collect_state : Task → Option Result → W → Outcome SavedState
  collect_state tsk result w =
      let (args, h₁) = hash_args host.new_hash tsk.args in
      let (inputs, h₂) = hash_files (host.reset h₁) source (elements tsk.inputs) w in
      let (outputs, h₃) = hash_files (host.reset h₂) (output tsk.id) (get_outputs result) w in
      let (followups, h₄) = host.hash_tasks h₃ (get_followup_tasks result) in
      args >>= λ a. inputs >>= λ i. outputs >>= λ o. followups >>= λ f. ok (record {
        executor = tsk.executor;
        inputs = tsk.inputs;
        result = result;
        arguments_checksum = a;
        inputs_checksum = i;
        output_checksum = o;
        followup_checksum = f;
      })

  -- The world in which `SaveState` hashes: the task's directory and an empty state file are made.
  abbrev pub prepared : Task → W → W
  prepared tsk w = (host.create_state tsk.id (host.mkdir_all tsk.id w).1).1

  unfoldable pub save_state : Task → Option Result → W → Option Error × W
  save_state tsk result w =
      let (made, w₁) = host.mkdir_all tsk.id w in
      elim made [
        | some e ↦ (some (wrap "failed to create task directory" e), w₁)
        | none ↦
            let (created, w₂) = host.create_state tsk.id w₁ in
            elim created [
              | some e ↦ (some (wrap "failed to open state file" e), w₂)
              | none ↦ elim (collect_state tsk result w₂) [
                | error e ↦ (some e, w₂)
                | ok st ↦
                    let (encoded, w₃) = host.encode_state tsk.id st w₂ in
                    elim encoded [
                      | some e ↦ (some (wrap "failed to encode state file" e), w₃)
                      | none ↦ (none, w₃)
                    ]
              ]
            ]
      ]

  -- What `DetectStateMismatches` finds against a decoded state.
  unfoldable pub compare_state : Task → SavedState → W → List String
  unfolding hash_files deep_equal get_outputs get_followup_tasks
  compare_state tsk st w =
      let (args, h₁) = hash_args host.new_hash tsk.args in
      let (inputs, h₂) = hash_files (host.reset h₁) source (elements tsk.inputs) w in
      let (outputs, h₃) = hash_files (host.reset h₂) (output tsk.id) (get_outputs st.result) w in
      let (followups, h₄) = host.hash_tasks (host.reset h₃) (get_followup_tasks st.result) in
      also_if (not (tsk.executor == st.executor)) "executor" (
        also_if (differs args st.arguments_checksum) "arguments-checksum" (
          also_if (not (deep_equal tsk.inputs st.inputs)) "inputs" (
            also_if (differs inputs st.inputs_checksum) "inputs-checksum" (
              failed_or_differs outputs st.output_checksum "!output-checksum-failed!"
                "output-checksum"
                (failed_or_differs followups st.followup_checksum "!followup-checksum-failed!"
                  "followup-checksum" [])))))

  unfoldable pub detect_state_mismatches : Task → W → List String × Option Result
  detect_state_mismatches tsk w = elim (host.open_state tsk.id w) [
    | some e ↦ ("<state missing>" ∷ [], none)
    | none ↦ elim (host.decode_state tsk.id w) [
      | error e ↦ ("<state decode failed>" ∷ [], none)
      | ok st ↦ (compare_state tsk st w, st.result)
    ]
  ]

-- `hosts` is the file systems of each session.
module _ {W H : Type 0} (hosts : Session → Host W H) (child : Executor W) where
  -- `Execute` of the `statechecker`. The result that it appends is a freshly decoded one.
  unfoldable pub execute : Execute W
  execute session tsk result w =
      let (mismatches, saved) = detect_state_mismatches (hosts session) tsk w in
      elim mismatches [
        | [] ↦ record {
          err = none;
          tsk = tsk;
          result = append_result false result saved;
          world = w;
        }
        | name ∷ names ↦
            let r = child.execute session tsk result w in
            elim r.err [
              | some e ↦ r
              | none ↦
                  let (err, w') = save_state (hosts session) r.tsk r.result r.world in
                  record r { err = err; world = w' }
            ]
      ]

  -- The session methods are those of the child.
  unfoldable pub as_executor : Executor W
  unfolding execute
  as_executor = record {
    execute = execute;
    open_session = child.open_session;
    close_session = child.close_session;
  }
