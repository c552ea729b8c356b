-- ===== src/K8s/Resources.antt =====
-- plugins/k8s/resources/resources.go: resources written to a file, a YAML document for each.
use bonk.Base.{String, [], ◌∷◌, Option, none, some}
use bonk.Errors.{Error, Outcome, ok, error, message, wrap, append_error}
use bonk.Task.Value.{Value, nil, slice, Values, empty, item, elements, Task, Session}
use bonk.Task.Result.{Result, add_outputs}
use bonk.Executor.{Returned}
use bonk.K8s.{Files}

-- `yaml.NewEncoder` over a file.
pub record Encoder (W F : Type 0) : Type 0 where
  pub encode : F → Value → W → Option Error × W
  pub close : F → W → Option Error × W

abbrev pub output : String
output = "resources.yaml"

module _ {W F : Type 0} (files : Files W F) (encoder : Encoder W F) where
  -- The loop over a slice, which goes on after an error.
  abbrev pub encode_all : F → Values → Option Error → W → Option Error × W
  encode_all file empty err w = (err, w)
  encode_all file (item v vs) err w =
      let (e, w') = encoder.encode file v w in encode_all file vs (append_error err e) w'

  abbrev pub fail : Task → Option Result → Error → W → Option (Returned W)
  fail tsk result e w = some (record { err = some e; tsk = tsk; result = result; world = w })

  -- From `res.AddOutputs(output)` on.
  abbrev pub finish : F → Task → Option Result → W → Option (Returned W)
  finish file tsk result w =
      let (e, w1) = encoder.close file w in
      let (d, w2) = files.close file w1 in
      some (record {
        err = append_error e d;
        tsk = tsk;
        result = add_outputs (output ∷ []) result;
        world = w2;
      })

  -- What follows an encoding that gave `err`.
  abbrev pub after_encoding :
      String → F → Task → Option Result → Option Error × W → Option (Returned W)
  after_encoding msg file tsk result (some e, w) = fail tsk result (wrap msg e) w
  after_encoding msg file tsk result (none, w) = finish file tsk result w

  -- The switch. A task without arguments has no parameters to read, and `reflect.ValueOf(nil).Type()`
  -- panics too: `none`.
  abbrev pub encode_resources : F → Task → Option Value → Option Result → W → Option (Returned W)
  encode_resources file tsk none result w = none
  encode_resources file tsk (some nil) result w = none
  encode_resources file tsk (some (slice vs)) result w =
      after_encoding "failed to encode resources as yaml" file tsk result
        (encode_all file vs none w)
  encode_resources file tsk (some v) result w =
      after_encoding "failed to encode resources to file" file tsk result (encoder.encode file v w)

  abbrev pub from_file : Task → Option Value → Option Result → Outcome F × W → Option (Returned W)
  from_file tsk resources result (error e, w) =
      fail tsk result (wrap "failed to create resources yaml" e) w
  from_file tsk resources result (ok file, w) = encode_resources file tsk resources result w

  -- `ExecutorResources.Execute`
  unfoldable pub execute : Session → Task → Option Value → Option Result → W → Option (Returned W)
  unfolding add_outputs
  execute session tsk resources result w = elim (elements tsk.inputs) [
    | input ∷ inputs ↦ fail tsk result (message "resources task does not accept inputs") w
    | [] ↦ from_file tsk resources result (files.create session tsk.id output w)
  ]
