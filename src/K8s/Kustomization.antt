-- ===== src/K8s/Kustomization.antt =====
-- plugins/k8s/kustomize/kustomize.go: kustomize run on a kustomization that is written into memory,
-- over the files of the session.
use bonk.Base.{String, List, [], ◌∷◌, Option, none, some}
use bonk.Base.Text.{append}
use bonk.Errors.{Outcome, ok, error}
use bonk.Task.Value.{Task, Session, elements}
use bonk.Task.Result.{Result, add_outputs}
use bonk.Executor.{Returned}
use bonk.K8s.{Action, ◌>>=◌, or_wrap, wrapped, returns, Files}

-- What the code calls of kustomize, of its YAML encoder, and of the copy-on-write file system `O`
-- whose upper layer is in memory. `K` is `types.Kustomization`, `R` a `resmap.ResMap`.
pub record Kustomizer (W K O R : Type 0) : Type 0 where
  pub empty_kustomization : K
  -- `args.Resources = …`
  pub set_resources : List String → K → K
  pub fix_kustomization : K → K
  pub default_file_name : String
  pub over_source : Session → O
  pub create_in : String → O → Outcome O
  pub encode : K → O → Outcome O
  pub close_encoder : O → Outcome O
  pub close_file : O → Outcome O
  -- It reads the files below.
  pub run : O → String → W → Outcome R
  pub as_yaml : R → Outcome String

abbrev pub output : String
output = "kustomized.yaml"

module _ {W F K O R : Type 0} (files : Files W F) (kust : Kustomizer W K O R) where
  -- The kustomization that is written.
  abbrev pub kustomization : Task → Option K → K
  kustomization tsk args =
      let k : K = elim args [ none ↦ kust.empty_kustomization | some k ↦ k ] in
      kust.fix_kustomization (kust.set_resources (elements tsk.inputs) k)

  abbrev pub write_kustomization : Session → K → Action W O
  write_kustomization session k = do
    created ←
        or_wrap "failed to open kustomization file"
          (kust.create_in (append "/" kust.default_file_name) (kust.over_source session))
    encoded ← or_wrap "failed to encode kustomization file as yaml" (kust.encode k created)
    flushed ← or_wrap "failed to close yaml encoder" (kust.close_encoder encoded)
    or_wrap "failed to close yaml file writer" (kust.close_file flushed)

  abbrev pub run_kustomizer : O → Action W R
  run_kustomizer fs w = or_wrap "failed to perform kustomization" (kust.run fs "/" w) w

  abbrev pub write_file : F → String → Action W F
  write_file file contents w =
      let (e, w') = files.write file contents w in
      (elim e [ none ↦ ok file | some x ↦ error x ], w')

  abbrev pub save : Session → Task → String → Action W F
  save session tsk contents = do
    file ← wrapped "failed to create kustomized file" (files.create session tsk.id output)
    wrapped "failed to write kustomized content to file" (write_file file contents)

  abbrev pub add_output : Option Result → F → Action W (Option Result)
  add_output result file w = (ok (add_outputs (output ∷ []) result), w)

  abbrev pub perform : Session → Task → Option K → Option Result → Action W (Option Result)
  perform session tsk args result = do
    fs ← write_kustomization session (kustomization tsk args)
    res_map ← run_kustomizer fs
    contents ← or_wrap "failed to encode kustomized content as yaml" (kust.as_yaml res_map)
    file ← save session tsk contents
    add_output result file

  -- `ExecutorKustomize.Execute`
  unfoldable pub execute : Session → Task → Option K → Option Result → W → Returned W
  unfolding add_outputs ◌>>=◌ or_wrap wrapped
  execute session tsk args result w = returns tsk result (perform session tsk args result w)
