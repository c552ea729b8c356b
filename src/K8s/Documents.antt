-- ===== src/K8s/Documents.antt =====
-- plugins/k8s/resources/resources.go: what the file of a task holds afterwards.
use bonk.Base.{
  String, List, [], ◌∷◌, ◌++◌, map, Option, none, some, ◌≡◌, ◌≢◌, subst, refl, sym, ◌∙◌, ap,
}
use mathlib.Core.List.{append_assoc, append-nil}
use bonk.Errors.{Error, Outcome, ok, error, append_error, append_error-none, message, wrap}
use bonk.Task.Value.{
  Value, nil, bool, int, float, text, opaque, pointer, slice, dict, struct, Values, empty, item,
  elements, Task, Session,
}
use bonk.Task.Result.{Result, add_outputs}
use bonk.Executor.{Returned}
use bonk.K8s.{Files}
use bonk.K8s.Resources.{
  Encoder, output, encode_all, after_encoding, encode_resources, finish, fail, from_file, execute,
}

abbrev pub list_of : Values → List Value
list_of empty = []
list_of (item v vs) = v ∷ list_of vs

-- The documents that stand for a task's resources.
abbrev pub documents_of : Value → List Value
documents_of (slice vs) = list_of vs
documents_of v = v ∷ []

-- Files and encoders as their packages describe them: `documents` reads back what a file holds. A
-- file that is created is empty, whatever it held before, and an encoder adds a document to it. `seen`
-- is the value that the text of a value reads back as: YAML does not tell a pointer from what it
-- points to, a struct from a map, or some floats from integers.
pub record IsYaml {W F : Type 0} (files : Files W F) (encoder : Encoder W F)
    (file_of : Session → String → F) (documents : F → W → List Value) (seen : Value → Value)
    : Type 0 where
  pub created :
      (session : Session) (id : String) (file : F) (w w' : W)
      → files.create session id output w ≡ (ok file, w')
      → (file ≡ file_of session id) × (documents file w' ≡ [])
  pub encoded :
      (file : F) (v : Value) (w w' : W)
      → encoder.encode file v w ≡ (none, w')
      → documents file w' ≡ documents file w ++ (seen v ∷ [])
  pub flushed :
      (file : F) (w w' : W)
      → encoder.close file w ≡ (none, w')
      → documents file w' ≡ documents file w
  pub closed :
      (file : F) (w w' : W) → files.close file w ≡ (none, w') → documents file w' ≡ documents file w

module _ {W F : Type 0} (files : Files W F) (encoder : Encoder W F) (file_of : Session → String → F)
    (documents : F → W → List Value) (seen : Value → Value)
    (law : IsYaml files encoder file_of documents seen) where
  encode_all-documents :
      (file : F) (vs : Values) (err : Option Error) (w : W)
      → (encode_all files encoder file vs err w).0 ≡ none
      → (err ≡ none)
        × (documents file (encode_all files encoder file vs err w).1
            ≡ documents file w ++ map seen (list_of vs))
  encode_all-documents file empty err w h = (h, sym (append-nil (documents file w)))
  encode_all-documents file (item v vs) err w h =
      let now = encoder.encode file v w in
      let (accumulated, rest) = encode_all-documents file vs (append_error err now.0) now.1 h in
      let (before, fine) = append_error-none err now.0 accumulated in
      let one = law.encoded file v w now.1 (ap (λ (o : Option Error). (o, now.1)) fine) in
      (
        before,
        rest ∙ rw one (append_assoc (documents file w) (seen v ∷ []) (map seen (list_of vs))),
      )

  -- What an execution without an error that encodes from `w` on leaves.
  abbrev Leaves : F → Option Result → Returned W → List Value → Type 0
  Leaves file result r vs =
      (documents file r.world ≡ vs) × (r.result ≡ add_outputs (output ∷ []) result)

  some_eq : {a b : Returned W} → some a ≡ some b → a ≡ b
  some_eq e = cc

  finish-documents :
      (file : F) (tsk : Task) (result : Option Result) (w : W) (r : Returned W)
      → finish files encoder file tsk result w ≡ some r
      → r.err ≡ none
      → Leaves file result r (documents file w)
  finish-documents file tsk result w r e fine =
      let flush = encoder.close file w in
      let close = files.close file flush.1 in
      let same = some_eq e in
      let (flushes, closes) =
        append_error-none flush.0 close.0 (ap (λ (t : Returned W). t.err) same ∙ fine) in
      let d = law.flushed file w flush.1 (ap (λ (o : Option Error). (o, flush.1)) flushes) in
      let c = law.closed file flush.1 close.1 (ap (λ (o : Option Error). (o, close.1)) closes) in
      (
        ap (λ (t : Returned W). documents file t.world) (sym same) ∙ c ∙ d,
        ap (λ (t : Returned W). t.result) (sym same),
      )

  fail_lem :
      (tsk : Task) (result : Option Result) (x : Error) (w : W) (r : Returned W)
      → fail files encoder tsk result x w ≡ some r
      → r.err ≢ none
  fail_lem tsk result x w r e fine =
      let bad = ap (λ (t : Returned W). t.err) (some_eq e) ∙ fine in absurd cc

  after_encoding-documents :
      (msg : String) (file : F) (tsk : Task) (result : Option Result) (m : Option Error × W)
      (r : Returned W)
      → after_encoding files encoder msg file tsk result m ≡ some r
      → r.err ≡ none
      → (m.0 ≡ none) × Leaves file result r (documents file m.1)
  after_encoding-documents msg file tsk result (some x, w) r e fine =
      absurd (fail_lem tsk result (wrap msg x) w r e fine)
  after_encoding-documents msg file tsk result (none, w) r e fine =
      (refl, finish-documents file tsk result w r e fine)

  one_document :
      (msg : String) (file : F) (tsk : Task) (result : Option Result) (v : Value) (w : W)
      (r : Returned W)
      → after_encoding files encoder msg file tsk result (encoder.encode file v w) ≡ some r
      → r.err ≡ none
      → documents file w ≡ []
      → Leaves file result r (seen v ∷ [])
  one_document msg file tsk result v w r e fine new =
      let now = encoder.encode file v w in
      let (encodes, (d, o)) = after_encoding-documents msg file tsk result now r e fine in
      let one = law.encoded file v w now.1 (ap (λ (x : Option Error). (x, now.1)) encodes) in
      (d ∙ one ∙ ap (λ (vs : List Value). vs ++ (seen v ∷ [])) new, o)

  many_documents :
      (msg : String) (file : F) (tsk : Task) (result : Option Result) (vs : Values) (w : W)
      (r : Returned W)
      → after_encoding files encoder msg file tsk result (encode_all files encoder file vs none w)
        ≡ some r
      → r.err ≡ none
      → documents file w ≡ []
      → Leaves file result r (map seen (list_of vs))
  many_documents msg file tsk result vs w r e fine new =
      let now = encode_all files encoder file vs none w in
      let (encodes, (d, o)) = after_encoding-documents msg file tsk result now r e fine in
      let all = (encode_all-documents file vs none w encodes).1 in
      (d ∙ all ∙ ap (λ (us : List Value). us ++ map seen (list_of vs)) new, o)

  encode_resources-documents :
      (file : F) (tsk : Task) (resources : Value) (result : Option Result) (w : W) (r : Returned W)
      → encode_resources files encoder file tsk (some resources) result w ≡ some r
      → r.err ≡ none
      → documents file w ≡ []
      → Leaves file result r (map seen (documents_of resources))
  encode_resources-documents file tsk nil result w r e fine new = absurd cc
  encode_resources-documents file tsk (slice vs) result w r e fine new =
      many_documents _ file tsk result vs w r e fine new
  encode_resources-documents file tsk (bool b) result w r e fine new =
      one_document _ file tsk result (bool b) w r e fine new
  encode_resources-documents file tsk (int n) result w r e fine new =
      one_document _ file tsk result (int n) w r e fine new
  encode_resources-documents file tsk (float n) result w r e fine new =
      one_document _ file tsk result (float n) w r e fine new
  encode_resources-documents file tsk (text t) result w r e fine new =
      one_document _ file tsk result (text t) w r e fine new
  encode_resources-documents file tsk (opaque n) result w r e fine new =
      one_document _ file tsk result (opaque n) w r e fine new
  encode_resources-documents file tsk (pointer v) result w r e fine new =
      one_document _ file tsk result (pointer v) w r e fine new
  encode_resources-documents file tsk (dict fs) result w r e fine new =
      one_document _ file tsk result (dict fs) w r e fine new
  encode_resources-documents file tsk (struct fs) result w r e fine new =
      one_document _ file tsk result (struct fs) w r e fine new

  from_file-documents :
      (session : Session) (tsk : Task) (resources : Value) (result : Option Result) (w : W)
      (m : Outcome F × W) (r : Returned W)
      → files.create session tsk.id output w ≡ m
      → from_file files encoder tsk (some resources) result m ≡ some r
      → r.err ≡ none
      → Leaves (file_of session tsk.id) result r (map seen (documents_of resources))
  from_file-documents session tsk resources result w (error x, w') r c e fine =
      absurd (fail_lem tsk result (wrap "failed to create resources yaml" x) w' r e fine)
  from_file-documents session tsk resources result w (ok file, w') r c e fine =
      let (here, new) = law.created session tsk.id file w w' c in
      subst (λ (f : F). Leaves f result r (map seen (documents_of resources))) here
        (encode_resources-documents file tsk resources result w' r e fine new)

  by_inputs :
      (inputs : List String) (session : Session) (tsk : Task) (resources : Value)
      (result : Option Result) (w : W) (r : Returned W)
      → elements tsk.inputs ≡ inputs
      → execute files encoder session tsk (some resources) result w ≡ some r
      → r.err ≡ none
      → Leaves (file_of session tsk.id) result r (map seen (documents_of resources))
  unfolding execute
  by_inputs [] session tsk resources result w r i e fine =
      from_file-documents session tsk resources result w (files.create session tsk.id output w) r
        refl (rw (i, execute) at e) fine
  by_inputs (input ∷ inputs) session tsk resources result w r i e fine = absurd (
      fail_lem tsk result (message "resources task does not accept inputs") w r
        (rw (i, execute) at e) fine)

  -- Let files and the encoder be as documented. If an execution gives no error, then the file
  -- `resources.yaml` of the task holds the resources of its arguments as YAML reads them back, those
  -- of a slice a document each and in order, and nothing of what it held before; and the file is the
  -- output that is added to the result.
  pub execute-documents :
      (session : Session) (tsk : Task) (resources : Value) (result : Option Result) (w : W)
      (r : Returned W)
      → execute files encoder session tsk (some resources) result w ≡ some r
      → r.err ≡ none
      → (documents (file_of session tsk.id) r.world ≡ map seen (documents_of resources))
        × (r.result ≡ add_outputs (output ∷ []) result)
  execute-documents session tsk resources result w r e fine =
      by_inputs (elements tsk.inputs) session tsk resources result w r refl e fine
