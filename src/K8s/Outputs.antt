-- ===== src/K8s/Outputs.antt =====
-- plugins/k8s/kustomize/kustomize.go: what a failed execution leaves.
use bonk.Base.{String, [], ◌∷◌, Option, none, some, ◌⊎◌, inl, inr, ◌≡◌, refl, sym, ◌∙◌, subst}
use bonk.Errors.{Error, Outcome, ok, error, wrap}
use bonk.Task.Value.{Task, Session}
use bonk.Task.Result.{Result, add_outputs}
use bonk.K8s.{Action, ◌>>=◌, or_wrap, wrapped, returns, after, Files}
use bonk.K8s.Kustomization.{
  Kustomizer, output, kustomization, write_kustomization, write_file, save, add_output, perform,
  execute,
}

-- The two calls that reach the files of the session.
abbrev pub IsLate : Error → Type 0
IsLate e =
    ((d : Error) × (e ≡ wrap "failed to create kustomized file" d))
    ⊎ ((d : Error) × (e ≡ wrap "failed to write kustomized content to file" d))

module _ {W : Type 0} where
  -- The call leaves the world.
  abbrev IsQuiet : {A : Type 0} → Action W A → Type 0
  IsQuiet m = (w : W) → (m w).1 ≡ w

  or_wrap-IsQuiet : {A : Type 0} (msg : String) (x : Outcome A) → IsQuiet (or_wrap {W = W} msg x)
  unfolding or_wrap
  or_wrap-IsQuiet msg (ok a) w = refl
  or_wrap-IsQuiet msg (error e) w = refl

  after-IsQuiet :
      {A B : Type 0} (f : A → Action W B) (x : Outcome A) (w' w : W)
      → w' ≡ w
      → ((a : A) → IsQuiet (f a))
      → (after f x w').1 ≡ w
  after-IsQuiet f (ok a) w' w same k = k a w' ∙ same
  after-IsQuiet f (error e) w' w same k = same

  bind-IsQuiet :
      {A B : Type 0} (m : Action W A) (f : A → Action W B)
      → IsQuiet m
      → ((a : A) → IsQuiet (f a))
      → IsQuiet (m >>= f)
  unfolding ◌>>=◌
  bind-IsQuiet m f h k w = after-IsQuiet f (m w).0 (m w).1 w (h w) k

  -- From `w` on: the result of an execution that saves its output, or an error.
  abbrev pub Ends : Option Result → W → Outcome (Option Result) × W → Type 0
  Ends result w (ok r, w') = r ≡ add_outputs (output ∷ []) result
  Ends result w (error e, w') = (w' ≡ w) ⊎ IsLate e

  after-Ends :
      {A : Type 0} (result : Option Result) (f : A → Action W (Option Result)) (x : Outcome A)
      (w' w : W)
      → w' ≡ w
      → ((a : A) → Ends result w (f a w))
      → Ends result w (after f x w')
  after-Ends result f (ok a) w' w same k = subst (λ (v : W). Ends result w (f a v)) (sym same) (k a)
  after-Ends result f (error e) w' w same k = inl same

  bind-Ends :
      {A : Type 0} (result : Option Result) (m : Action W A) (f : A → Action W (Option Result))
      (w : W)
      → IsQuiet m
      → ((a : A) → Ends result w (f a w))
      → Ends result w ((m >>= f) w)
  unfolding ◌>>=◌
  bind-Ends result m f w h k = after-Ends result f (m w).0 (m w).1 w (h w) k

module _ {W F K O R : Type 0} (files : Files W F) (kust : Kustomizer W K O R) where
  write_kustomization-IsQuiet :
      (session : Session) (k : K) → IsQuiet (write_kustomization files kust session k)
  write_kustomization-IsQuiet session k = bind-IsQuiet _ _ (or_wrap-IsQuiet _ _) (λ created.
      bind-IsQuiet _ _ (or_wrap-IsQuiet _ _)
        (λ encoded. bind-IsQuiet _ _ (or_wrap-IsQuiet _ _) (λ flushed. or_wrap-IsQuiet _ _)))

  -- A call whose error is wrapped late.
  wrapped-Ends :
      {A : Type 0} (result : Option Result) (msg : String) (x : Outcome A) (w' w : W)
      (f : A → Action W (Option Result))
      → ((d : Error) → IsLate (wrap msg d))
      → ((a : A) (v : W) → Ends result w (f a v))
      → Ends result w (after f (or_wrap msg x w').0 (or_wrap msg x w').1)
  unfolding or_wrap
  wrapped-Ends result msg (ok a) w' w f late k = k a w'
  wrapped-Ends result msg (error e) w' w f late k = inr (late e)

  created-Ends :
      (contents : String) (result : Option Result) (x : Outcome F) (w' w : W)
      → let write = (λ (file : F).
        wrapped "failed to write kustomized content to file"
          (write_file files kust file contents)) in
        let made = or_wrap "failed to create kustomized file" x w' in
        Ends result w (
          after
            (add_output files kust result)
            (after write made.0 made.1).0
            (after write made.0 made.1).1)
  unfolding or_wrap wrapped
  created-Ends contents result (ok file) w' w =
      let write = write_file files kust file contents w' in
      wrapped-Ends result "failed to write kustomized content to file" write.0 write.1 w
        (add_output files kust result) (λ d. inr (d, refl)) (λ a v. refl)
  created-Ends contents result (error e) w' w = inr (inl (e, refl))

  save-Ends :
      (session : Session) (tsk : Task) (contents : String) (result : Option Result) (w : W)
      → Ends result w ((save files kust session tsk contents >>= add_output files kust result) w)
  unfolding ◌>>=◌ wrapped
  save-Ends session tsk contents result w =
      let made = files.create session tsk.id output w in
      created-Ends contents result made.0 made.1 w

  perform-Ends :
      (session : Session) (tsk : Task) (args : Option K) (result : Option Result) (w : W)
      → Ends result w (perform files kust session tsk args result w)
  perform-Ends session tsk args result w =
      bind-Ends result _ _ w
        (write_kustomization-IsQuiet session (kustomization files kust tsk args))
        (λ fs.
          bind-Ends result _ _ w (λ v. or_wrap-IsQuiet _ _ v)
            (λ res_map.
              bind-Ends result _ _ w (or_wrap-IsQuiet _ _)
                (λ contents. save-Ends session tsk contents result w)))

  returned :
      (tsk : Task) (result : Option Result) (w : W) (x : Outcome (Option Result) × W)
      → Ends result w x
      → (((returns tsk result x).err ≡ none)
          × ((returns tsk result x).result ≡ add_outputs (output ∷ []) result))
        ⊎ ((e : Error) × ((returns tsk result x).err ≡ some e)
            × ((returns tsk result x).result ≡ result)
            × (((returns tsk result x).world ≡ w) ⊎ IsLate e))
  returned tsk result w (ok r, w') h = inl (refl, h)
  returned tsk result w (error e, w') h = inr (e, refl, refl, h)

  -- An execution either gives no error and adds the file `kustomized.yaml` to the outputs, or gives an
  -- error and leaves the result as it was. Then it also leaves the world as it was, unless the error
  -- is that of creating or writing the output file.
  execute-outputs :
      (session : Session) (tsk : Task) (args : Option K) (result : Option Result) (w : W)
      → (((execute files kust session tsk args result w).err ≡ none)
          × ((execute files kust session tsk args result w).result
              ≡ add_outputs (output ∷ []) result))
        ⊎ ((e : Error) × ((execute files kust session tsk args result w).err ≡ some e)
            × ((execute files kust session tsk args result w).result ≡ result)
            × (((execute files kust session tsk args result w).world ≡ w) ⊎ IsLate e))
  unfolding execute
  execute-outputs session tsk args result w =
      returned tsk result w (perform files kust session tsk args result w)
        (perform-Ends session tsk args result w)
