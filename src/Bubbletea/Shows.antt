-- ===== src/Bubbletea/Shows.antt =====
-- pkg/observer/bubbletea: what the terminal program shows after any messages.
use bonk.Base.{
  String, true, false, List, [], ◌∷◌, Option, none, some, All, ◌==◌, ◌≡◌, ◌≢◌, refl, sym, ◌∙◌, ap,
  inl, inr, Bool-cases, text-cases, Option-cases,
}
use bonk.Base.Text.{NoSep}
use bonk.Errors.{Error}
use bonk.Task.Id.{new_id}
use bonk.Observable.{TaskStatus, TaskStatusMsg}
use bonk.Bubbletea.{TaskNode, Containers, IsContainers}
use bonk.Bubbletea.Top.{shown_at}
use bonk.Bubbletea.Update.{shown_at-update_self, shown_at-update_ne}
use bonk.Bubbletea.Model.{
  Msg, quitting, ends, key, status, other, Model, update_tree, update_model, run,
}

abbrev Shown : Type 0
Shown = Option (TaskStatus × Option Error)

-- The status and the error of the last message of the task before the program ends, or what was shown
-- before.
abbrev pub last_of : String → Shown → List Msg → Shown
last_of id v [] = v
last_of id v (quitting ∷ msgs) = v
last_of id v (status msg ∷ msgs) = elim (msg.task_id == id) [
  | true ↦ last_of id (some (msg.status, msg.error)) msgs
  | false ↦ last_of id v msgs
]
last_of id v (key ctrl code ∷ msgs) = last_of id v msgs
last_of id v (other type_name dump ∷ msgs) = last_of id v msgs

-- The id of a status is made of names without separators.
abbrev pub IsNamed : Msg → Type 0
IsNamed (status msg) =
    (p : String) × (ps : List String) × All NoSep (p ∷ ps) × (msg.task_id ≡ new_id (p ∷ ps))
IsNamed quitting = Unit
IsNamed (key ctrl code) = Unit
IsNamed (other type_name dump) = Unit

last_of_self :
    (id : String) (v : Shown) (msg : TaskStatusMsg) (msgs : List Msg)
    → (msg.task_id == id) ≡ true
    → last_of id v (status msg ∷ msgs) ≡ last_of id (some (msg.status, msg.error)) msgs
last_of_self id v msg msgs b = rw (b, last_of) refl

last_of_ne :
    (id : String) (v : Shown) (msg : TaskStatusMsg) (msgs : List Msg)
    → (msg.task_id == id) ≡ false
    → last_of id v (status msg ∷ msgs) ≡ last_of id v msgs
last_of_ne id v msg msgs b = rw (b, last_of) refl

-- A message of the task decides, whatever was shown before.
last_of-none :
    (id : String) (v : Shown) (msgs : List Msg) (x : TaskStatus × Option Error)
    → last_of id none msgs ≡ some x
    → last_of id v msgs ≡ some x
last_of-none id v [] x h = absurd cc
last_of-none id v (quitting ∷ msgs) x h = absurd cc
last_of-none id v (status msg ∷ msgs) x h = elim (text-cases msg.task_id id) [
  | inl (b, _) ↦ last_of_self id v msg msgs b ∙ sym (last_of_self id none msg msgs b) ∙ h
  | inr (b, _) ↦
      last_of_ne id v msg msgs b
      ∙ last_of-none id v msgs x (sym (last_of_ne id none msg msgs b) ∙ h)
]
last_of-none id v (key ctrl code ∷ msgs) x h = last_of-none id v msgs x h
last_of-none id v (other type_name dump ∷ msgs) x h = last_of-none id v msgs x h

module _ (c : Containers) (law : IsContainers c) (p : String) (ps : List String)
    (names : All NoSep (p ∷ ps)) where
  abbrev id : String
  id = new_id (p ∷ ps)

  -- What a message to the tree leaves: what is due for the task stays due.
  abbrev Step : Msg → List Msg → List TaskNode → Type 0
  Step msg msgs ts =
      (ts' : List TaskNode) × (update_tree c msg ts ≡ some ts')
      × ((x : TaskStatus × Option Error)
          → last_of id (shown_at c (p ∷ ps) ts) (msg ∷ msgs) ≡ some x
          → last_of id (shown_at c (p ∷ ps) ts') msgs ≡ some x)

  step_self :
      (msg : TaskStatusMsg) (msgs : List Msg) (ts : List TaskNode)
      → (msg.task_id == id) ≡ true
      → msg.task_id ≡ id
      → Step (status msg) msgs ts
  unfolding update_tree
  step_self msg msgs ts b same =
      let (ts', u, mine) = shown_at-update_self c law msg p ps ts names same in
      (
        ts',
        u,
        λ x h.
            ap (λ v. last_of id v msgs) mine
            ∙ sym (last_of_self id (shown_at c (p ∷ ps) ts) msg msgs b)
            ∙ h,
      )

  kept_due :
      (msgs : List Msg) (ts ts' : List TaskNode) (x : TaskStatus × Option Error)
      → ((v : TaskStatus × Option Error)
          → shown_at c (p ∷ ps) ts ≡ some v
          → shown_at c (p ∷ ps) ts' ≡ some v)
      → last_of id (shown_at c (p ∷ ps) ts) msgs ≡ some x
      → last_of id (shown_at c (p ∷ ps) ts') msgs ≡ some x
  kept_due msgs ts ts' x keeps h = elim (Option-cases (shown_at c (p ∷ ps) ts)) [
    | inl before ↦
        last_of-none id (shown_at c (p ∷ ps) ts') msgs x
          (ap (λ v. last_of id v msgs) (sym before) ∙ h)
    | inr (v, before) ↦ ap (λ w. last_of id w msgs) (keeps v before ∙ sym before) ∙ h
  ]

  step_status :
      (msg : TaskStatusMsg) (msgs : List Msg) (ts : List TaskNode)
      → IsNamed (status msg)
      → Step (status msg) msgs ts
  unfolding update_tree
  step_status msg msgs ts (q, qs, own, e) = elim (text-cases msg.task_id id) [
    | inl (b, same) ↦ step_self msg msgs ts b same
    | inr (b, ne) ↦
        let (ts', u, _) = shown_at-update_self c law msg q qs ts own e in
        let differ : p ∷ ps ≢ q ∷ qs = λ r. ne (e ∙ ap new_id (sym r)) in
        (
          ts',
          u,
          λ x h.
              kept_due msgs ts ts' x
                (λ v before. shown_at-update_ne c law msg q qs p ps ts ts' v own e u differ before)
                (sym (last_of_ne id (shown_at c (p ∷ ps) ts) msg msgs b) ∙ h),
        )
  ]

  step :
      (msg : Msg) (msgs : List Msg) (ts : List TaskNode)
      → ends msg ≡ false
      → IsNamed msg
      → Step msg msgs ts
  unfolding update_tree
  step quitting msgs ts goes_on named = absurd cc
  step (status msg) msgs ts goes_on named = step_status msg msgs ts named
  step (key ctrl code) msgs ts goes_on named = (ts, refl, λ x h. h)
  step (other type_name dump) msgs ts goes_on named = (ts, refl, λ x h. h)

  run_next :
      (msg : Msg) (msgs : List Msg) (model : Model) (ts : List TaskNode) (end_model : Model)
      → ends msg ≡ false
      → update_tree c msg model.tree ≡ some ts
      → (run c msgs (record model { tree = ts })).0 ≡ some end_model
      → (run c (msg ∷ msgs) model).0 ≡ some end_model
  unfolding run update_model
  run_next msg msgs model ts end_model goes_on e h = rw (goes_on, e, run) h

  run_ends :
      (msg : Msg) (msgs : List Msg) (model : Model)
      → ends msg ≡ true
      → (run c (msg ∷ msgs) model).0 ≡ some model
  unfolding run
  run_ends msg msgs model e = rw (e, run) refl

  last_of-ends :
      (msg : Msg) (msgs : List Msg) (v : Shown) → ends msg ≡ true → last_of id v (msg ∷ msgs) ≡ v
  last_of-ends quitting msgs v e = refl
  last_of-ends (key ctrl code) msgs v e = absurd cc
  last_of-ends (status msg) msgs v e = absurd cc
  last_of-ends (other type_name dump) msgs v e = absurd cc

  -- Let the names of a task have no separator, and let the ids in the messages be made of such names.
  -- Then the program's loop takes the messages up to the one that ends it, if there is one, whatever
  -- keys and other messages stand between them, and after it the task shows the status and the error
  -- of its last message among these; without a message of its own it goes on showing what it showed.
  pub run-last_of :
      (msgs : List Msg) (model : Model)
      → All IsNamed msgs
      → (model' : Model) × ((run c msgs model).0 ≡ some model')
        × ((x : TaskStatus × Option Error)
            → last_of id (shown_at c (p ∷ ps) model.tree) msgs ≡ some x
            → shown_at c (p ∷ ps) model'.tree ≡ some x)
  unfolding run
  run-last_of [] model named = (model, refl, λ x h. h)
  run-last_of (msg ∷ msgs) model (named, more) = elim (Bool-cases (ends msg)) [
    | inl e ↦ (
      model,
      run_ends msg msgs model e,
      λ x h. sym (last_of-ends msg msgs (shown_at c (p ∷ ps) model.tree) e) ∙ h,
    )
    | inr e ↦
        let (ts, u, due) = step msg msgs model.tree e named in
        let (model', ends_, shows) = run-last_of msgs (record model { tree = ts }) more in
        (model', run_next msg msgs model ts model' e u ends_, λ x h. shows x (due x h))
  ]
