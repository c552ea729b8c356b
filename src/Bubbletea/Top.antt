-- ===== src/Bubbletea/Top.antt =====
-- pkg/observer/bubbletea/tasktree.go: the search in the top level of the tree.
use bonk.Base.{
  String, false, List, [], ◌∷◌, ◌++◌, Option, none, some, if◌then◌else◌, ◌==◌, ◌≡◌, ◌≢◌, ◌⊎◌, refl,
  sym, ◌∙◌, arith, inl, inr, eq_refl, text-cases, Bool-cases,
}
use bonk.Errors.{Error}
use bonk.Observable.{TaskStatus}
use bonk.Bubbletea.{
  TaskNode, name, Containers, make_task_node, new_child, absent, changed, update_top,
}
use bonk.Bubbletea.Paths.{shown_below}

module _ (c : Containers) where
  -- The first node of that name in the top level.
  unfoldable pub find : String → List TaskNode → Option TaskNode
  find p [] = none
  find p (t ∷ ts) = if name t == p then some t else find p ts

  -- What is shown for the task with these names.
  unfoldable pub shown_at : List String → List TaskNode → Option (TaskStatus × Option Error)
  unfolding find shown_below
  shown_at [] ts = none
  shown_at (p ∷ ps) ts = elim (find p ts) [ none ↦ none | some t ↦ shown_below c ps t ]

  module _ (g : TaskNode → TaskNode) (p : String) where
    -- The reference: the first node of the name is changed, or a new one is put at the end.
    unfoldable pub insert_top : List TaskNode → List TaskNode
    insert_top [] = g (make_task_node c p) ∷ []
    insert_top (t ∷ ts) = if name t == p then g t ∷ ts else t ∷ insert_top ts

    abbrev pub Searches : (TaskNode → Option TaskNode) → List TaskNode → Type 0
    Searches f ts =
        ((update_top c p f ts ≡ absent) × (insert_top ts ≡ ts ++ (g (make_task_node c p) ∷ [])))
        ⊎ (update_top c p f ts ≡ changed (insert_top ts))

    pub searches :
        (f : TaskNode → Option TaskNode)
        → ((t : TaskNode) → f t ≡ some (g t))
        → (ts : List TaskNode) → Searches f ts
    unfolding update_top insert_top
    searches f fg [] = inl (refl, refl)
    searches f fg (t ∷ ts) = elim (Bool-cases (name t == p)) [
      | inl e ↦ inr (rw (e, update_top) (rw (fg t) refl))
      | inr e ↦ elim (searches f fg ts) [
        | inl (a, b) ↦ inl (ground (arith, e, a), ground (arith, e, b))
        | inr a ↦ inr (ground (arith, e, a))
      ]
    ]

    named_other : (t : TaskNode) (q : String) → name t ≡ p → q ≢ p → (name t == q) ≡ false
    named_other t q e ne = elim (text-cases (name t) q) [
      | inl (b, same) ↦ absurd (ne (sym same ∙ e))
      | inr (b, other) ↦ b
    ]

    module _ (keeps : (t : TaskNode) → name (g t) ≡ name t) where
      pub find-insert_top_self :
          (ts : List TaskNode) → find p (insert_top ts) ≡ some (g (new_child c p (find p ts)))
      unfolding find insert_top
      find-insert_top_self [] = let e = keeps (make_task_node c p) in ground (arith, e, eq_refl p)
      find-insert_top_self (t ∷ ts) = elim (Bool-cases (name t == p)) [
        | inl e ↦ let k = keeps t in ground (arith, e, k)
        | inr e ↦ let ih = find-insert_top_self ts in ground (arith, e, ih)
      ]

      pub find-insert_top_ne :
          (q : String) (ts : List TaskNode) → q ≢ p → find q (insert_top ts) ≡ find q ts
      unfolding find insert_top
      find-insert_top_ne q [] ne =
          let other = named_other (g (make_task_node c p)) q (keeps (make_task_node c p)) ne in
          ground (arith, other)
      find-insert_top_ne q (t ∷ ts) ne = elim (text-cases (name t) p) [
        | inl (e, same) ↦
            let before = named_other t q same ne in
            let after = named_other (g t) q (keeps t ∙ same) ne in ground (arith, e, before, after)
        | inr (e, other) ↦ let ih = find-insert_top_ne q ts ne in ground (arith, e, ih)
      ]
