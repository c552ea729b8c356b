-- ===== src/Bubbletea/Update.antt =====
-- pkg/observer/bubbletea/tasktree.go: `Update` of the whole tree, beside an insertion at a list of
-- names.
use bonk.Base.{
  ◌+◌, ◌≤◌, String, Bool, true, false, List, [], ◌∷◌, Option, none, some, All, ◌==◌, ◌≡◌, ◌≢◌, ◌⊎◌,
  refl, sym, ◌∙◌, ap, subst, arith, inl, inr, text-cases, Bool-cases, Option-cases,
}
use mathlib.Core.Option.{some-injective}
use bonk.Base.Text.{cut, size, NoSep}
use bonk.Errors.{Error}
use bonk.Task.Id.{new_id}
use bonk.Observable.{TaskStatus, TaskStatusMsg}
use bonk.Bubbletea.{
  TaskNode, node, name, Containers, IsContainers, make_task_node, new_child, descend, absent,
  changed, update_top, update_cut, update,
}
use bonk.Bubbletea.Paths.{
  rest_of, cut-join, need, insert_path, shown_below, descend-insert_path, descend_total,
  shown_below-insert_path_self, shown_below-insert_path_ne,
}
use bonk.Bubbletea.Top.{
  find, shown_at, insert_top, Searches, searches, find-insert_top_self, find-insert_top_ne,
}

module _ (c : Containers) where
  name-insert_path :
      (msg : TaskStatusMsg) (ps : List String) (t : TaskNode)
      → name (insert_path c msg ps t) ≡ name t
  unfolding insert_path
  name-insert_path msg [] (node n st e cs) = refl
  name-insert_path msg (p ∷ ps) (node n st e cs) = refl

  inserted : TaskStatusMsg → String → List String → List TaskNode → List TaskNode
  inserted msg p ps ts = insert_top c (insert_path c msg ps) p ts

  shown_at-find :
      (p : String) (ps : List String) (ts : List TaskNode) (t : TaskNode)
      → find c p ts ≡ some t
      → shown_at c (p ∷ ps) ts ≡ shown_below c ps t
  unfolding shown_at
  shown_at-find p ps ts t e = rw (e, shown_at) refl

  shown_at-find-none :
      (p : String) (ps : List String) (ts : List TaskNode)
      → find c p ts ≡ none
      → shown_at c (p ∷ ps) ts ≡ none
  unfolding shown_at
  shown_at-find-none p ps ts e = rw (e, shown_at) refl

  shown_at_same :
      (p : String) (ps : List String) (ts us : List TaskNode)
      → find c p ts ≡ find c p us
      → shown_at c (p ∷ ps) ts ≡ shown_at c (p ∷ ps) us
  unfolding shown_at
  shown_at_same p ps ts us e = rw (e, shown_at) refl

  enough : (path : String) (has : Bool) → need path has ≤ size path + 2
  enough path true = omega arith
  enough path false = omega arith

  module _ (law : IsContainers c) (msg : TaskStatusMsg) (p : String) (ps : List String) where
    -- What the search in the top level leads to.
    update_cut-Searches :
        (path : String) (has : Bool) (ts : List TaskNode)
        → ((t : TaskNode)
            → descend c (size path + 2) msg path has t ≡ some (insert_path c msg ps t))
        → Searches c (insert_path c msg ps) p (descend c (size path + 2) msg path has) ts
        → update_cut c msg ts (p, path, has) ≡ some (inserted msg p ps ts)
    unfolding inserted
    update_cut-Searches path has ts fg (inl (a, b)) =
        let new : descend c (size path + 2) msg path has (make_task_node c p)
            ≡ some (insert_path c msg ps (make_task_node c p)) =
          fg (make_task_node c p) in
        rw (a, update_cut) (rw new (ap (λ l. some l) (law.added_last _ ts ∙ sym b)))
    update_cut-Searches path has ts fg (inr a) = rw (a, update_cut) refl

    need_rest_enough : need (rest_of ps).0 (rest_of ps).1 ≤ size (rest_of ps).0 + 2
    need_rest_enough = enough (rest_of ps).0 (rest_of ps).1

    -- For the id that is made of names without separators, `Update` is the insertion at the names.
    update-inserted :
        (ts : List TaskNode)
        → All NoSep (p ∷ ps)
        → msg.task_id ≡ new_id (p ∷ ps)
        → update c msg ts ≡ some (inserted msg p ps ts)
    unfolding update new_id
    update-inserted ts (h, hs) e =
        let f = descend c (size (rest_of ps).0 + 2) msg (rest_of ps).0 (rest_of ps).1 in
        let fg : (t : TaskNode) → f t ≡ some (insert_path c msg ps t) =
          λ t. descend-insert_path c msg ps t (size (rest_of ps).0 + 2) hs need_rest_enough in
        ap (λ i. update_cut c msg ts (cut i)) e
        ∙ ap (update_cut c msg ts) (cut-join p ps h)
        ∙ update_cut-Searches (rest_of ps).0 (rest_of ps).1 ts fg
            (searches c (insert_path c msg ps) p f fg ts)

    -- Let the id of the message be made of names without separators. Then `Update` ends, and the task
    -- of the message shows its status and error, whether or not there was a node for it.
    pub shown_at-update_self :
        (ts : List TaskNode)
        → All NoSep (p ∷ ps)
        → msg.task_id ≡ new_id (p ∷ ps)
        → (ts' : List TaskNode) × (update c msg ts ≡ some ts')
          × (shown_at c (p ∷ ps) ts' ≡ some (msg.status, msg.error))
    unfolding inserted
    shown_at-update_self ts h e = (
      inserted msg p ps ts,
      update-inserted ts h e,
      shown_at-find p ps (inserted msg p ps ts) _
            (find-insert_top_self c (insert_path c msg ps) p (name-insert_path msg ps) ts)
          ∙ shown_below-insert_path_self c law msg ps (new_child c p (find c p ts)),
    )

    shown_at-inserted_ne :
        (q : String) (qs : List String) (ts : List TaskNode) (v : TaskStatus × Option Error)
        → q ∷ qs ≢ p ∷ ps
        → shown_at c (q ∷ qs) ts ≡ some v
        → shown_at c (q ∷ qs) (inserted msg p ps ts) ≡ some v
    unfolding inserted
    shown_at-inserted_ne q qs ts v ne s = elim (text-cases q p) [
      | inl (b, same) ↦ elim (Option-cases (find c q ts)) [
        | inl g ↦ let p = shown_at-find-none q qs ts g in cc
        | inr (t, g) ↦
            let gp : find c p ts ≡ some t = subst (λ z. find c z ts ≡ some t) same g in
            let differ : qs ≢ ps = λ w. ne cc in
            rw same (
              shown_at-find p qs (inserted msg p ps ts) _
                (find-insert_top_self c (insert_path c msg ps) p (name-insert_path msg ps) ts)
              ∙ ap (λ o. shown_below c qs (insert_path c msg ps (new_child c p o))) gp
              ∙ shown_below-insert_path_ne c law msg ps qs t v differ
                  (sym (shown_at-find q qs ts t g) ∙ s))
      ]
      | inr (b, other) ↦
          shown_at_same q qs (inserted msg p ps ts) ts
            (find-insert_top_ne c (insert_path c msg ps) p (name-insert_path msg ps) q ts other)
          ∙ s
    ]

    -- Let the id of the message be made of names without separators. Then `Update` keeps what every
    -- other task shows.
    pub shown_at-update_ne :
        (q : String) (qs : List String) (ts ts' : List TaskNode) (v : TaskStatus × Option Error)
        → All NoSep (p ∷ ps)
        → msg.task_id ≡ new_id (p ∷ ps)
        → update c msg ts ≡ some ts'
        → q ∷ qs ≢ p ∷ ps
        → shown_at c (q ∷ qs) ts ≡ some v
        → shown_at c (q ∷ qs) ts' ≡ some v
    shown_at-update_ne q qs ts ts' v h e u ne s =
        let same : ts' ≡ inserted msg p ps ts =
          some-injective _ _ (sym u ∙ update-inserted ts h e) in
        rw same (shown_at-inserted_ne q qs ts v ne s)

  module _ (f : TaskNode → Option TaskNode)
      (total : (t : TaskNode) → (t' : TaskNode) × (f t ≡ some t')) where
    update_top_total :
        (p : String) (ts : List TaskNode)
        → (update_top c p f ts ≡ absent)
          ⊎ ((ts' : List TaskNode) × (update_top c p f ts ≡ changed ts'))
    unfolding update_top
    update_top_total p [] = inl refl
    update_top_total p (t ∷ ts) = elim (Bool-cases (name t == p)) [
      | inl e ↦ let (t', h) = total t in inr (t' ∷ ts, rw (e, update_top) (rw h refl))
      | inr e ↦ elim (update_top_total p ts) [
        | inl a ↦ inl (ground (arith, e, a))
        | inr (ts', a) ↦ inr (t ∷ ts', ground (arith, e, a))
      ]
    ]

  -- `Update` ends for every message, whatever its id and whatever tree is shown.
  update_total :
      (msg : TaskStatusMsg) (ts : List TaskNode)
      → (ts' : List TaskNode) × (update c msg ts ≡ some ts')
  unfolding update
  update_total msg ts =
      let (p, path, has) = cut msg.task_id in
      let f = descend c (size path + 2) msg path has in
      let total : (t : TaskNode) → (t' : TaskNode) × (f t ≡ some t') =
        λ t. descend_total c msg path has t (size path + 2) (enough path has) in
      elim (update_top_total f total p ts) [
        | inr (ts', a) ↦ (ts', rw (a, update_cut) refl)
        | inl a ↦
            let (t, h) = total (make_task_node c p) in
            (c.add_child t ts, rw (a, update_cut) (rw h refl))
      ]
