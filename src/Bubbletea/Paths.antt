-- ===== src/Bubbletea/Paths.antt =====
-- pkg/observer/bubbletea/tasktree.go: the loop of `Update` over the text of an id, beside an
-- insertion at a list of names.
use bonk.Base.{
  ℕ, zero, suc, ◌+◌, ◌<◌, ◌≤◌, String, Bool, true, false, List, [], ◌∷◌, Option, none, some, All,
  ◌≡◌, ◌≢◌, refl, sym, ◌∙◌, ap, subst, arith, inl, inr, text-cases, Bool-cases, Option-cases,
}
use bonk.Base.Text.{cut, size, join, NoSep, cut-append, cut_of_NoSep, size-cut}
use bonk.Errors.{Error}
use bonk.Observable.{TaskStatus, TaskStatusMsg}
use bonk.Bubbletea.{
  TaskNode, node, children, set_value, shown, Containers, IsContainers, new_child, put_child,
  descend,
}

-- The text of the names below a node, and whether there are any.
abbrev pub rest_of : List String → String × Bool
rest_of [] = ("", false)
rest_of (k ∷ ks) = (join (k ∷ ks), true)

pub cut-join :
    (k : String) (ks : List String)
    → NoSep k
    → cut (join (k ∷ ks)) ≡ (k, (rest_of ks).0, (rest_of ks).1)
unfolding join
cut-join k [] h = cut_of_NoSep k h
cut-join k (l ∷ ks) h = cut-append k (join (l ∷ ks)) h

-- Fuel that is enough for the loop.
abbrev pub need : String → Bool → ℕ
need path true = size path + 2
need path false = 1

module _ (c : Containers) where
  -- The insertion of a message at a list of names below a node.
  unfoldable pub insert_path : TaskStatusMsg → List String → TaskNode → TaskNode
  insert_path msg [] t = set_value msg t
  insert_path msg (k ∷ ks) t =
      put_child c k (insert_path msg ks (new_child c k (c.get k (children t)))) t

  -- What is shown at a list of names below a node.
  unfoldable pub shown_below : List String → TaskNode → Option (TaskStatus × Option Error)
  shown_below [] t = some (shown t)
  shown_below (k ∷ ks) t = elim (c.get k (children t)) [ none ↦ none | some u ↦ shown_below ks u ]

  need-rest :
      (fuel : ℕ) (k : String) (ks : List String)
      → NoSep k
      → need (join (k ∷ ks)) true ≤ suc fuel
      → need (rest_of ks).0 (rest_of ks).1 ≤ fuel
  need-rest fuel k [] h n = omega arith
  need-rest fuel k (l ∷ ks) h n =
      let e = cut-join k (l ∷ ks) h in
      let shorter : size (cut (join (k ∷ l ∷ ks))).1 < size (join (k ∷ l ∷ ks)) =
        size-cut (join (k ∷ l ∷ ks)) (ap (λ x. x.2) e) in
      let same : (cut (join (k ∷ l ∷ ks))).1 ≡ join (l ∷ ks) = ap (λ x. x.1) e in
      let shorter' = rw same at shorter in omega arith

  -- A round of the loop, by what `strings.Cut` gives.
  abbrev round : ℕ → TaskStatusMsg → TaskNode → String × String × Bool → Option TaskNode
  round fuel msg t (k, rest, more) =
      elim (descend c fuel msg rest more (new_child c k (c.get k (children t)))) [
        | none ↦ none
        | some child ↦ some (put_child c k child t)
      ]

  descend-round :
      (fuel : ℕ) (msg : TaskStatusMsg) (path : String) (t : TaskNode)
      → descend c (suc fuel) msg path true t ≡ round fuel msg t (cut path)
  unfolding descend
  descend-round fuel msg path t = refl

  round-some :
      (fuel : ℕ) (msg : TaskStatusMsg) (t : TaskNode) (k rest : String) (more : Bool) (u : TaskNode)
      → descend c fuel msg rest more (new_child c k (c.get k (children t))) ≡ some u
      → round fuel msg t (k, rest, more) ≡ some (put_child c k u t)
  round-some fuel msg t k rest more u e = rw (e, round) refl

  need_pos : (path : String) (has : Bool) → need path has ≤ 0 → ⊥
  need_pos path true n = omega arith
  need_pos path false n = omega arith

  descend_last :
      (fuel : ℕ) (msg : TaskStatusMsg) (path : String) (t : TaskNode)
      → descend c (suc fuel) msg path false t ≡ some (set_value msg t)
  unfolding descend
  descend_last fuel msg path t = refl

  pub descend-insert_path :
      (msg : TaskStatusMsg) (ks : List String) (t : TaskNode) (fuel : ℕ)
      → All NoSep ks
      → need (rest_of ks).0 (rest_of ks).1 ≤ fuel
      → descend c fuel msg (rest_of ks).0 (rest_of ks).1 t ≡ some (insert_path msg ks t)
  unfolding descend insert_path
  descend-insert_path msg ks t zero h n = absurd (need_pos (rest_of ks).0 (rest_of ks).1 n)
  descend-insert_path msg [] t (suc fuel) h n = refl
  descend-insert_path msg (k ∷ ks) t (suc fuel) (h, hs) n =
      descend-round fuel msg (join (k ∷ ks)) t
      ∙ ap (round fuel msg t) (cut-join k ks h)
      ∙ round-some fuel msg t k (rest_of ks).0 (rest_of ks).1
          (insert_path msg ks (new_child c k (c.get k (children t))))
          (descend-insert_path msg ks (new_child c k (c.get k (children t))) fuel hs
            (need-rest fuel k ks h n))

  need-cut :
      (fuel : ℕ) (path : String) → need path true ≤ suc fuel → need (cut path).1 (cut path).2 ≤ fuel
  need-cut fuel path n = elim (Bool-cases (cut path).2) [
    | inl e ↦ let shorter = size-cut path e in rw e (omega arith)
    | inr e ↦ rw e (omega arith)
  ]

  -- The loop of any id comes to its end.
  pub descend_total :
      (msg : TaskStatusMsg) (path : String) (has : Bool) (t : TaskNode) (fuel : ℕ)
      → need path has ≤ fuel
      → (t' : TaskNode) × (descend c fuel msg path has t ≡ some t')
  descend_total msg path has t zero n = absurd (need_pos path has n)
  descend_total msg path false t (suc fuel) n = (set_value msg t, descend_last fuel msg path t)
  descend_total msg path true t (suc fuel) n =
      let (k, rest, more) = cut path in
      let (u, e) =
        descend_total msg rest more (new_child c k (c.get k (children t))) fuel
          (need-cut fuel path n) in
      (put_child c k u t, descend-round fuel msg path t ∙ round-some fuel msg t k rest more u e)

  module _ (law : IsContainers c) where
    pub shown_below-insert_path_self :
        (msg : TaskStatusMsg) (ks : List String) (t : TaskNode)
        → shown_below ks (insert_path msg ks t) ≡ some (msg.status, msg.error)
    unfolding shown_below insert_path
    shown_below-insert_path_self msg [] (node n st e cs) = refl
    shown_below-insert_path_self msg (k ∷ ks) (node n st e cs) =
        let child = insert_path msg ks (new_child c k (c.get k cs)) in
        rw (law.get-set_self k child cs, shown_below)
          (shown_below-insert_path_self msg ks (new_child c k (c.get k cs)))

    shown_below-get :
        (q : String) (qs : List String) (t u : TaskNode)
        → c.get q (children t) ≡ some u
        → shown_below (q ∷ qs) t ≡ shown_below qs u
    unfolding shown_below
    shown_below-get q qs t u g = rw (g, shown_below) refl

    shown_below-none :
        (q : String) (qs : List String) (t : TaskNode)
        → c.get q (children t) ≡ none
        → shown_below (q ∷ qs) t ≡ none
    unfolding shown_below
    shown_below-none q qs t g = rw (g, shown_below) refl

    shown_below_same :
        (q : String) (qs : List String) (t u : TaskNode)
        → c.get q (children t) ≡ c.get q (children u)
        → shown_below (q ∷ qs) t ≡ shown_below (q ∷ qs) u
    unfolding shown_below
    shown_below_same q qs t u g = rw (g, shown_below) refl

    -- An insertion keeps what is shown elsewhere.
    pub shown_below-insert_path_ne :
        (msg : TaskStatusMsg) (ks qs : List String) (t : TaskNode) (v : TaskStatus × Option Error)
        → qs ≢ ks
        → shown_below qs t ≡ some v
        → shown_below qs (insert_path msg ks t) ≡ some v
    unfolding shown_below insert_path
    shown_below-insert_path_ne msg [] [] t v ne h = absurd (ne refl)
    shown_below-insert_path_ne msg [] (q ∷ qs) (node n st e cs) v ne h = h
    shown_below-insert_path_ne msg (k ∷ ks) [] (node n st e cs) v ne h = h
    shown_below-insert_path_ne msg (k ∷ ks) (q ∷ qs) (node n st e cs) v ne h =
        elim (text-cases q k) [
          | inl (b, same) ↦ elim (Option-cases (c.get q cs)) [
            | inl g ↦ let p = shown_below-none q qs (node n st e cs) g in cc
            | inr (u, g) ↦
                let below = sym (shown_below-get q qs (node n st e cs) u g) ∙ h in
                let gk : c.get k cs ≡ some u = subst (λ z. c.get z cs ≡ some u) same g in
                let child = insert_path msg ks (new_child c k (c.get k cs)) in
                let differ : qs ≢ ks = λ p. ne (cc) in
                rw same (
                  shown_below-get k qs (node n st e (c.set k child cs)) child
                    (law.get-set_self k child cs)
                  ∙ ap (λ o. shown_below qs (insert_path msg ks (new_child c k o))) gk
                  ∙ shown_below-insert_path_ne msg ks qs u v differ below)
          ]
          | inr (b, other) ↦
              let child = insert_path msg ks (new_child c k (c.get k cs)) in
              shown_below_same q qs (node n st e (c.set k child cs)) (node n st e cs)
                (law.get-set_ne k q child cs other)
              ∙ h
        ]
