-- ===== src/Router/Entries.antt =====
-- pkg/executor/router/router.go: the laws of a router's map of children.
use bonk.Base.{
  ◌≤◌, String, none, some, ◌≡◌, ◌≢◌, refl, ◌==◌, eq_iff, arith, if◌then◌else◌, inl, inr, text-cases,
  Bool-cases,
}
use bonk.Router.{Tree, Children, nil, cons, get, set, delete, depth, depth_children}

module _ {E : Type 0} where
  pub get-set :
      (k j : String) (t : Tree E) (cs : Children E)
      → get j (set k t cs) ≡ (if k == j then some t else get j cs)
  unfolding get set
  get-set k j t nil = refl
  get-set k j t (cons i u rest) =
      ground (arith, eq_iff k j, eq_iff i k, eq_iff i j, get-set k j t rest)

  pub get-set_self : (k : String) (t : Tree E) (cs : Children E) → get k (set k t cs) ≡ some t
  get-set_self k t cs = ground (arith, get-set k k t cs, eq_iff k k)

  pub get-set_ne :
      (k j : String) (t : Tree E) (cs : Children E) → k ≢ j → get j (set k t cs) ≡ get j cs
  get-set_ne k j t cs h = ground (arith, get-set k j t cs, eq_iff k j)

  -- No entry has the key.
  abbrev pub Absent : String → Children E → Type 0
  Absent k nil = Unit
  Absent k (cons j t rest) = (j ≢ k) × Absent k rest

  pub get_of_Absent : (k : String) (cs : Children E) → Absent k cs → get k cs ≡ none
  unfolding get
  get_of_Absent k nil h = refl
  get_of_Absent k (cons j t rest) h = ground (arith, eq_iff j k, get_of_Absent k rest)

  pub Absent-of_get : (k : String) (cs : Children E) → get k cs ≡ none → Absent k cs
  unfolding get
  Absent-of_get k nil h = tt
  Absent-of_get k (cons j t rest) h = elim (text-cases j k) [
    | inl (e, p) ↦ ground arith
    | inr (e, p) ↦ (p, Absent-of_get k rest (rw e at h))
  ]

  pub Absent-set :
      (k j : String) (t : Tree E) (cs : Children E) → j ≢ k → Absent k cs → Absent k (set j t cs)
  unfolding set
  Absent-set k j t nil p h = (p, tt)
  Absent-set k j t (cons i u rest) p h = elim (Bool-cases (i == j)) [
    | inl e ↦ rw e h
    | inr e ↦ rw e (h.0, Absent-set k j t rest p h.1)
  ]

  pub Absent-delete : (k j : String) (cs : Children E) → Absent k cs → Absent k (delete j cs)
  unfolding delete
  Absent-delete k j nil h = tt
  Absent-delete k j (cons i u rest) h = elim (Bool-cases (i == j)) [
    | inl e ↦ rw e h.1
    | inr e ↦ rw e (h.0, Absent-delete k j rest h.1)
  ]

  -- Adding a new entry and deleting it again gives back the map.
  pub delete-set :
      (k : String) (t : Tree E) (cs : Children E) → get k cs ≡ none → delete k (set k t cs) ≡ cs
  unfolding get set delete
  delete-set k t nil h = ground (arith, eq_iff k k)
  delete-set k t (cons j u rest) h = ground (arith, eq_iff j k, delete-set k t rest)

  pub delete_of_Absent : (k : String) (cs : Children E) → Absent k cs → delete k cs ≡ cs
  unfolding delete
  delete_of_Absent k nil h = refl
  delete_of_Absent k (cons j t rest) h = ground (arith, eq_iff j k, delete_of_Absent k rest)

  -- An entry is no deeper than the map.
  pub depth-get :
      (k : String) (cs : Children E) (t : Tree E) → get k cs ≡ some t → depth t ≤ depth_children cs
  unfolding get depth
  depth-get k nil t h = cc
  depth-get k (cons j u rest) t h = ground (arith, depth-get k rest t)
