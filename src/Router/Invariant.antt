-- ===== src/Router/Invariant.antt =====
-- pkg/executor/router/router.go: well-formed routers: no key has a separator, and no key
-- stands twice.
use bonk.Base.{String, some, ◌≡◌, arith, text-cases, inl, inr, sym}
use bonk.Base.Text.{cut, NoSep, cut-NoSep}
use bonk.Router.{
  Tree, leaf, router, Children, nil, cons, get, set, delete, Registered, registered, refused,
  panicked, unfinished, under, register_executor,
}
use bonk.Router.Entries.{Absent, Absent-set, Absent-delete}
use bonk.Router.Register.{
  Registers, descend, split, duplicate, branch, add, register_executor-Registers,
}

module _ {E : Type 0} where
  abbrev mutual
    pub IsValidTree : Tree E → Type 0
    IsValidTree (leaf e) = Unit
    IsValidTree (router cs) = IsValid cs

    pub IsValid : Children E → Type 0
    IsValid nil = Unit
    IsValid (cons k t rest) = NoSep k × Absent k rest × IsValidTree t × IsValid rest

  pub get-IsValid :
      (k : String) (cs : Children E) (t : Tree E) → IsValid cs → get k cs ≡ some t → IsValidTree t
  unfolding get
  get-IsValid k nil t v h = cc
  get-IsValid k (cons j u rest) t v h = elim (text-cases j k) [
    | inl (e, p) ↦ let same : u ≡ t = ground arith in rw same at v.2
    | inr (e, p) ↦ get-IsValid k rest t v.3 (rw e at h)
  ]

  pub set-IsValid :
      (k : String) (t : Tree E) (cs : Children E)
      → NoSep k
      → IsValidTree t
      → IsValid cs
      → IsValid (set k t cs)
  unfolding set
  set-IsValid k t nil n vt v = (n, tt, vt, tt)
  set-IsValid k t (cons j u rest) n vt v = elim (text-cases j k) [
    | inl (e, p) ↦ rw e (v.0, v.1, vt, v.3)
    | inr (e, p) ↦
        rw e (v.0, Absent-set j k t rest (λ q. p (sym q)) v.1, v.2, set-IsValid k t rest n vt v.3)
  ]

  pub delete-IsValid : (k : String) (cs : Children E) → IsValid cs → IsValid (delete k cs)
  unfolding delete
  delete-IsValid k nil v = tt
  delete-IsValid k (cons j u rest) v = elim (text-cases j k) [
    | inl (e, p) ↦ rw e v.3
    | inr (e, p) ↦ rw e (v.0, Absent-delete j k rest v.1, v.2, delete-IsValid k rest v.3)
  ]

  -- The router that a registration leaves, with an error or without one, is valid.
  abbrev pub LeavesValid : Registered E → Type 0
  LeavesValid (registered cs) = IsValid cs
  LeavesValid (refused e cs) = IsValid cs
  LeavesValid (panicked e) = Unit
  LeavesValid unfinished = Unit

  under-LeavesValid :
      (k : String) (cs : Children E) (r : Registered E)
      → NoSep k
      → IsValid cs
      → LeavesValid r
      → LeavesValid (under k cs r)
  under-LeavesValid k cs (registered sub) n v h = set-IsValid k (router sub) cs n h v
  under-LeavesValid k cs (refused e sub) n v h = set-IsValid k (router sub) cs n h v
  under-LeavesValid k cs (panicked e) n v h = tt
  under-LeavesValid k cs unfinished n v h = tt

  module _ {exec : Tree E} (valid : IsValidTree exec) where
    Registers-LeavesValid :
        {cs : Children E} {name : String} {r : Registered E}
        → Registers exec cs name r
        → IsValid cs
        → LeavesValid r
    Registers-LeavesValid (descend {cs} {sub} {name} {r} g rest p) v = rw p (
        under-LeavesValid (cut name).0 cs r (cut-NoSep name) v
          (Registers-LeavesValid rest (get-IsValid (cut name).0 cs (router sub) v g)))
    Registers-LeavesValid (split {cs} {name} {r} g f rest p) v = rw p (
        under-LeavesValid (cut name).0 cs r (cut-NoSep name) v
          (Registers-LeavesValid rest (tt, tt, tt, tt)))
    Registers-LeavesValid (duplicate g f p) v = rw p v
    Registers-LeavesValid (branch {cs} {name} {r} g f rest p) v =
        rw p
          (under-LeavesValid (cut name).0 cs r (cut-NoSep name) v (Registers-LeavesValid rest tt))
    Registers-LeavesValid (add {cs} {name} g f p) v =
        rw p (set-IsValid (cut name).0 exec cs (cut-NoSep name) valid v)

  -- Registration keeps the router valid, also where it fails.
  pub register_executor-LeavesValid :
      (cs : Children E) (name : String) (exec : Tree E)
      → IsValid cs
      → IsValidTree exec
      → LeavesValid (register_executor cs name exec)
  register_executor-LeavesValid cs name exec v valid =
      Registers-LeavesValid valid (register_executor-Registers cs name exec) v
