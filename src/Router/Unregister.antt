-- ===== src/Router/Unregister.antt =====
-- pkg/executor/router/router.go: `UnregisterExecutors`.
use bonk.Base.{
  String, true, Option, none, some, List, [], ◌∷◌, ◌≡◌, refl, sym, ◌∙◌, ap, subst, arith, ◌==◌,
  Bool-cases, inl, inr, All, if◌then◌else◌,
}
use mathlib.Core.List.{head-eq_of_cons-eq, tail-eq_of_cons-eq}
use mathlib.Core.Option
use mathlib.Core.Option.{some-injective}
use bonk.Base.Text.{cut, NoSep, cut_of_NoSep, cut-NoSep}
use bonk.Router.{
  Tree, leaf, router, Children, nil, cons, get, set, delete, Registered, registered,
  register_executor, has_children, unregister_round, unregister_tree, unregister_under,
  unregister_executors, children_left, Unregistered, stopped, goes_on,
}
use bonk.Router.Entries.{Absent, get-set_self, delete-set, delete_of_Absent}
use bonk.Router.Invariant.{IsValid, IsValidTree, set-IsValid, delete-IsValid}

module _ {E : Type 0} where
  abbrev pub keys : Children E → List String
  keys nil = []
  keys (cons k t rest) = k ∷ keys rest

  unregister_under-get :
      (key : String) (cs : Children E)
      → unregister_under key cs ≡ Option.map unregister_tree (get key cs)
  unfolding unregister_tree get
  unregister_under-get key nil = refl
  unregister_under-get key (cons k child rest) = elim (Bool-cases (k == key)) [
    | inl e ↦ rw e
    | inr e ↦ rw e (unregister_under-get key rest)
  ]

  -- The router that one round of the loop leaves.
  abbrev round : Children E → String → Children E
  round cs name = children_left (unregister_round cs name (unregister_under (cut name).0 cs))

  -- One round leaves one of four routers.
  module _ (P : Children E → Type 0) (cs : Children E) (name : String) where
    keep_or_delete :
        (sub cs' : Children E)
        → P cs'
        → P (delete name cs')
        → P (children_left (if has_children sub then stopped cs' else goes_on (delete name cs')))
    keep_or_delete nil cs' p q = q
    keep_or_delete (cons k t rest) cs' p q = p

    round_child :
        (child : String → Option (Children E)) (left : Option (Children E))
        → child (cut name).1 ≡ left
        → P (delete name cs)
        → ((sub : Children E)
            → left ≡ some sub
            → P (set (cut name).0 (router sub) cs)
              × P (delete name (set (cut name).0 (router sub) cs)))
        → P (children_left (unregister_round cs name (some child)))
    unfolding unregister_round
    round_child child none e gone kept = rw (e, children_left, unregister_round) gone
    round_child child (some sub) e gone kept =
        rw (e, children_left, unregister_round)
          (keep_or_delete sub (set (cut name).0 (router sub) cs) (kept sub refl).0
            (kept sub refl).1)

    round_cases :
        (o : Option (Tree E))
        → get (cut name).0 cs ≡ o
        → P cs
        → P (delete name cs)
        → ((t : Tree E) (sub : Children E)
            → get (cut name).0 cs ≡ some t
            → unregister_tree t (cut name).1 ≡ some sub
            → P (set (cut name).0 (router sub) cs)
              × P (delete name (set (cut name).0 (router sub) cs)))
        → P (round cs name)
    unfolding unregister_round
    round_cases none e same gone kept = rw (unregister_under-get, e) same
    round_cases (some t) e same gone kept =
        rw (unregister_under-get, e)
          (round_child (unregister_tree t) (unregister_tree t (cut name).1) refl gone
            (λ sub f. kept t sub e f))

  round-IsValid :
      (cs : Children E) (name : String)
      → IsValid cs
      → ((t : Tree E) (sub : Children E)
          → get (cut name).0 cs ≡ some t
          → unregister_tree t (cut name).1 ≡ some sub
          → IsValid sub)
      → IsValid (round cs name)
  round-IsValid cs name v below =
      round_cases IsValid cs name (get (cut name).0 cs) refl v (delete-IsValid name cs v)
        λ t sub g f.
          let v' = set-IsValid (cut name).0 (router sub) cs (cut-NoSep name) (below t sub g f) v in
          (v', delete-IsValid name _ v')

  mutual
    unfolding unregister_tree get

    unregister_tree-IsValid :
        (t : Tree E) (name : String) (sub : Children E)
        → IsValidTree t
        → unregister_tree t name ≡ some sub
        → IsValid sub
    unregister_tree-IsValid (leaf e) name sub v h = cc
    unregister_tree-IsValid (router cs) name sub v h = rw (← some-injective _ _ h) (
        round-IsValid cs name v
          (λ t sub' g f. entry-IsValid cs (cut name).0 t (cut name).1 sub' v g f))

    entry-IsValid :
        (cs : Children E) (key : String) (t : Tree E) (name : String) (sub : Children E)
        → IsValid cs
        → get key cs ≡ some t
        → unregister_tree t name ≡ some sub
        → IsValid sub
    entry-IsValid nil key t name sub v g f = cc
    entry-IsValid (cons k u rest) key t name sub v g f = elim (Bool-cases (k == key)) [
      | inl e ↦
          let same : u ≡ t = some-injective _ _ (rw e at g) in
          unregister_tree-IsValid u name sub v.2 (rw (← same) at f)
      | inr e ↦ entry-IsValid rest key t name sub v.3 (rw e at g) f
    ]

  -- A name is handled by one round; after it the loop goes on or ends.
  loop_at :
      (P : Children E → Type 0) (cs : Children E) (name : String) (names : List String)
      (u : Unregistered E)
      → unregister_round cs name (unregister_under (cut name).0 cs) ≡ u
      → P (children_left u)
      → P (unregister_executors (children_left u) names)
      → P (unregister_executors cs (name ∷ names))
  unfolding unregister_executors
  loop_at P cs name names (stopped cs') e p q = subst P (ground (arith, e)) p
  loop_at P cs name names (goes_on cs') e p q = subst P (ground (arith, e)) q

  loop_cases :
      (P : Children E → Type 0) (cs : Children E) (name : String) (names : List String)
      → P (round cs name)
      → P (unregister_executors (round cs name) names)
      → P (unregister_executors cs (name ∷ names))
  loop_cases P cs name names p q =
      loop_at P cs name names (unregister_round cs name (unregister_under (cut name).0 cs)) refl p q

  -- Unregistration keeps the router valid.
  unregister_executors-IsValid :
      (cs : Children E) (names : List String) → IsValid cs → IsValid (unregister_executors cs names)
  unfolding unregister_executors
  unregister_executors-IsValid cs [] v = v
  unregister_executors-IsValid cs (name ∷ names) v =
      let v' = unregister_tree-IsValid (router cs) name (round cs name) v refl in
      loop_cases IsValid cs name names v' (unregister_executors-IsValid (round cs name) names v')

  keys-set :
      (k : String) (t : Tree E) (cs : Children E) {u : Tree E}
      → get k cs ≡ some u
      → keys (set k t cs) ≡ keys cs
  unfolding get set
  keys-set k t nil g = cc
  keys-set k t (cons j w rest) g = elim (Bool-cases (j == k)) [
    | inl e ↦ rw e
    | inr e ↦ rw e (ap (λ l. j ∷ l) (keys-set k t rest (rw e at g)))
  ]

  -- A dotted name is no key of a valid router, so nothing is deleted under it.
  dotted-Absent :
      (name : String) (cs : Children E) → (cut name).2 ≡ true → IsValid cs → Absent name cs
  dotted-Absent name nil d v = tt
  dotted-Absent name (cons k t rest) d v = (
    λ same. cc (d, ap (λ c. c.2) (cut_of_NoSep name (rw same at v.0))),
    dotted-Absent name rest d v.3,
  )

  Absent-of_keys :
      (name : String) (cs cs' : Children E) → keys cs ≡ keys cs' → Absent name cs' → Absent name cs
  Absent-of_keys name nil cs' e h = tt
  Absent-of_keys name (cons k t rest) nil e h = cc
  Absent-of_keys name (cons k t rest) (cons k' t' rest') e h = (
    λ p. h.0 (sym (head-eq_of_cons-eq e) ∙ p),
    Absent-of_keys name rest rest' (tail-eq_of_cons-eq e) h.1,
  )

  round-keys :
      (cs : Children E) (name : String)
      → IsValid cs
      → (cut name).2 ≡ true
      → keys (round cs name) ≡ keys cs
  round-keys cs name v d =
      round_cases (λ cs'. keys cs' ≡ keys cs) cs name (get (cut name).0 cs) refl refl
        (ap keys (delete_of_Absent name cs absent))
        λ t sub g f.
          let same = keys-set (cut name).0 (router sub) cs g in
          (same, ap keys (delete_of_Absent name _ (Absent-of_keys name _ cs same absent)) ∙ same)
    where
      absent : Absent name cs
      absent = dotted-Absent name cs d v

  -- Unregistering dotted names never removes an entry of the router itself: `delete` is called with
  -- the whole name, and no key has a separator. An emptied sub-router stays.
  unregister_executors-keys :
      (cs : Children E) (names : List String)
      → IsValid cs
      → All (λ name. (cut name).2 ≡ true) names
      → keys (unregister_executors cs names) ≡ keys cs
  unfolding unregister_executors
  unregister_executors-keys cs [] v d = refl
  unregister_executors-keys cs (name ∷ names) v d =
      let v' = unregister_tree-IsValid (router cs) name (round cs name) v refl in
      loop_cases (λ cs'. keys cs' ≡ keys cs) cs name names (round-keys cs name v d.0)
        (unregister_executors-keys (round cs name) names v' d.1 ∙ round-keys cs name v d.0)

  registered-injective :
      {cs cs' : Children E} → ◌≡◌ {A = Registered E} (registered cs) (registered cs') → cs ≡ cs'
  registered-injective h = cc

  -- A plain name that is free is registered as a new entry.
  pub register_plain :
      (cs : Children E) (name : String) (exec : Tree E)
      → NoSep name
      → get name cs ≡ none
      → register_executor cs name exec ≡ registered (set name exec cs)
  unfolding register_executor
  register_plain cs name exec n g = let plain = cut_of_NoSep name n in ground (arith, plain)

  unregister_plain :
      (cs : Children E) (name : String) (e : E)
      → NoSep name
      → get name cs ≡ some (leaf e)
      → unregister_executors cs (name ∷ []) ≡ delete name cs
  unfolding unregister_tree unregister_round unregister_executors
  unregister_plain cs name e n g =
      let entry : get (cut name).0 cs ≡ some (leaf e) =
        rw (ap (λ c. c.0) (cut_of_NoSep name n)) g in
      loop_at (λ cs'. cs' ≡ delete name cs) cs name [] (goes_on (delete name cs))
        (rw (unregister_under-get, entry)) refl refl

  -- Registering an executor that is no router itself under a name that is free and has no separator,
  -- and unregistering that name, gives back the router as it was.
  pub unregister-register_executor :
      (cs cs' : Children E) (name : String) (e : E)
      → NoSep name
      → get name cs ≡ none
      → register_executor cs name (leaf e) ≡ registered cs'
      → unregister_executors cs' (name ∷ []) ≡ cs
  unregister-register_executor cs cs' name e n g h =
      let same : cs' ≡ set name (leaf e) cs =
        registered-injective (sym h ∙ register_plain cs name (leaf e) n g) in
      rw same (
        unregister_plain (set name (leaf e) cs) name e n (get-set_self name (leaf e) cs)
        ∙ delete-set name (leaf e) cs g)
