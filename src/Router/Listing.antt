-- ===== src/Router/Listing.antt =====
-- pkg/executor/router/router.go: `ForEachExecutor` and the names that it visits.
use bonk.Base.{String, some, List, ◌≡◌, ◌∙◌, ap, arith, eq_iff, text-cases, inl, inr}
use text.Mathlib.TextLemmas.{append_assoc}
use bonk.Base.Text.{append, join, NoSep, cut_of_NoSep, cut-append}
use bonk.Router.{
  Tree, leaf, router, Children, nil, cons, get, for_each_executor, for_each_executor_impl,
  for_each_child,
}
use bonk.Router.Entries.{Absent}
use bonk.Router.Route.{route_tree, route, route_of_get}
use bonk.Router.Invariant.{IsValid, IsValidTree}

module _ {E : Type 0} where
  -- A nameless child of a sub-router is an executor, not a router again.
  abbrev IsLeaf : Tree E → Type 0
  IsLeaf (leaf e) = Unit
  IsLeaf (router cs) = ⊥

  abbrev mutual
    pub IsPlainTree : Tree E → Type 0
    IsPlainTree (leaf e) = Unit
    IsPlainTree (router cs) = IsPlainSub cs

    pub IsPlainSub : Children E → Type 0
    IsPlainSub nil = Unit
    IsPlainSub (cons k t rest) = (k ≡ "" → IsLeaf t) × IsPlainTree t × IsPlainSub rest

  abbrev pub IsPlain : Children E → Type 0
  IsPlain nil = Unit
  IsPlain (cons k t rest) = IsPlainTree t × IsPlain rest

  -- The entries of `part` are found in `whole`.
  abbrev Within : Children E → Children E → Type 0
  Within whole nil = Unit
  Within whole (cons k t part) = (get k whole ≡ some t) × Within whole part

  Within-cons :
      (k : String) (t : Tree E) (whole part : Children E)
      → Absent k part
      → Within whole part
      → Within (cons k t whole) part
  unfolding get
  Within-cons k t whole nil a h = tt
  Within-cons k t whole (cons j u part) a h =
      (ground (arith, eq_iff k j), Within-cons k t whole part a.1 h.1)

  Within-all : (cs : Children E) → IsValid cs → Within cs cs
  unfolding get
  Within-all nil v = tt
  Within-all (cons k t rest) v =
      (ground (arith, eq_iff k k), Within-cons k t rest rest v.1 (Within-all rest v.3))

  -- The names at and below `name` lead into the tree.
  abbrev LeadsTo : Children E → String → Tree E → Type 0
  LeadsTo whole name t =
      (route whole name ≡ route_tree t "")
      × ((q : String) → route whole (append name (append "." q)) ≡ route_tree t q)

  LeadsTo-get :
      (whole : Children E) (k : String) (t : Tree E)
      → NoSep k
      → get k whole ≡ some t
      → LeadsTo whole k t
  LeadsTo-get whole k t n g = (
    route_of_get whole k {t = t} (rw (cut_of_NoSep k n) g)
        ∙ ap (λ c. route_tree t c.1) (cut_of_NoSep k n),
    λ q.
        route_of_get whole (append k (append "." q)) {t = t} (rw (cut-append k q n) g)
        ∙ ap (λ c. route_tree t c.1) (cut-append k q n),
  )

  -- One level further down.
  LeadsTo-join :
      (whole : Children E) (name : String) (cs : Children E) (k : String) (t : Tree E)
      → LeadsTo whole name (router cs)
      → NoSep k
      → get k cs ≡ some t
      → LeadsTo whole (join (List.◌∷◌ name (List.◌∷◌ k List.[]))) t
  unfolding join route
  LeadsTo-join whole name cs k t (_, below) n g =
      let (at, under) = LeadsTo-get cs k t n g in
      (
        below k ∙ at,
        λ q.
            ap (route whole) (
              append_assoc name (append "." k) (append "." q)
              ∙ ap (append name) (append_assoc "." k (append "." q)))
            ∙ below (append k (append "." q))
            ∙ under q,
      )

  -- A nameless executor is visited under the name of its router.
  nameless_route :
      (whole : Children E) (name : String) (cs : Children E) (e : E)
      → LeadsTo whole name (router cs)
      → get "" cs ≡ some (leaf e)
      → route whole name ≡ some (e, "")
  unfolding route
  nameless_route whole name cs e (at, _) g = at ∙ (LeadsTo-get cs "" (leaf e) tt g).0

  module _ {ℓ} {S : Type 0} (fun : String → E → S → S) (P : S → Type ℓ) (whole : Children E)
      (visit : (name : String) (e : E) (s : S)
        → route whole name ≡ some (e, "")
        → P s
        → P (fun name e s)) where
    nameless-inv :
        (cs : Children E) (t : Tree E) (name : String) (s : S)
        → IsLeaf t
        → get "" cs ≡ some t
        → LeadsTo whole name (router cs)
        → P s
        → P (for_each_executor_impl fun name t s)
    unfolding for_each_executor_impl
    nameless-inv cs (leaf e) name s l g leads p =
        visit name e s (nameless_route whole name cs e leads g) p
    nameless-inv cs (router sub) name s l g leads p = absurd l

    mutual
      unfolding for_each_executor_impl route

      impl-inv :
          (t : Tree E) (name : String) (s : S)
          → IsPlainTree t
          → IsValidTree t
          → LeadsTo whole name t
          → P s
          → P (for_each_executor_impl fun name t s)
      impl-inv (leaf e) name s plain v leads p = visit name e s leads.0 p
      impl-inv (router cs) name s plain v leads p =
          child-inv cs cs name s plain v (Within-all cs v) leads p

      child-inv :
          (part cs : Children E) (name : String) (s : S)
          → IsPlainSub part
          → IsValid part
          → Within cs part
          → LeadsTo whole name (router cs)
          → P s
          → P (for_each_child fun name part s)
      child-inv nil cs name s plain v h leads p = p
      child-inv (cons k t rest) cs name s plain v h leads p = elim (text-cases k "") [
        | inl (e, same) ↦
            child-inv rest cs name _ plain.2 v.3 h.1 leads
              (rw e (nameless-inv cs t name s (plain.0 same) (rw same at h.0) leads p))
        | inr (e, other) ↦ child-inv rest cs name _ plain.2 v.3 h.1 leads (
            rw e (
              impl-inv t (join (List.◌∷◌ name (List.◌∷◌ k List.[]))) s plain.1 v.2
                (LeadsTo-join whole name cs k t leads v.0 h.0) p))
      ]

    entries-inv :
        (part : Children E) (s : S)
        → IsPlain part
        → IsValid part
        → Within whole part
        → P s
        → P (for_each_executor fun part s)
    unfolding for_each_executor
    entries-inv nil s plain v h p = p
    entries-inv (cons k t rest) s plain v h p =
        entries-inv rest _ plain.1 v.3 h.1
          (impl-inv t k s plain.0 v.2 (LeadsTo-get whole k t v.0 h.0) p)

  -- Each callback of `ForEachExecutor` gets an executor under a name that leads to it, with nothing
  -- left of the name: what the callback keeps at such names, the whole visit keeps. The router is
  -- valid, and no nameless child of its sub-routers is a router.
  pub for_each_executor_inv {ℓ} :
      {S : Type 0} (fun : String → E → S → S) (P : S → Type ℓ) (cs : Children E) (s : S)
      → IsPlain cs
      → IsValid cs
      → ((name : String) (e : E) (s' : S) → route cs name ≡ some (e, "") → P s' → P (fun name e s'))
      → P s
      → P (for_each_executor fun cs s)
  for_each_executor_inv fun P cs s plain v visit p =
      entries-inv fun P cs visit cs s plain v (Within-all cs v) p
