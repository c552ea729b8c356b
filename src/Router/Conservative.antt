-- ===== src/Router/Conservative.antt =====
-- pkg/executor/router/router.go: the other names at a registration.
use bonk.Base.{String, some, ◌≡◌, ◌≢◌, refl, sym, ◌∙◌, subst, arith, ◌⊎◌, inl, inr, text-cases}
use bonk.Base.Text.{cut}
use bonk.Router.{
  Tree, leaf, router, Children, nil, cons, get, set, wildcard, Registered, registered,
  register_executor,
}
use bonk.Router.Entries.{get-set_ne, get-set_self}
use bonk.Router.Route.{choose, route, route-get, route_of_get}
use bonk.Router.Register.{
  Registers, descend, split, duplicate, branch, add, register_executor-Registers,
  under-eq-registered,
}

-- The key is none that `Execute` falls back on.
abbrev pub IsOwn : String → Type 0
IsOwn key = (key ≢ wildcard) × (key ≢ "")

module _ {E : Type 0} where
  -- A registration changes one entry of the router.
  registered_sets :
      {exec : Tree E} {cs cs' : Children E} {name : String} {r : Registered E}
      → Registers exec cs name r
      → r ≡ registered cs'
      → (t : Tree E) × (cs' ≡ set (cut name).0 t cs)
  registered_sets (descend {cs} {name} {r} g rest p) h =
      let (sub, _, q) = under-eq-registered (cut name).0 cs r (sym p ∙ h) in (router sub, q)
  registered_sets (split {cs} {name} {r} g f rest p) h =
      let (sub, _, q) = under-eq-registered (cut name).0 cs r (sym p ∙ h) in (router sub, q)
  registered_sets (duplicate g f p) h = cc
  registered_sets (branch {cs} {name} {r} g f rest p) h =
      let (sub, _, q) = under-eq-registered (cut name).0 cs r (sym p ∙ h) in (router sub, q)
  registered_sets {exec} (add g f p) h = (exec, ground arith)

  route-set_ne :
      (key : String) (t : Tree E) (cs : Children E) (q : String)
      → (cut q).0 ≢ key
      → IsOwn key
      → route (set key t cs) q ≡ route cs q
  route-set_ne key t cs q other own = rw (
    route-get (set key t cs) q,
    route-get cs q,
    get-set_ne key (cut q).0 t cs (λ e. other (sym e)),
    get-set_ne key wildcard t cs own.0,
    get-set_ne key "" t cs own.1,
  )

  Registers-route_ne :
      {exec : Tree E} {cs cs' : Children E} {name : String} {r : Registered E} (q : String)
      → Registers exec cs name r
      → r ≡ registered cs'
      → (cut q).0 ≢ (cut name).0
      → IsOwn (cut name).0
      → route cs' q ≡ route cs q
  Registers-route_ne {cs} {name} q d h other own =
      let (t, e) = registered_sets d h in rw e (route-set_ne (cut name).0 t cs q other own)

  -- A registration leaves every name with another first part alone, unless it registers the
  -- wildcard or the empty name.
  route-register_executor_ne :
      (cs cs' : Children E) (name : String) (exec : Tree E) (q : String)
      → register_executor cs name exec ≡ registered cs'
      → (cut q).0 ≢ (cut name).0
      → IsOwn (cut name).0
      → route cs' q ≡ route cs q
  route-register_executor_ne cs cs' name exec q h other own =
      Registers-route_ne q (register_executor-Registers cs name exec) h other own

  -- The names below an executor that became nameless in a router of its own.
  route_nameless :
      (old : E) (q : String)
      → ((cut q).0 ≢ "") ⊎ (q ≡ "")
      → route (cons "" (leaf old) nil) q ≡ some (old, q)
  unfolding route
  route_nameless old q (inl h) = elim (text-cases "" (cut q).0) [
    | inl (e, p) ↦ absurd (h (sym p))
    | inr (e, p) ↦ rw (e, choose)
  ]
  route_nameless old q (inr h) = rw h

  split_sub :
      {exec : Tree E} {cs cs' : Children E} {name : String} {r : Registered E} {old : E}
      → Registers exec cs name r
      → get (cut name).0 cs ≡ some (leaf old)
      → r ≡ registered cs'
      → (sub : Children E) × (cs' ≡ set (cut name).0 (router sub) cs)
        × Registers exec (cons "" (leaf old) nil) (cut name).1 (registered sub)
  split_sub (descend g rest p) h e = cc
  split_sub {exec} {old = known} (split {cs} {name} {old} {r} g f rest p) h e =
      let (sub, q, s) = under-eq-registered (cut name).0 cs r (sym p ∙ e) in
      let same : old ≡ known = cc in
      (
        sub,
        s,
        subst (λ o. Registers exec (cons "" (leaf o) nil) (cut name).1 (registered sub)) same
            (rw q at rest),
      )
  split_sub (duplicate g f p) h e = cc
  split_sub (branch g f rest p) h e = cc
  split_sub (add g f p) h e = cc

  -- Where the first part of the name is that of an executor, which becomes nameless in a router of
  -- its own, the registration leaves the executor's other names alone.
  route-register_executor_split :
      (cs cs' : Children E) (name : String) (exec : Tree E) (old : E) (q : String)
      → register_executor cs name exec ≡ registered cs'
      → get (cut name).0 cs ≡ some (leaf old)
      → (cut q).0 ≡ (cut name).0
      → ((cut (cut q).1).0 ≢ "") ⊎ ((cut q).1 ≡ "")
      → (cut (cut q).1).0 ≢ (cut (cut name).1).0
      → IsOwn (cut (cut name).1).0
      → route cs' q ≡ route cs q
  unfolding route
  route-register_executor_split cs cs' name exec old q h g same plain other own =
      let (sub, e, d) = split_sub (register_executor-Registers cs name exec) g h in
      let here : route cs' q ≡ route sub (cut q).1 =
        route_of_get cs' q {t = router sub}
          (rw (e, same) (get-set_self (cut name).0 (router sub) cs)) in
      let before : route cs q ≡ some (old, (cut q).1) =
        route_of_get cs q {t = leaf old} (rw same g) in
      here
      ∙ Registers-route_ne (cut q).1 d refl other own
      ∙ route_nameless old (cut q).1 plain
      ∙ sym before
