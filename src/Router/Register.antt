-- ===== src/Router/Register.antt =====
-- pkg/executor/router/router.go: `RegisterExecutor`, its end and its result.
use bonk.Base.{
  ℕ, ◌≤◌, zero, suc, ◌+◌, ◌<◌, String, Bool, true, false, Option, none, some, ◌≡◌, refl, sym, ◌∙◌,
  arith, inl, inr, Bool-cases,
}
use bonk.Base.Text.{size, cut, size-cut, cut-after_none}
use bonk.Errors.{duplicate_executor, wrap}
use bonk.Router.{
  Tree, leaf, router, Children, nil, cons, get, set, depth, depth_children, Registered, registered,
  refused, panicked, unfinished, under, register_fuel, register_bound, register_executor,
}
use bonk.Router.Entries.{get-set_self, depth-get}
use bonk.Router.Route.{route_tree, route, route_of_get}

cut-size : (name : String) → size (cut name).1 ≤ size name
cut-size name = elim (Bool-cases (cut name).2) [
  | inl e ↦ omega (arith, size-cut name e)
  | inr e ↦ rw (cut-after_none name e) (omega arith)
]

module _ {E : Type 0} where
  -- The registration came to its end, with or without an error.
  abbrev pub IsDone : Registered E → Type 0
  IsDone (registered cs) = Unit
  IsDone (refused e cs) = Unit
  IsDone (panicked e) = ⊥
  IsDone unfinished = ⊥

  under-IsDone :
      (key : String) (cs : Children E) (r : Registered E) → IsDone r → IsDone (under key cs r)
  under-IsDone key cs (registered sub) h = tt
  under-IsDone key cs (refused e sub) h = tt
  under-IsDone key cs (panicked e) h = h
  under-IsDone key cs unfinished h = h

  -- A nameless executor goes into an empty router at once.
  register_empty :
      (fuel : ℕ) (t : Tree E) → 0 < fuel → register_fuel fuel nil "" t ≡ registered (cons "" t nil)
  unfolding register_fuel cut get set
  register_empty zero t h = elim h [ ]
  register_empty (suc fuel) t h = refl

  -- How a registration goes, call by call.
  pub data Registers (exec : Tree E) : Children E → String → Registered E → Type 0 where
    descend :
        {cs sub : Children E} {name : String} {r r' : Registered E}
        → get (cut name).0 cs ≡ some (router sub)
        → Registers exec sub (cut name).1 r
        → r' ≡ under (cut name).0 cs r
        → Registers exec cs name r'
    split :
        {cs : Children E} {name : String} {old : E} {r r' : Registered E}
        → get (cut name).0 cs ≡ some (leaf old)
        → (cut name).2 ≡ true
        → Registers exec (cons "" (leaf old) nil) (cut name).1 r
        → r' ≡ under (cut name).0 cs r
        → Registers exec cs name r'
    duplicate :
        {cs : Children E} {name : String} {old : E} {r' : Registered E}
        → get (cut name).0 cs ≡ some (leaf old)
        → (cut name).2 ≡ false
        → r' ≡ refused (wrap (cut name).0 duplicate_executor) cs
        → Registers exec cs name r'
    branch :
        {cs : Children E} {name : String} {r r' : Registered E}
        → get (cut name).0 cs ≡ none
        → (cut name).2 ≡ true
        → Registers exec nil (cut name).1 r
        → r' ≡ under (cut name).0 cs r
        → Registers exec cs name r'
    add :
        {cs : Children E} {name : String} {r' : Registered E}
        → get (cut name).0 cs ≡ none
        → (cut name).2 ≡ false
        → r' ≡ registered (set (cut name).0 exec cs)
        → Registers exec cs name r'

  module _ (exec : Tree E) where
    -- The old executor goes under the empty name of a new router first.
    split_step :
        (fuel : ℕ) (cs : Children E) (name : String) (old : E)
        → get (cut name).0 cs ≡ some (leaf old)
        → (cut name).2 ≡ true
        → 0 < fuel
        → register_fuel (suc fuel) cs name exec
          ≡ under (cut name).0 cs (register_fuel fuel (cons "" (leaf old) nil) (cut name).1 exec)
    unfolding register_fuel
    split_step fuel cs name old e f h =
        let moved = register_empty fuel (leaf old) h in ground (arith, moved)

    register_at :
        (fuel : ℕ) (cs : Children E) (name : String)
        → ((cs' : Children E) (name' : String)
            → size name' + depth_children cs' < fuel
            → Registers exec cs' name' (register_fuel fuel cs' name' exec))
        → size name + depth_children cs < suc fuel
        → (t : Option (Tree E)) (found : Bool) → get (cut name).0 cs ≡ t
        → (cut name).2 ≡ found
        → Registers exec cs name (register_fuel (suc fuel) cs name exec)
    unfolding register_fuel depth
    register_at fuel cs name ih h (some (router sub)) found e f =
        descend e
          (ih sub (cut name).1
            (omega (arith, cut-size name, depth-get (cut name).0 cs (router sub) e)))
          (rw (e, register_fuel))
    register_at fuel cs name ih h (some (leaf old)) true e f =
        split e f (ih (cons "" (leaf old) nil) (cut name).1 (omega (arith, size-cut name f)))
          (split_step fuel cs name old e f (omega (arith, size-cut name f)))
    register_at fuel cs name ih h (some (leaf old)) false e f =
        duplicate e f (rw (e, register_fuel, f))
    register_at fuel cs name ih h none true e f =
        branch e f (ih nil (cut name).1 (omega (arith, size-cut name f))) (ground arith)
    register_at fuel cs name ih h none false e f = add e f (ground arith)

    register_fuel-Registers :
        (fuel : ℕ) (cs : Children E) (name : String)
        → size name + depth_children cs < fuel
        → Registers exec cs name (register_fuel fuel cs name exec)
    register_fuel-Registers zero cs name h = elim h [ ]
    register_fuel-Registers (suc fuel) cs name h =
        register_at fuel cs name (register_fuel-Registers fuel) h (get (cut name).0 cs) (cut name).2
          refl refl

  Registers-IsDone :
      {exec : Tree E} {cs : Children E} {name : String} {r : Registered E}
      → Registers exec cs name r
      → IsDone r
  Registers-IsDone (descend {cs} {name} {r} e rest p) =
      rw p (under-IsDone (cut name).0 cs r (Registers-IsDone rest))
  Registers-IsDone (split {cs} {name} {r} e f rest p) =
      rw p (under-IsDone (cut name).0 cs r (Registers-IsDone rest))
  Registers-IsDone (duplicate e f p) = rw p tt
  Registers-IsDone (branch {cs} {name} {r} e f rest p) =
      rw p (under-IsDone (cut name).0 cs r (Registers-IsDone rest))
  Registers-IsDone (add e f p) = rw p tt

  pub register_executor-Registers :
      (cs : Children E) (name : String) (exec : Tree E)
      → Registers exec cs name (register_executor cs name exec)
  unfolding register_executor
  register_executor-Registers cs name exec =
      register_fuel-Registers exec (register_bound cs name) cs name (omega arith)

  -- Every registration ends: the fuel is enough, and the re-registration of an old child under the
  -- empty name never makes it panic.
  pub register_executor-IsDone :
      (cs : Children E) (name : String) (exec : Tree E) → IsDone (register_executor cs name exec)
  register_executor-IsDone cs name exec =
      Registers-IsDone (register_executor-Registers cs name exec)

  pub under-eq-registered :
      (key : String) (cs : Children E) (r : Registered E) {cs' : Children E}
      → under key cs r ≡ registered cs'
      → (sub : Children E) × (r ≡ registered sub) × (cs' ≡ set key (router sub) cs)
  under-eq-registered key cs (registered sub) h = (sub, refl, ground arith)
  under-eq-registered key cs (refused e sub) h = cc
  under-eq-registered key cs (panicked e) h = cc
  under-eq-registered key cs unfinished h = cc

  module _ {e : E} where
    route-under :
        (cs : Children E) (name : String) (r : Registered E) {cs' : Children E}
        → ((sub : Children E) → r ≡ registered sub → route sub (cut name).1 ≡ some (e, ""))
        → under (cut name).0 cs r ≡ registered cs'
        → route cs' name ≡ some (e, "")
    unfolding route
    route-under cs name r {cs'} ih h =
        let (sub, p, q) = under-eq-registered (cut name).0 cs r h in
        route_of_get cs' name {t = router sub} (rw q (get-set_self (cut name).0 (router sub) cs))
        ∙ ih sub p

    Registers-route :
        {cs cs' : Children E} {name : String} {r : Registered E}
        → Registers (leaf e) cs name r
        → r ≡ registered cs'
        → route cs' name ≡ some (e, "")
    unfolding route_tree
    Registers-route (descend {cs} {name} {r} g rest p) h =
        route-under cs name r (λ sub q. Registers-route rest q) (sym p ∙ h)
    Registers-route (split {cs} {name} {r} g f rest p) h =
        route-under cs name r (λ sub q. Registers-route rest q) (sym p ∙ h)
    Registers-route (duplicate g f p) h = cc
    Registers-route (branch {cs} {name} {r} g f rest p) h =
        route-under cs name r (λ sub q. Registers-route rest q) (sym p ∙ h)
    Registers-route {cs'} (add {cs} {name} g f p) h =
        let same : cs' ≡ set (cut name).0 (leaf e) cs = ground arith in
        route_of_get cs' name {t = leaf e} (rw same (get-set_self (cut name).0 (leaf e) cs))
        ∙ rw (cut-after_none name f)

  -- After a registration without an error the name leads to the registered executor, with nothing
  -- left of the name.
  pub route-register_executor :
      (cs cs' : Children E) (name : String) (e : E)
      → register_executor cs name (leaf e) ≡ registered cs'
      → route cs' name ≡ some (e, "")
  route-register_executor cs cs' name e h =
      Registers-route (register_executor-Registers cs name (leaf e)) h
