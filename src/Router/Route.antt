-- ===== src/Router/Route.antt =====
-- pkg/executor/router/router.go: which executor a name leads to, and with what rest of the
-- name, described without the calls of `Execute`.
use bonk.Base.{String, Option, none, some, ◌≡◌, refl, ◌==◌, if◌then◌else◌, inl, inr, Bool-cases}
use mathlib.Core.Option
use bonk.Base.Text.{cut}
use bonk.Router.{Tree, leaf, router, Children, nil, cons, get, wildcard}

abbrev pub Target : Type 0 → Type 0
Target E = Option (E × String)

module _ {E : Type 0} where
  abbrev pub choose : (child any fallback : Option (String → Target E)) → String → Target E
  choose (some f) any fallback name = f (cut name).1
  choose none (some f) fallback name = f (cut name).1
  choose none none (some f) name = f name
  choose none none none name = none

  unfoldable mutual
    pub route_tree : Tree E → String → Target E
    route_tree (leaf e) name = some (e, name)
    route_tree (router cs) name =
        choose (route_under (cut name).0 cs) (route_under wildcard cs) (route_under "" cs) name

    pub route_under : String → Children E → Option (String → Target E)
    route_under key nil = none
    route_under key (cons k child rest) =
        if k == key then some (route_tree child) else route_under key rest

  unfoldable pub route : Children E → String → Target E
  unfolding route_tree get cut
  route cs name = route_tree (router cs) name

  pub route_under-get :
      (key : String) (cs : Children E) → route_under key cs ≡ Option.map route_tree (get key cs)
  unfolding route_tree get
  route_under-get key nil = refl
  route_under-get key (cons k child rest) = elim (Bool-cases (k == key)) [
    | inl e ↦ rw e
    | inr e ↦ rw e (route_under-get key rest)
  ]

  -- The choice, by the entries of the map.
  pub route-get :
      (cs : Children E) (name : String)
      → route cs name
        ≡ choose
            (Option.map route_tree (get (cut name).0 cs))
            (Option.map route_tree (get wildcard cs))
            (Option.map route_tree (get "" cs))
            name
  unfolding route
  route-get cs name =
      rw (route_under-get (cut name).0 cs, route_under-get wildcard cs, route_under-get "" cs)

  pub route_of_get :
      (cs : Children E) (name : String) {t : Tree E}
      → get (cut name).0 cs ≡ some t
      → route cs name ≡ route_tree t (cut name).1
  route_of_get cs name h = rw (route-get, h)
