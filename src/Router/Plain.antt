-- ===== src/Router/Plain.antt =====
-- pkg/executor/router/router.go: routers that have no router in them, and names without a separator.
use bonk.Base.{String, none, some, ◌≡◌, ◌≢◌, refl, sym, ◌∙◌, inl, inr, text-cases}
use bonk.Base.Text.{append, cut, NoSep, cut_of_NoSep, cut-append}
use bonk.Router.{leaf, router, Children, get, set, new, Registered, registered, register_executor}
use bonk.Router.Entries.{get-set_self, get-set_ne}
use bonk.Router.Route.{route_tree, route, route_of_get}
use bonk.Router.Register.{
  Registers, descend, split, duplicate, branch, add, register_executor-Registers,
}

module _ {E : Type 0} where
  -- No entry is a router of its own.
  abbrev pub IsFlat : Children E → Type 0
  IsFlat cs = (k : String) (sub : Children E) → get k cs ≢ some (router sub)

  -- A registration in such a router, of a name without a separator.
  Registers_plain :
      {e : E} {cs cs' : Children E} {name : String} {r : Registered E}
      → Registers (leaf e) cs name r
      → r ≡ registered cs'
      → NoSep name
      → IsFlat cs
      → (get name cs ≡ none) × (cs' ≡ set name (leaf e) cs)
  Registers_plain (descend {cs} {sub} {name} g rest p) h plain flat =
      absurd (flat (cut name).0 sub g)
  Registers_plain (split {name} g f rest p) h plain flat =
      let whole = cut_of_NoSep name plain in let f' = rw whole at f in absurd cc
  Registers_plain (duplicate g f p) h plain flat = cc
  Registers_plain (branch {name} g f rest p) h plain flat =
      let whole = cut_of_NoSep name plain in let f' = rw whole at f in absurd cc
  Registers_plain (add {name} g f p) h plain flat =
      let whole = cut_of_NoSep name plain in let p' = rw whole at p in (rw whole at g, cc)

  pub register_plain :
      (cs cs' : Children E) (name : String) (e : E)
      → register_executor cs name (leaf e) ≡ registered cs'
      → NoSep name
      → IsFlat cs
      → (get name cs ≡ none) × (cs' ≡ set name (leaf e) cs)
  register_plain cs cs' name e h plain flat =
      Registers_plain (register_executor-Registers cs name (leaf e)) h plain flat

  pub set-IsFlat :
      (name : String) (e : E) (cs : Children E) → IsFlat cs → IsFlat (set name (leaf e) cs)
  set-IsFlat name e cs flat k sub h = elim (text-cases name k) [
    | inl (_, same) ↦
        let found = get-set_self name (leaf e) cs in
        let found' = rw same at found in let h' = rw same at h in absurd cc
    | inr (_, ne) ↦ flat k sub (sym (get-set_ne name k (leaf e) cs ne) ∙ h)
  ]

  pub new-IsFlat : IsFlat new
  unfolding get
  new-IsFlat k sub h = cc

  -- What is in the one router is in the other.
  abbrev pub Within : Children E → Children E → Type 0
  Within cs cs' = (k : String) (e : E) → get k cs ≡ some (leaf e) → get k cs' ≡ some (leaf e)

  pub set-Within :
      (name : String) (e : E) (cs : Children E)
      → get name cs ≡ none
      → Within cs (set name (leaf e) cs)
  set-Within name e cs free k d h = elim (text-cases name k) [
    | inl (_, same) ↦ let free' = rw same at free in absurd cc
    | inr (_, ne) ↦ get-set_ne name k (leaf e) cs ne ∙ h
  ]

  -- A name that begins with an entry's key.
  pub route_below :
      (cs : Children E) (name rest : String) (e : E)
      → NoSep name
      → get name cs ≡ some (leaf e)
      → route cs (append name (append "." rest)) ≡ some (e, rest)
  unfolding route_tree
  route_below cs name rest e plain found =
      let whole = cut-append name rest plain in
      let found' : get (cut (append name (append "." rest))).0 cs ≡ some (leaf e) =
        rw whole found in
      route_of_get cs (append name (append "." rest)) found' ∙ rw whole refl
