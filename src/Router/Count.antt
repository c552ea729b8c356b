-- ===== src/Router/Count.antt =====
-- pkg/executor/router/router.go: `GetNumExecutors`.
use bonk.Base.{ℕ, ◌+◌, String, Option, none, some, ◌≡◌, refl, sym, ◌∙◌, arith}
use bonk.Base.Text.{cut}
use bonk.Router.{
  Tree, leaf, router, Children, nil, cons, get, set, Registered, registered, register_executor,
  for_each_executor, for_each_executor_impl, for_each_child, get_num_executors,
}
use bonk.Router.Register.{
  Registers, descend, split, duplicate, branch, add, register_executor-Registers,
  under-eq-registered,
}

module _ {E : Type 0} where
  unfoldable mutual
    pub leaves : Tree E → ℕ
    leaves (leaf e) = 1
    leaves (router cs) = leaves_children cs

    pub leaves_children : Children E → ℕ
    leaves_children nil = 0
    leaves_children (cons k t rest) = leaves t + leaves_children rest

  abbrev tick : String → E → ℕ → ℕ
  tick name exec n = n + 1

  mutual
    unfolding leaves for_each_executor_impl

    impl-leaves :
        (name : String) (t : Tree E) (n : ℕ) → for_each_executor_impl tick name t n ≡ n + leaves t
    impl-leaves name (leaf e) n = refl
    impl-leaves name (router cs) n = child-leaves name cs n

    child-leaves :
        (name : String) (cs : Children E) (n : ℕ)
        → for_each_child tick name cs n ≡ n + leaves_children cs
    child-leaves name nil n = omega arith
    child-leaves name (cons k t rest) n =
        child-leaves name rest _ ∙ omega (arith, impl-leaves _ t n)

  each-leaves : (cs : Children E) (n : ℕ) → for_each_executor tick cs n ≡ n + leaves_children cs
  unfolding leaves for_each_executor
  each-leaves nil n = omega arith
  each-leaves (cons k t rest) n = each-leaves rest _ ∙ omega (arith, impl-leaves k t n)

  pub num-leaves : (cs : Children E) → get_num_executors cs ≡ leaves_children cs
  unfolding get_num_executors
  num-leaves cs = each-leaves cs 0 ∙ omega arith

  leaves_at : Option (Tree E) → ℕ
  leaves_at none = 0
  leaves_at (some t) = leaves t

  leaves-set :
      (k : String) (t : Tree E) (cs : Children E)
      → leaves_children (set k t cs) + leaves_at (get k cs) ≡ leaves_children cs + leaves t
  unfolding leaves leaves_at get set
  leaves-set k t nil = omega arith
  leaves-set k t (cons j u rest) = ground (arith, leaves-set k t rest)

  Registers-leaves :
      {exec : Tree E} {cs cs' : Children E} {name : String} {r : Registered E}
      → Registers exec cs name r
      → r ≡ registered cs'
      → leaves_children cs' ≡ leaves_children cs + leaves exec
  unfolding leaves leaves_at
  Registers-leaves {exec} (descend {cs} {sub = old} {name} {r} g rest p) h =
      let (sub, e, q) = under-eq-registered (cut name).0 cs r (sym p ∙ h) in
      rw q (ground (arith, leaves-set (cut name).0 (router sub) cs, Registers-leaves rest e))
  Registers-leaves (split {cs} {name} {r} g f rest p) h =
      let (sub, e, q) = under-eq-registered (cut name).0 cs r (sym p ∙ h) in
      rw q (ground (arith, leaves-set (cut name).0 (router sub) cs, Registers-leaves rest e))
  Registers-leaves (duplicate g f p) h = cc
  Registers-leaves (branch {cs} {name} {r} g f rest p) h =
      let (sub, e, q) = under-eq-registered (cut name).0 cs r (sym p ∙ h) in
      rw q (ground (arith, leaves-set (cut name).0 (router sub) cs, Registers-leaves rest e))
  Registers-leaves {exec} {cs'} (add {cs} {name} g f p) h =
      let q : cs' ≡ set (cut name).0 exec cs = ground arith in
      rw q (ground (arith, leaves-set (cut name).0 exec cs))

  -- A registration without an error adds one executor, also where it puts an old one into a router
  -- of its own.
  pub get_num_executors-register_executor :
      (cs cs' : Children E) (name : String) (e : E)
      → register_executor cs name (leaf e) ≡ registered cs'
      → get_num_executors cs' ≡ get_num_executors cs + 1
  unfolding leaves
  get_num_executors-register_executor cs cs' name e h =
      num-leaves cs'
      ∙ Registers-leaves (register_executor-Registers cs name (leaf e)) h
      ∙ omega (arith, num-leaves cs)
