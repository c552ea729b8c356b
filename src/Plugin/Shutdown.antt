-- ===== src/Plugin/Shutdown.antt =====
-- pkg/executor/plugin/client_manager.go: `Shutdown` and its locks.
use bonk.Base.{
  true, ℕ, zero, suc, ◌+◌, String, false, ◌≡◌, ◌≢◌, ◌⊎◌, inl, inr, refl, sym, ◌∙◌, ap, arith,
}
use bonk.Router.{
  Tree, leaf, router, Children, nil, cons, for_each_executor, for_each_executor_impl,
  for_each_child, get_num_executors,
}
use bonk.Router.Count.{leaves, leaves_children, num-leaves}
use bonk.Plugin.{free, Manager, Shutting, going, waiting, shut_executor, unlock_all, shutdown}

module _ {E S : Type 0} (f : String → E → S → S) (stuck : S → S)
    (absorbs : (name : String) (e : E) (s : S) → f name e (stuck s) ≡ stuck s)
    (stays : (s : S) → stuck (stuck s) ≡ stuck s) where
  abbrev after : ℕ → S → S
  after zero s = s
  after (suc n) s = stuck s

  after-stuck : (n : ℕ) (s : S) → after n (stuck s) ≡ stuck s
  after-stuck zero s = refl
  after-stuck (suc n) s = stays s

  after-after : (n m : ℕ) (s : S) → after m (after n s) ≡ after (n + m) s
  after-after zero m s = let e : 0 + m ≡ m = omega arith in rw e refl
  after-after (suc n) m s = let e : suc n + m ≡ suc (n + m) = omega arith in rw e (after-stuck m s)

  -- In the state the callback blocks.
  abbrev Blocks : S → Type 0
  Blocks s = (name : String) (e : E) → f name e s ≡ stuck s

  after-Blocks : (n : ℕ) (s : S) → Blocks s → Blocks (after n s)
  after-Blocks zero s b = b
  after-Blocks (suc n) s b = λ name e. absorbs name e s ∙ sym (stays s)

  mutual
    unfolding leaves for_each_executor_impl

    impl_after :
        (name : String) (t : Tree E) (s : S)
        → Blocks s
        → for_each_executor_impl f name t s ≡ after (leaves t) s
    impl_after name (leaf e) s b = b name e
    impl_after name (router cs) s b = child_after name cs s b

    child_after :
        (name : String) (cs : Children E) (s : S)
        → Blocks s
        → for_each_child f name cs s ≡ after (leaves_children cs) s
    child_after name nil s b = refl
    child_after name (cons k t rest) s b =
        ap (λ s'. for_each_child f name rest s') (impl_after _ t s b)
        ∙ child_after name rest (after (leaves t) s) (after-Blocks (leaves t) s b)
        ∙ after-after (leaves t) (leaves_children rest) s

  each_after :
      (cs : Children E) (s : S) → Blocks s → for_each_executor f cs s ≡ after (leaves_children cs) s
  unfolding for_each_executor leaves
  each_after nil s b = refl
  each_after (cons k t rest) s b =
      ap (λ s'. for_each_executor f rest s') (impl_after k t s b)
      ∙ each_after rest (after (leaves t) s) (after-Blocks (leaves t) s b)
      ∙ after-after (leaves t) (leaves_children rest) s

module _ {E W : Type 0} (kill : E → W → W) where
  -- A manager whose locks are free, and the same at the callbacks of `Shutdown`.
  abbrev pub idle : Children E → Manager E
  idle cs = record { children = cs; router_lock = free; mutex = free }

  abbrev holding : Children E → Manager E
  holding cs = record {
    children = cs;
    router_lock = record { readers = 1; writing = false };
    mutex = record { readers = 0; writing = true };
  }

  -- A callback that waits does not return.
  abbrev stuck : Shutting E W → Shutting E W
  stuck (going m w) = waiting w
  stuck (waiting w) = waiting w

  shut-stuck :
      (name : String) (e : E) (s : Shutting E W) → shut_executor kill name e (stuck s) ≡ stuck s
  shut-stuck name e (going m w) = refl
  shut-stuck name e (waiting w) = refl

  stuck-stuck : (s : Shutting E W) → stuck (stuck s) ≡ stuck s
  stuck-stuck (going m w) = refl
  stuck-stuck (waiting w) = refl

  -- What the callbacks come to, on so many executors.
  abbrev called : ℕ → Shutting E W → Shutting E W
  called n s = after (shut_executor kill) stuck shut-stuck stuck-stuck n s

  shutdown-after :
      (cs : Children E) (w : W)
      → shutdown kill (idle cs) w
        ≡ unlock_all kill (called (leaves_children cs) (going (holding cs) w))
  unfolding shutdown
  shutdown-after cs w =
      ap (λ s. unlock_all kill s)
        (each_after (shut_executor kill) stuck shut-stuck stuck-stuck cs (going (holding cs) w)
          (λ name e. refl))

  abbrev pub Outcomes : Children E → W → Type 0
  Outcomes cs w =
      ((get_num_executors cs ≡ 0) × (shutdown kill (idle cs) w ≡ going (idle cs) w))
      ⊎ ((get_num_executors cs ≢ 0) × (shutdown kill (idle cs) w ≡ waiting w))

  counted : (cs : Children E) (w : W) (n : ℕ) → leaves_children cs ≡ n → Outcomes cs w
  counted cs w zero e =
      let returns : called (leaves_children cs) (going (holding cs) w) ≡ going (holding cs) w =
        rw e refl in
      inl (num-leaves cs ∙ e, shutdown-after cs w ∙ ap (λ s. unlock_all kill s) returns)
  counted cs w (suc n) e =
      let waits : called (leaves_children cs) (going (holding cs) w) ≡ waiting w = rw e refl in
      inr (
        λ h. omega (arith, h, num-leaves cs, e),
        shutdown-after cs w ∙ ap (λ s. unlock_all kill s) waits,
      )

  -- With all locks free, `Shutdown` returns exactly when no executor is registered, and then it
  -- leaves the manager and the world as they are. Otherwise it waits for ever for a lock that it
  -- holds itself, and the world is as it was: no plugin has been killed.
  pub shutdown_cases : (cs : Children E) (w : W) → Outcomes cs w
  shutdown_cases cs w = counted cs w (leaves_children cs) refl
