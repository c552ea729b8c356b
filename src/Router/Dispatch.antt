-- ===== src/Router/Dispatch.antt =====
-- pkg/executor/router/router.go: `Execute`, beside the description in Route.
use bonk.Base.{String, Option, none, some, ◌≡◌, refl, ap, Bool-cases, inl, inr, ◌==◌}
use bonk.Base.Text.{cut}
use bonk.Errors.{no_executor_found, wrap}
use bonk.Task.Value.{Task, Session}
use bonk.Task.Result.{Result}
use bonk.Executor.{Executor, Execute, Returned}
use bonk.Router.{
  Tree, leaf, router, Children, nil, cons, wildcard, select, restore, execute_tree, execute_under,
  as_executor,
}
use bonk.Router.Route.{Target, choose, route_tree, route_under, route}

module _ {W : Type 0} where
  -- The executor returns the task with the executor's name that it was given.
  abbrev pub Keeps : Execute W → Type 0
  Keeps f =
      (session : Session) (tsk : Task) (result : Option Result) (w : W)
      → (f session tsk result w).tsk.executor ≡ tsk.executor

  abbrev mutual
    pub AllKeepTree : Tree (Executor W) → Type 0
    AllKeepTree (leaf e) = Keeps e.execute
    AllKeepTree (router cs) = AllKeep cs

    pub AllKeep : Children (Executor W) → Type 0
    AllKeep nil = Unit
    AllKeep (cons k t rest) = AllKeepTree t × AllKeep rest

  -- The call that a target stands for: the executor gets the task with the rest of the name, and
  -- the caller gets its whole name back. Without a target there is only an error.
  abbrev pub Agrees : Target (Executor W) → Session → Task → Option Result → W → Returned W → Type 0
  Agrees none session tsk result w r =
      (rest : String) × (r ≡ record {
        err = some (wrap rest no_executor_found);
        tsk = tsk;
        result = result;
        world = w;
      })
  Agrees (some (e, rest)) session tsk result w r =
      r ≡ restore tsk.executor (e.execute session (record tsk { executor = rest }) result w)

  abbrev Matches : Option (String → Target (Executor W)) → Option (Execute W) → Type 0
  Matches none none = Unit
  Matches (some f) (some call) =
      (session : Session) (tsk : Task) (result : Option Result) (w : W)
      → Agrees (f tsk.executor) session tsk result w (call session tsk result w)
  Matches none (some call) = ⊥
  Matches (some f) none = ⊥

  restore-Agrees :
      (target : Target (Executor W)) (session : Session) (tsk : Task) (result : Option Result)
      (w : W) (rest : String) (r : Returned W)
      → Agrees target session (record tsk { executor = rest }) result w r
      → Agrees target session tsk result w (restore tsk.executor r)
  restore-Agrees none session tsk result w rest r (n, h) = (n, ap (restore tsk.executor) h)
  restore-Agrees (some (e, more)) session tsk result w rest r h = ap (restore tsk.executor) h

  select-Agrees :
      (c a b : Option (String → Target (Executor W))) (c' a' b' : Option (Execute W))
      (session : Session) (tsk : Task) (result : Option Result) (w : W)
      → Matches c c'
      → Matches a a'
      → Matches b b'
      → Agrees
          (choose c a b tsk.executor)
          session
          tsk
          result
          w
          (select c' a' b' session tsk result w)
  unfolding select
  select-Agrees (some f) a b (some call) a' b' session tsk result w hc ha hb =
      restore-Agrees (f (cut tsk.executor).1) session tsk result w (cut tsk.executor).1 _
        (hc session (record tsk { executor = (cut tsk.executor).1 }) result w)
  select-Agrees none (some f) b none (some call) b' session tsk result w hc ha hb =
      restore-Agrees (f (cut tsk.executor).1) session tsk result w (cut tsk.executor).1 _
        (ha session (record tsk { executor = (cut tsk.executor).1 }) result w)
  select-Agrees none none (some f) none none (some call) session tsk result w hc ha hb =
      hb session tsk result w
  select-Agrees none none none none none none session tsk result w hc ha hb = (tsk.executor, refl)
  select-Agrees (some f) a b none a' b' session tsk result w hc ha hb = absurd hc
  select-Agrees none a b (some call) a' b' session tsk result w hc ha hb = absurd hc
  select-Agrees none (some f) b none none b' session tsk result w hc ha hb = absurd ha
  select-Agrees none none b none (some call) b' session tsk result w hc ha hb = absurd ha
  select-Agrees none none (some f) none none none session tsk result w hc ha hb = absurd hb
  select-Agrees none none none none none (some call) session tsk result w hc ha hb = absurd hb

  keep_back : (exec : String) (r : Returned W) → r.tsk.executor ≡ exec → r ≡ restore exec r
  keep_back exec r h = ap (λ x. restore x r) h

  mutual
    unfolding execute_tree route_tree

    execute_tree-Agrees :
        (t : Tree (Executor W)) (session : Session) (tsk : Task) (result : Option Result) (w : W)
        → AllKeepTree t
        → Agrees
            (route_tree t tsk.executor)
            session
            tsk
            result
            w
            (execute_tree t session tsk result w)
    execute_tree-Agrees (leaf e) session tsk result w k =
        keep_back tsk.executor (e.execute session tsk result w) (k session tsk result w)
    execute_tree-Agrees (router cs) session tsk result w k =
        select-Agrees (route_under (cut tsk.executor).0 cs) (route_under wildcard cs)
          (route_under "" cs) (execute_under (cut tsk.executor).0 cs) (execute_under wildcard cs)
          (execute_under "" cs) session tsk result w (under-Matches cs (cut tsk.executor).0 k)
          (under-Matches cs wildcard k) (under-Matches cs "" k)

    under-Matches :
        (cs : Children (Executor W)) (key : String)
        → AllKeep cs
        → Matches (route_under key cs) (execute_under key cs)
    under-Matches nil key k = tt
    under-Matches (cons j t rest) key (k, ks) = elim (Bool-cases (j == key)) [
      | inl e ↦ rw e (λ session tsk result w. execute_tree-Agrees t session tsk result w k)
      | inr e ↦ rw e (under-Matches rest key ks)
    ]

  -- Calling a router calls the executor that its name leads to, with the rest of the name in the
  -- task and the whole name back afterwards; where the name leads nowhere, the error is
  -- ErrNoExecutorFound, and task, result and world are as before. The executors themselves leave
  -- the executor's name of their task alone.
  pub execute-route :
      (cs : Children (Executor W)) (session : Session) (tsk : Task) (result : Option Result) (w : W)
      → AllKeep cs
      → Agrees
          (route cs tsk.executor)
          session
          tsk
          result
          w
          ((as_executor cs).execute session tsk result w)
  unfolding route as_executor
  execute-route cs session tsk result w k = execute_tree-Agrees (router cs) session tsk result w k

  Agrees-Keeps :
      (target : Target (Executor W)) (session : Session) (tsk : Task) (result : Option Result)
      (w : W) (r : Returned W)
      → Agrees target session tsk result w r
      → r.tsk.executor ≡ tsk.executor
  Agrees-Keeps none session tsk result w r (rest, h) = ap (λ x. x.tsk.executor) h
  Agrees-Keeps (some (e, rest)) session tsk result w r h = ap (λ x. x.tsk.executor) h

  -- A router of such executors is itself one.
  as_executor-Keeps : (cs : Children (Executor W)) → AllKeep cs → Keeps (as_executor cs).execute
  as_executor-Keeps cs k session tsk result w =
      Agrees-Keeps (route cs tsk.executor) session tsk result w _
        (execute-route cs session tsk result w k)
