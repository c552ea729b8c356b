-- ===== src/Router.antt =====
-- pkg/executor/router/router.go: a tree of executors, addressed by dotted names. An executor that
-- is no `*Router` is a `leaf`. A Go map is a list of its entries, in the order of one iteration;
-- each operation is one critical section of the mutex.
pub mod Entries
pub mod Route
pub mod Register
pub mod Dispatch
pub mod Invariant
pub mod Conservative
pub mod Plain
pub mod Unregister
pub mod Listing
pub mod Count
mod Tests
use Prim.Native.Nat.{max}
use bonk.Base.{
  ℕ, zero, suc, ◌+◌, String, Bool, true, false, List, [], ◌∷◌, ◌++◌, map, Option, none, some, ◌==◌,
  if◌then◌else◌, length,
}
use bonk.Base.Text.{size, cut, join}
use bonk.Errors.{Error, duplicate_executor, no_executor_found, wrap, append_error}
use bonk.Task.Value.{Task, Session}
use bonk.Task.Result.{Result}
use bonk.Executor.{Executor, Execute, Returned}

mutual
  pub data Tree (E : Type 0) : Type 0 where
    leaf : E → Tree E
    router : Children E → Tree E

  pub data Children (E : Type 0) : Type 0 where
    nil : Children E
    cons : String → Tree E → Children E → Children E

-- `RegisterExecutor` leaves the router changed, and returns an error or panics.
pub data Registered (E : Type 0) : Type 0 where
  registered : Children E → Registered E
  refused : Error → Children E → Registered E
  panicked : Error → Registered E
  -- the fuel of the recursion ran out
  unfinished : Registered E

-- The loop of `UnregisterExecutors` is left by its `return`, or goes on to the next name.
pub data Unregistered (E : Type 0) : Type 0 where
  stopped : Children E → Unregistered E
  goes_on : Children E → Unregistered E

-- `Wildcard`
abbrev pub wildcard : String
wildcard = "*"

module _ {E : Type 0} where
  -- `New`
  abbrev pub new : Children E
  new = nil

  -- `r.children[key]`
  unfoldable pub get : String → Children E → Option (Tree E)
  get key nil = none
  get key (cons k child rest) = if k == key then some child else get key rest

  -- `r.children[key] = child`
  unfoldable pub set : String → Tree E → Children E → Children E
  set key child nil = cons key child nil
  set key child (cons k old rest) =
      if k == key then cons k child rest else cons k old (set key child rest)

  -- `delete(r.children, key)`
  unfoldable pub delete : String → Children E → Children E
  delete key nil = nil
  delete key (cons k child rest) = if k == key then rest else cons k child (delete key rest)

  -- `len(r.children) > 0`
  abbrev has_children : Children E → Bool
  has_children nil = false
  has_children (cons k child rest) = true

  unfoldable mutual
    pub depth : Tree E → ℕ
    depth (leaf e) = 0
    depth (router cs) = suc (depth_children cs)

    pub depth_children : Children E → ℕ
    depth_children nil = 0
    depth_children (cons k child rest) = max (depth child) (depth_children rest)

  -- Goes on in a sub-router and puts it, as it is left, under its key.
  abbrev pub under : String → Children E → Registered E → Registered E
  under key cs (registered sub) = registered (set key (router sub) cs)
  under key cs (refused e sub) = refused e (set key (router sub) cs)
  under key cs (panicked e) = panicked e
  under key cs unfinished = unfinished

  -- `if err != nil { panic(err) }` after a registration, then the rest.
  abbrev pub or_panic : Registered E → (Children E → Registered E) → Registered E
  or_panic (registered sub) rest = rest sub
  or_panic (refused e sub) rest = panicked e
  or_panic (panicked e) rest = panicked e
  or_panic unfinished rest = unfinished

  unfoldable pub register_fuel : ℕ → Children E → String → Tree E → Registered E
  register_fuel zero cs name exec = unfinished
  register_fuel (suc fuel) cs name exec =
      let (before, after, needs_sub_router) = cut name in
      elim (get before cs) [
        | some (router sub) ↦ under before cs (register_fuel fuel sub after exec)
        | some (leaf old) ↦ elim needs_sub_router [
          | true ↦ under before cs (
              or_panic (register_fuel fuel nil "" (leaf old))
                (λ sub. register_fuel fuel sub after exec))
          | false ↦ refused (wrap before duplicate_executor) cs
        ]
        | none ↦ elim needs_sub_router [
          | true ↦ under before cs (register_fuel fuel nil after exec)
          | false ↦ registered (set before exec cs)
        ]
      ]

  -- Each call goes down a level of the tree or takes a part off the name, or both.
  abbrev pub register_bound : Children E → String → ℕ
  register_bound cs name = suc (size name + depth_children cs)

  unfoldable pub register_executor : Children E → String → Tree E → Registered E
  unfolding register_fuel get set cut depth
  register_executor cs name exec = register_fuel (register_bound cs name) cs name exec

  -- A round of the loop of `UnregisterExecutors`. `child` is the entry under the first part of the
  -- name: nothing for an executor that is no `*Router`, or what its `UnregisterExecutors` leaves.
  unfoldable pub unregister_round :
      Children E → String → Option (String → Option (Children E)) → Unregistered E
  unregister_round cs name none = stopped cs
  unregister_round cs name (some child) =
      let (before, after, found) = cut name in
      elim (child after) [
        | none ↦ goes_on (delete name cs)
        | some sub ↦
            let cs' = set before (router sub) cs in
            if has_children sub then stopped cs' else goes_on (delete name cs')
      ]

  abbrev pub children_left : Unregistered E → Children E
  children_left (stopped cs) = cs
  children_left (goes_on cs) = cs

  unfoldable mutual
    pub unregister_tree : Tree E → String → Option (Children E)
    unregister_tree (leaf e) name = none
    unregister_tree (router cs) name =
        some (children_left (unregister_round cs name (unregister_under (cut name).0 cs)))

    pub unregister_under : String → Children E → Option (String → Option (Children E))
    unregister_under key nil = none
    unregister_under key (cons k child rest) =
        if k == key then some (unregister_tree child) else unregister_under key rest

  unfoldable pub unregister_executors : Children E → List String → Children E
  unfolding unregister_round unregister_tree get set delete cut
  unregister_executors cs [] = cs
  unregister_executors cs (name ∷ names) =
      elim (unregister_round cs name (unregister_under (cut name).0 cs)) [
        | stopped cs' ↦ cs'
        | goes_on cs' ↦ unregister_executors cs' names
      ]

  -- `forEachExecutorImpl` and `ForEachExecutor`, with the callback's state passed through.
  module _ {S : Type 0} (fun : String → E → S → S) where
    unfoldable mutual
      pub for_each_executor_impl : String → Tree E → S → S
      for_each_executor_impl working_name (leaf e) s = fun working_name e s
      for_each_executor_impl working_name (router cs) s = for_each_child working_name cs s

      pub for_each_child : String → Children E → S → S
      for_each_child working_name nil s = s
      for_each_child working_name (cons name child rest) s = for_each_child working_name rest (
          for_each_executor_impl
            (if name == "" then working_name else join (working_name ∷ name ∷ [])) child s)

    unfoldable pub for_each_executor : Children E → S → S
    unfolding for_each_executor_impl join
    for_each_executor nil s = s
    for_each_executor (cons name child rest) s =
        for_each_executor rest (for_each_executor_impl name child s)

  unfoldable pub get_num_executors : Children E → ℕ
  unfolding for_each_executor
  get_num_executors cs = for_each_executor (λ name exec n. n + 1) cs 0

module _ {W : Type 0} where
  -- `tsk.Executor = exec` after the child's call.
  abbrev pub restore : String → Returned W → Returned W
  restore exec r = record r { tsk = record (r.tsk) { executor = exec } }

  -- The choice among the entries under the first part of the name, "*" and "".
  unfoldable pub select : Option (Execute W) → Option (Execute W) → Option (Execute W) → Execute W
  select child any fallback session tsk result w =
      let exec = tsk.executor in
      let (before, after, found) = cut exec in
      elim child [
        | some call ↦ restore exec (call session (record tsk { executor = after }) result w)
        | none ↦ elim any [
          | some call ↦ restore exec (call session (record tsk { executor = after }) result w)
          | none ↦ elim fallback [
            | some call ↦ call session tsk result w
            | none ↦ record {
              err = some (wrap exec no_executor_found);
              tsk = tsk;
              result = result;
              world = w;
            }
          ]
        ]
      ]

  unfoldable mutual
    pub execute_tree : Tree (Executor W) → Execute W
    execute_tree (leaf e) session tsk result w = e.execute session tsk result w
    execute_tree (router cs) session tsk result w =
        select (execute_under (cut tsk.executor).0 cs) (execute_under wildcard cs)
          (execute_under "" cs) session tsk result w

    pub execute_under : String → Children (Executor W) → Option (Execute W)
    execute_under key nil = none
    execute_under key (cons k child rest) =
        if k == key then some (execute_tree child) else execute_under key rest

  -- `OpenSession` opens every executor's session and collects the errors.
  unfoldable pub open_session : Children (Executor W) → Session → W → Option Error × W
  unfolding for_each_executor
  open_session cs session w =
      for_each_executor
        (λ name exec (err, v).
          let (opened, v') = exec.open_session session v in (append_error err opened, v'))
        cs (none, w)

  unfoldable pub close_session : Children (Executor W) → ℕ → W → W
  unfolding for_each_executor
  close_session cs id w = for_each_executor (λ name exec v. exec.close_session id v) cs w

  -- A router is itself an executor.
  unfoldable pub as_executor : Children (Executor W) → Executor W
  unfolding execute_tree select open_session close_session get cut
  as_executor cs = record {
    execute = execute_tree (router cs);
    open_session = open_session cs;
    close_session = close_session cs;
  }
