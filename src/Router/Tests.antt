-- ===== src/Router/Tests.antt =====
-- Routers of one and of two levels, and runs on them.
use bonk.Base.{String, List, [], ◌∷◌, ◌+◌, none, some, ◌≡◌, refl, ℕ, texts_differ}
use bonk.Task.Value.{Value, Task, new_test_session}
use bonk.Errors.{duplicate_executor, wrap}
use bonk.Executor.{Executor}
use bonk.Router.{
  leaf, router, Children, nil, cons, get, registered, refused, register_executor,
  unregister_executors, as_executor,
}
use bonk.Router.Route.{route}
use bonk.Router.Register.{IsDone, register_executor-IsDone, route-register_executor}
use bonk.Router.Dispatch.{Agrees, execute-route}
use bonk.Router.Invariant.{IsValid, LeavesValid, register_executor-LeavesValid}
use bonk.Router.Unregister.{unregister-register_executor}

abbrev one_executor : Children ℕ
one_executor = cons "a" (leaf 1) nil

-- "a" is now nameless in a router of its own, beside "a.b".
abbrev two_levels : Children ℕ
two_levels = cons "a" (router (cons "" (leaf 1) (cons "b" (leaf 2) nil))) nil

abbrev three_executors : Children ℕ
three_executors =
    cons "a" (router (cons "" (leaf 1) (cons "b" (leaf 2) nil))) (cons "c" (leaf 3) nil)

register_dotted : register_executor one_executor "a.b" (leaf 2) ≡ registered two_levels
unfolding register_executor
register_dotted = refl

register_again :
    register_executor one_executor "a" (leaf 2) ≡ refused (wrap "a" duplicate_executor) one_executor
unfolding register_executor
register_again = refl

register_third : register_executor two_levels "c" (leaf 3) ≡ registered three_executors
unfolding register_executor
register_third = refl

register_executor-IsDone_example : IsDone (register_executor one_executor "a.b" (leaf 2))
register_executor-IsDone_example = register_executor-IsDone one_executor "a.b" (leaf 2)

route-register_executor_example : route two_levels "a.b" ≡ some (2, "")
route-register_executor_example =
    route-register_executor one_executor two_levels "a.b" 2 register_dotted

one_executor-IsValid : IsValid one_executor
one_executor-IsValid = ((refl, tt), tt, tt, tt)

three_executors-IsValid : IsValid three_executors
three_executors-IsValid = (
  (refl, tt),
  (texts_differ "c" "a" refl, tt),
  (tt, (texts_differ "b" "" refl, tt), tt, ((refl, tt), tt, tt, tt)),
  ((refl, tt), tt, tt, tt),
)

two_levels-IsValid : IsValid two_levels
two_levels-IsValid =
    ((refl, tt), tt, (tt, (texts_differ "b" "" refl, tt), tt, ((refl, tt), tt, tt, tt)), tt)

register_executor-LeavesValid_example : LeavesValid (register_executor one_executor "a.b" (leaf 2))
register_executor-LeavesValid_example =
    register_executor-LeavesValid one_executor "a.b" (leaf 2) one_executor-IsValid tt

unregister-register_executor_example : unregister_executors three_executors ("c" ∷ []) ≡ two_levels
unfolding get
unregister-register_executor_example =
    unregister-register_executor two_levels three_executors "c" 3 (refl, tt) refl register_third

-- An executor that adds to the world, and one that fails.
abbrev adds : ℕ → Executor ℕ
adds n = record {
  execute =
      λ session tsk result w. record { err = none; tsk = tsk; result = result; world = w + n };
  open_session = λ session w. (none, w);
  close_session = λ id w. w;
}

abbrev adders : Children (Executor ℕ)
adders = cons "a" (router (cons "" (leaf (adds 1)) (cons "*" (leaf (adds 2)) nil))) nil

abbrev a_task : String → Task
a_task name = record {
  id = "task";
  executor = name;
  inputs = none;
  dependencies = none;
  args = Value.nil;
}

-- The wildcard takes "b".
execute-route_example :
    Agrees
      (route adders "a.b")
      new_test_session
      (a_task "a.b")
      none
      0
      ((as_executor adders).execute new_test_session (a_task "a.b") none 0)
execute-route_example =
    execute-route adders new_test_session (a_task "a.b") none 0
      (((λ session tsk result w. refl), ((λ session tsk result w. refl), tt)), tt)

execute_wildcard :
    (as_executor adders).execute new_test_session (a_task "a.b") none 0
    ≡ record { err = none; tsk = a_task "a.b"; result = none; world = 2 }
unfolding as_executor new_test_session
execute_wildcard = refl

-- Each visited name is collected if it leads to its executor.
abbrev name_of : String → ℕ → List ℕ → List ℕ
name_of name e ns = e ∷ ns

abbrev Known : List ℕ → Type 0
Known [] = Unit
Known (e ∷ ns) = ((name : String) × (route three_executors name ≡ some (e, ""))) × Known ns
