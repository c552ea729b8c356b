-- ===== src/Bubbletea/Tests.antt =====
-- Containers that are lists, and three messages.
use bonk.Base.{
  ℕ, suc, String, false, true, All, List, [], ◌∷◌, ◌++◌, Option, none, some, if◌then◌else◌, ◌==◌,
  ◌≡◌, ◌≢◌, refl, sym, eq_refl, text-cases, inl, inr, arith,
}
use bonk.Base.Text.{NoSep}
use bonk.Errors.{Error, message}
use bonk.Task.Id.{new_id}
use bonk.Observable.{
  status_none, status_running, status_error, status_success, TaskStatus, TaskStatusMsg,
}
use bonk.Bubbletea.{
  TaskNode, node, TaskNodes, no_nodes, with_node, Containers, IsContainers, update, value,
}
use bonk.Bubbletea.Top.{shown_at}
use bonk.Bubbletea.Model.{Msg, quitting, key, status, other, quit, println, Model, run}
use bonk.Bubbletea.Observer.{new, tell}
use bonk.Bubbletea.Nodes.{
  Elements, status_style_clear, status_style_circle, walk, at, task_node_style,
}
use bonk.Bubbletea.Observer.{quit as quit_observer}
use bonk.Bubbletea.Shows.{last_of, run-last_of}

get_list : String → TaskNodes → Option TaskNode
get_list k no_nodes = none
get_list k (with_node j n cs) = if j == k then some n else get_list k cs

set_list : String → TaskNode → TaskNodes → TaskNodes
set_list k n no_nodes = with_node k n no_nodes
set_list k n (with_node j m cs) =
    if j == k then with_node j n cs else with_node j m (set_list k n cs)

lists : Containers
unfolding get_list set_list
lists = record {
  empty = no_nodes;
  get = get_list;
  set = set_list;
  add_child = λ n ts. ts ++ (n ∷ []);
}

get-set_self : (k : String) (n : TaskNode) (cs : TaskNodes) → get_list k (set_list k n cs) ≡ some n
unfolding get_list set_list
get-set_self k n no_nodes = ground (arith, eq_refl k)
get-set_self k n (with_node j m cs) = ground (arith, get-set_self k n cs)

get-set_ne :
    (k j : String) (n : TaskNode) (cs : TaskNodes)
    → j ≢ k
    → get_list j (set_list k n cs) ≡ get_list j cs
unfolding get_list set_list
get-set_ne k j n no_nodes ne = elim (text-cases k j) [
  | inl (b, e) ↦ absurd (ne (sym e))
  | inr (b, e) ↦ rw (b, get_list) refl
]
get-set_ne k j n (with_node i m cs) ne = elim (text-cases k j) [
  | inl (b, e) ↦ absurd (ne (sym e))
  | inr (b, e) ↦ elim (text-cases i k) [
    | inl (d, f) ↦ let ij : (i == j) ≡ false = rw f b in ground (arith, d, ij)
    | inr (d, f) ↦ let ih = get-set_ne k j n cs ne in ground (arith, d, ih)
  ]
]

lists-IsContainers : IsContainers lists
unfolding lists get_list
lists-IsContainers = record {
  get-empty = λ k. refl;
  get-set_self = get-set_self;
  get-set_ne = get-set_ne;
  added_last = λ n ts. refl;
}

abbrev msg : TaskStatusMsg
msg = record { task_id = "a.b"; status = status_error; error = some (message "no") }

abbrev before : List TaskNode
before =
    node "a" status_running none (with_node "c" (node "c" status_success none no_nodes) no_nodes)
    ∷ []

abbrev after : List TaskNode
after =
    node "a" status_running none (
      with_node "c" (node "c" status_success none no_nodes)
        (with_node "b" (node "b" status_error (some (message "no")) no_nodes) no_nodes))
    ∷ []

update-before : update lists msg before ≡ some after
unfolding update lists
update-before = refl

value_line :
    value (λ e. "no") (node "b" status_error (some (message "no")) no_nodes) ≡ "b: no            "
unfolding value
value_line = refl

-- A run of the program: keys, a line that was printed, and two messages of one task.
abbrev msgs : List Msg
msgs =
    key false b'c'
    ∷ status (record msg { status = status_running; error = none })
    ∷ other "printLineMessage" "{}"
    ∷ status msg
    ∷ key true b'c'
    ∷ quitting
    ∷ status (record msg { status = status_running; error = none })
    ∷ []

abbrev model : Model
model = record { tree = before; debug_dump = true }

run_msgs : run lists msgs model ≡ (some (record model { tree = after }), quit ∷ [])
unfolding run lists
run_msgs = refl

run_dump : (run lists (other "tick" "{}" ∷ []) model).1 ≡ println "{}" ∷ []
unfolding run
run_dump = refl

run-last_of_example :
    (model' : Model) × ((run lists msgs model).0 ≡ some model')
    × ((x : TaskStatus × Option Error)
        → last_of (new_id ("a" ∷ "b" ∷ [])) (shown_at lists ("a" ∷ "b" ∷ []) before) msgs ≡ some x
        → shown_at lists ("a" ∷ "b" ∷ []) model'.tree ≡ some x)
unfolding new_id
run-last_of_example =
    let ab : All NoSep ("a" ∷ "b" ∷ []) = ((refl, tt), ((refl, tt), tt)) in
    run-last_of lists lists-IsContainers "a" ("b" ∷ []) ab msgs model (
      tt,
      (
        ("a", "b" ∷ [], ab, refl),
        (tt, (("a", "b" ∷ [], ab, refl), (tt, (tt, (("a", "b" ∷ [], ab, refl), tt))))),
      ),
    )

-- A new observer that is told of one task, and is quit.
abbrev shown_b : Model
shown_b = record {
  tree =
      node "a" status_none none
        (with_node "b" (node "b" status_error (some (message "no")) no_nodes) no_nodes)
      ∷ [];
  debug_dump = true;
}

told_b :
    tell lists (msg ∷ []) (new true)
    ≡ some (record { model = shown_b; running = true; logs_to_program = true })
unfolding tell new lists
told_b = refl

-- Nothing is taken after the end.
told_late :
    tell lists (msg ∷ []) (quit_observer lists (new true)) ≡ some (quit_observer lists (new true))
unfolding tell quit_observer
told_late = refl

-- An element of these containers is a node with what comes after it.
front_list : TaskNodes → Option (TaskNode × TaskNodes)
front_list no_nodes = none
front_list (with_node k n cs) = some (n, cs)

len_list : TaskNodes → ℕ
len_list no_nodes = 0
len_list (with_node k n cs) = suc (len_list cs)

elements : Elements (TaskNode × TaskNodes)
unfolding front_list len_list
elements = record {
  front = front_list;
  next = λ e. front_list e.1;
  element_value = λ e. e.0;
  len = len_list;
}

abbrev two_children : TaskNodes
two_children =
    with_node "c" (node "c" status_success none no_nodes)
      (with_node "b" (node "b" status_error none no_nodes) no_nodes)

style_second :
    task_node_style elements status_style_clear two_children 1
    ≡ some (status_style_clear status_error)
unfolding task_node_style at walk elements front_list
style_second = refl

style_circle :
    task_node_style elements status_style_circle two_children 0
    ≡ some (status_style_circle status_success)
unfolding task_node_style at walk elements front_list
style_circle = refl

style_third : task_node_style elements status_style_clear two_children 2 ≡ none
unfolding task_node_style at walk elements front_list
style_third = refl
