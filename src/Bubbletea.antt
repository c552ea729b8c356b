-- ===== src/Bubbletea.antt =====
-- pkg/observer/bubbletea: the tree of tasks that is shown while they run (tasktree.go, tasknode.go).
-- A `*taskNode` that is changed in place is put back where it stands. The children of a node
-- (package orderedmap) and those of the whole tree (package lipgloss) are `Containers`.
pub mod Paths
pub mod Top
pub mod Update
pub mod Model
pub mod Shows
pub mod Observer
pub mod Nodes
mod Tests
use bonk.Base.{
  ℕ, zero, suc, ◌+◌, String, Bool, true, false, List, [], ◌∷◌, ◌++◌, Option, none, some, ◌==◌,
  if◌then◌else◌, ◌≡◌, ◌≢◌,
}
use bonk.Base.Text.{append, cut, size}
use bonk.Errors.{Error}
use bonk.Observable.{TaskStatus, status_none, TaskStatusMsg}

mutual
  pub data TaskNode : Type 0 where
    node : String → TaskStatus → Option Error → TaskNodes → TaskNode

  pub data TaskNodes : Type 0 where
    no_nodes : TaskNodes
    with_node : String → TaskNode → TaskNodes → TaskNodes

abbrev pub name : TaskNode → String
name (node n status err children) = n

abbrev pub children : TaskNode → TaskNodes
children (node n status err cs) = cs

-- `SetValue`
abbrev pub set_value : TaskStatusMsg → TaskNode → TaskNode
set_value msg (node n status err cs) = node n msg.status msg.error cs

-- The parts of a node that its line shows.
abbrev pub shown : TaskNode → TaskStatus × Option Error
shown (node n status err cs) = (status, err)

-- `Value`. The line ends in twelve blanks.
module _ (error_text : Error → String) where
  unfoldable pub value : TaskNode → String
  value (node n status none cs) = append n "            "
  value (node n status (some e) cs) = append n (append ": " (append (error_text e) "            "))

pub record Containers : Type 0 where
  -- `orderedmap.NewOrderedMap`, `Get` and `Set`
  pub empty : TaskNodes
  pub get : String → TaskNodes → Option TaskNode
  pub set : String → TaskNode → TaskNodes → TaskNodes
  -- `Child` of a `tree.Tree`
  pub add_child : TaskNode → List TaskNode → List TaskNode

pub record IsContainers (c : Containers) : Type 0 where
  pub get-empty : (k : String) → c.get k c.empty ≡ none
  pub get-set_self : (k : String) (n : TaskNode) (cs : TaskNodes) → c.get k (c.set k n cs) ≡ some n
  pub get-set_ne :
      (k j : String) (n : TaskNode) (cs : TaskNodes) → j ≢ k → c.get j (c.set k n cs) ≡ c.get j cs
  pub added_last : (n : TaskNode) (ts : List TaskNode) → c.add_child n ts ≡ ts ++ (n ∷ [])

-- What the search in the top level comes to; `stuck` when the loop below runs out of fuel.
pub data Searched : Type 0 where
  absent stuck : Searched
  changed : List TaskNode → Searched

module _ (c : Containers) where
  -- `makeTaskNode`
  abbrev pub make_task_node : String → TaskNode
  make_task_node n = node n status_none none c.empty

  -- `newChild`: the child of that name, or a new one.
  abbrev pub new_child : String → Option TaskNode → TaskNode
  new_child n none = make_task_node n
  new_child n (some t) = t

  abbrev pub put_child : String → TaskNode → TaskNode → TaskNode
  put_child k child (node n status err cs) = node n status err (c.set k child cs)

  -- The loop over the rest of the task's id, from the node that is reached. `none` when the fuel of
  -- the loop runs out.
  unfoldable pub descend : ℕ → TaskStatusMsg → String → Bool → TaskNode → Option TaskNode
  descend zero msg path has_children cur = none
  descend (suc fuel) msg path has_children cur =
      let (cur_name, rest, more) = cut path in
      let below = descend fuel msg rest more (new_child cur_name (c.get cur_name (children cur))) in
      elim has_children [
        | false ↦ some (set_value msg cur)
        | true ↦ elim below [ none ↦ none | some child ↦ some (put_child cur_name child cur) ]
      ]

  -- The search in the top level, and what then becomes of the node that it finds.
  unfoldable pub update_top : String → (TaskNode → Option TaskNode) → List TaskNode → Searched
  update_top cur_name f [] = absent
  update_top cur_name f (t ∷ ts) =
      if name t == cur_name
      then (elim (f t) [ none ↦ stuck | some t' ↦ changed (t' ∷ ts) ])
      else (elim (update_top cur_name f ts) [
        | absent ↦ absent
        | stuck ↦ stuck
        | changed ts' ↦ changed (t ∷ ts')
      ])

  -- `Update` of a `TaskStatusMsg`, by the parts of its id. Each round of the loop but the last takes
  -- a separator off the id.
  abbrev pub update_cut :
      TaskStatusMsg → List TaskNode → String × String × Bool → Option (List TaskNode)
  update_cut msg ts (cur_name, child_path, has_children) =
      let f = descend (size child_path + 2) msg child_path has_children in
      elim (update_top cur_name f ts) [
        | changed ts' ↦ some ts'
        | stuck ↦ none
        | absent ↦ elim (f (make_task_node cur_name)) [
          | none ↦ none
          | some t ↦ some (c.add_child t ts)
        ]
      ]

  unfoldable pub update : TaskStatusMsg → List TaskNode → Option (List TaskNode)
  unfolding descend update_top cut
  update msg ts = update_cut msg ts (cut msg.task_id)
