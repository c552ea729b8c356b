-- ===== src/Bubbletea/Nodes.antt =====
-- pkg/observer/bubbletea/tasknode.go and styles.go: the children of a node and their styles as the
-- drawing of package lipgloss asks for them. Package orderedmap is a parameter.
use bonk.Base.{
  ℕ, zero, suc, ◌<◌, String, Bool, true, false, List, [], ◌∷◌, length, get_elem?, Option, none,
  some, ◌≡◌, refl, ◌∙◌, ap, arith,
}
use bonk.Observable.{TaskStatus, status_none, status_running, status_success, status_error}
use bonk.Bubbletea.{TaskNode, TaskNodes, shown}

-- A colour of package lipgloss.
pub data Colour : Type 0 where
  plain green red : Colour

-- `lipgloss.Style` as it is used: the text before an item, whether it is faint, and its colour.
pub record Style : Type 0 where
  pub string : String
  pub faint : Bool
  pub foreground : Colour

abbrev pub StatusStyles : Type 0
StatusStyles = TaskStatus → Style

unfoldable pub status_style_clear : StatusStyles
status_style_clear status_none = record { string = "  "; faint = true; foreground = plain }
status_style_clear status_running = record { string = "🔘 "; faint = false; foreground = plain }
status_style_clear status_success = record {
  string = "✔\u{fe0f} ";
  faint = false;
  foreground = green;
}
status_style_clear status_error = record { string = "❌ "; faint = false; foreground = red }

unfoldable pub status_style_circle : StatusStyles
status_style_circle status_none = record { string = "  "; faint = true; foreground = plain }
status_style_circle status_running = record { string = "🔵 "; faint = false; foreground = plain }
status_style_circle status_success = record { string = "🟢 "; faint = false; foreground = green }
status_style_circle status_error = record { string = "🔴 "; faint = false; foreground = red }

-- The elements of an ordered map: `Front`, `Next`, `Value` and `Len`.
pub record Elements (E : Type 0) : Type 0 where
  pub front : TaskNodes → Option E
  pub next : E → Option E
  pub element_value : E → TaskNode
  pub len : TaskNodes → ℕ

-- The elements from one on are those of a list.
abbrev pub Chain : {E : Type 0} → Elements E → Option E → List TaskNode → Type 0
Chain {E} els cur [] = cur ≡ none
Chain {E} els cur (t ∷ ts) =
    (e : E) × (cur ≡ some e) × (els.element_value e ≡ t) × Chain els (els.next e) ts

module _ {E : Type 0} (els : Elements E) where
  -- The loop of `At`, and the value where it ends. `Next` and `Value` of no element panic: `none`.
  unfoldable pub walk : ℕ → Option E → Option TaskNode
  walk index none = none
  walk zero (some cur) = some (els.element_value cur)
  walk (suc index) (some cur) = walk index (els.next cur)

  unfoldable pub at : ℕ → TaskNodes → Option TaskNode
  unfolding walk
  at index children = walk index (els.front children)

  -- `taskNodeStyle`, of the child at an index.
  unfoldable pub task_node_style : StatusStyles → TaskNodes → ℕ → Option Style
  unfolding at
  task_node_style style children i = elim (at i children) [
    | none ↦ none
    | some item ↦ some (style (shown item).0)
  ]

  walk-none : (i : ℕ) → walk i none ≡ none
  unfolding walk
  walk-none zero = refl
  walk-none (suc i) = refl

  walk-get_elem? :
      (ts : List TaskNode) (cur : Option E) (i : ℕ) → Chain els cur ts → walk i cur ≡ get_elem? ts i
  unfolding walk
  walk-get_elem? [] cur i ends = rw ends (walk-none i)
  walk-get_elem? (t ∷ ts) cur zero (e, is, v, rest) = rw is (ap some v)
  walk-get_elem? (t ∷ ts) cur (suc i) (e, is, v, rest) =
      rw is (walk-get_elem? ts (els.next e) i rest)

  -- The child at an index is the one there in the order of the map, and a panic where there is none.
  at-get_elem? :
      (children : TaskNodes) (ts : List TaskNode) (i : ℕ)
      → Chain els (els.front children) ts
      → at i children ≡ get_elem? ts i
  unfolding at
  at-get_elem? children ts i chain = walk-get_elem? ts (els.front children) i chain

  get_elem?-below :
      (ts : List TaskNode) (i : ℕ) → i < length ts → (t : TaskNode) × (get_elem? ts i ≡ some t)
  get_elem?-below [] i h = elim h [ ]
  get_elem?-below (t ∷ ts) zero h = (t, refl)
  get_elem?-below (t ∷ ts) (suc i) h = get_elem?-below ts i (omega arith)

  task_node_style-at :
      (style : StatusStyles) (children : TaskNodes) (i : ℕ) (t : TaskNode)
      → at i children ≡ some t
      → task_node_style style children i ≡ some (style (shown t).0)
  unfolding task_node_style
  task_node_style-at style children i t is = rw (is, task_node_style) refl

  -- Below the length of the children, each of them has a style, that of its status.
  task_node_style-below :
      (style : StatusStyles) (children : TaskNodes) (ts : List TaskNode) (i : ℕ)
      → Chain els (els.front children) ts
      → els.len children ≡ length ts
      → i < els.len children
      → (t : TaskNode) × (get_elem? ts i ≡ some t)
        × (task_node_style style children i ≡ some (style (shown t).0))
  task_node_style-below style children ts i chain long h =
      let (t, is) = get_elem?-below ts i (omega (arith, long, h)) in
      let here = at-get_elem? children ts i chain ∙ is in
      (t, is, task_node_style-at style children i t here)
