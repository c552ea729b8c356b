-- ===== src/Bubbletea/Model.antt =====
-- pkg/observer/bubbletea/model.go: the model of the terminal program and its updates by messages.
-- Packages tea, lipgloss and spew are known by what they are given.
use bonk.Base.{
  ℕ, String, Bool, true, false, not, ◌&&◌, List, [], ◌∷◌, ◌++◌, Option, none, some, ◌==◌, nat_eq,
  if◌then◌else◌,
}
use bonk.Observable.{TaskStatusMsg}
use bonk.Bubbletea.{TaskNode, Containers, update}

-- `tea.Msg`: a key with its modifier and code, the status of a task, the message that the command
-- `tea.Quit` sends, at some later moment, and any other by the name of its type and what package spew
-- prints of it.
pub data Msg : Type 0 where
  quitting : Msg
  key : Bool → ℕ → Msg
  status : TaskStatusMsg → Msg
  other : String → String → Msg

-- The commands that an update gives to the program.
pub data Cmd : Type 0 where
  quit : Cmd
  println : String → Cmd

-- `teaModel`
pub record Model : Type 0 where
  pub tree : List TaskNode
  pub debug_dump : Bool

-- `Init`
unfoldable pub init : Model → Model
init model = record model { tree = [] }

-- The switch of `Update`, which the program does not call for its own message `quitting`.
unfoldable pub commands : Bool → Msg → List Cmd
commands debug_dump (key ctrl code) = if ctrl && nat_eq code b'c' then quit ∷ [] else []
commands debug_dump (status msg) = []
commands debug_dump quitting = []
commands debug_dump (other type_name dump) =
    if debug_dump && not (type_name == "printLineMessage") then println dump ∷ [] else []

-- The message at which the program's loop ends.
abbrev pub ends : Msg → Bool
ends quitting = true
ends (key ctrl code) = false
ends (status msg) = false
ends (other type_name dump) = false

module _ (c : Containers) where
  -- The tree's own `Update`, which takes the status of a task and no other message.
  unfoldable pub update_tree : Msg → List TaskNode → Option (List TaskNode)
  unfolding update
  update_tree (status msg) ts = update c msg ts
  update_tree quitting ts = some ts
  update_tree (key ctrl code) ts = some ts
  update_tree (other type_name dump) ts = some ts

  abbrev pub put_tree : Model → Option (List TaskNode) → Option Model
  put_tree model none = none
  put_tree model (some ts) = some (record model { tree = ts })

  -- `Update`: the model, and the batch of commands.
  unfoldable pub update_model : Msg → Model → Option Model × List Cmd
  unfolding update_tree commands
  update_model msg model =
      (put_tree model (update_tree msg model.tree), commands model.debug_dump msg)

  -- The program's loop over the messages that come, with all the commands that it is given. It ends
  -- at `quitting`.
  abbrev pub then_run :
      (Model → Option Model × List Cmd) → Option Model × List Cmd → Option Model × List Cmd
  then_run f (none, cmds) = (none, cmds)
  then_run f (some model, cmds) = ((f model).0, cmds ++ (f model).1)

  unfoldable pub run : List Msg → Model → Option Model × List Cmd
  unfolding update_model
  run [] model = (some model, [])
  run (msg ∷ msgs) model =
      let rest = run msgs in
      if ends msg then (some model, []) else then_run rest (update_model msg model)
