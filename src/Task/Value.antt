-- ===== src/Task/Value.antt =====
-- pkg/task/task.go and pkg/task/session.go: tasks, sessions and the values that tasks carry.
use bonk.Base.{ℕ, String, Bool, false, true, Option, none, some, List, [], ◌++◌}

-- A Go value of type `any`. Integers and floats are the bit patterns of 64 bits; a value of a kind
-- that has no JSON form (a function, a channel) is `opaque`. A slice and a map
-- are what they hold: the static type of their elements is not told, and a nil one of a certain type
-- is an empty one.
mutual
  pub data Value : Type 0 where
    nil : Value
    bool : Bool → Value
    int : ℕ → Value
    float : ℕ → Value
    text : String → Value
    opaque : ℕ → Value
    pointer : Value → Value
    slice : Values → Value
    dict : Fields → Value
    struct : Fields → Value

  pub data Values : Type 0 where
    empty : Values
    item : Value → Values → Values

  pub data Fields : Type 0 where
    end : Fields
    field : String → Value → Fields → Fields

-- A Go slice: `none` is the nil slice, which differs from an empty one under `reflect.DeepEqual`
-- and in JSON.
abbrev pub Slice {ℓ} : Type ℓ → Type ℓ
Slice A = Option (List A)

abbrev pub elements {ℓ} : {A : Type ℓ} → Slice A → List A
elements none = []
elements (some xs) = xs

-- `append(s, xs...)`: appending nothing to nil leaves nil.
abbrev pub append_slice {ℓ} : {A : Type ℓ} → Slice A → List A → Slice A
append_slice none [] = none
append_slice none (List.◌∷◌ x xs) = some (List.◌∷◌ x xs)
append_slice (some ys) xs = some (ys ++ xs)

pub record Task : Type 0 where
  pub id : String
  pub executor : String
  pub inputs : Slice String
  pub dependencies : Slice String
  pub args : Value

-- `task.Option` is `func(*Task)`.
abbrev pub TaskOption : Type 0
TaskOption = Task → Task

abbrev apply_options : List TaskOption → Task → Task
apply_options [] tsk = tsk
apply_options (List.◌∷◌ opt options) tsk = apply_options options (opt tsk)

unfoldable pub new : String → String → Value → List TaskOption → Task
new id executor args options =
    apply_options options
      (record { id = id; executor = executor; inputs = none; dependencies = none; args = args })

unfoldable pub with_inputs : List String → TaskOption
with_inputs inputs tsk = record tsk { inputs = append_slice tsk.inputs inputs }

unfoldable pub with_dependencies : List String → TaskOption
with_dependencies dependencies tsk = record tsk {
  dependencies = append_slice tsk.dependencies dependencies;
}

-- The kinds of `task.Session` that the program makes, by what it later asks of them: a session on
-- the local disk with its path, the in-memory one of the tests, one given by its parts, and one as
-- package rpc wraps it for an executor behind a server.
pub data Workspace : Type 0 where
  local : String → Workspace
  in_memory : Workspace
  custom : Workspace
  of_server : Workspace → Workspace

pub record Session : Type 0 where
  pub id : ℕ
  pub workspace : Workspace

unfoldable pub new_local_session : ℕ → String → Session
new_local_session id path = record { id = id; workspace = local path }

-- Its id is `uuid.Nil`.
unfoldable pub new_test_session : Session
new_test_session = record { id = 0; workspace = in_memory }

-- A wrapped session has a path in any case (`grpcServerSession.LocalPath`).
abbrev pub path_of : Workspace → Option String
path_of (local p) = some p
path_of in_memory = none
path_of custom = none
path_of (of_server w) = some (elim (path_of w) [ some p ↦ p | none ↦ "" ])

-- The assertion `session.(task.LocalSession)` with `LocalPath`.
unfoldable pub local_path : Session → Option String
local_path s = path_of s.workspace

abbrev pub holds_memory : Workspace → Bool
holds_memory (local p) = false
holds_memory in_memory = true
holds_memory custom = false
holds_memory (of_server w) = holds_memory w

-- The assertion `session.SourceFS().(*afero.MemMapFs)`.
unfoldable pub is_in_memory : Session → Bool
is_in_memory s = holds_memory s.workspace
