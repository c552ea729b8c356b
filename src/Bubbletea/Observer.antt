-- ===== src/Bubbletea/Observer.antt =====
-- pkg/observer/bubbletea/observer.go: the observer around the terminal program.
use bonk.Base.{
  String, Bool, true, false, List, [], ◌∷◌, Option, none, some, All, map, ◌≡◌, refl, sym, ◌∙◌, ap,
  Option-cases, inl, inr,
}
use bonk.Base.Text.{NoSep}
use bonk.Errors.{Error}
use bonk.Task.Id.{new_id}
use bonk.Observable.{TaskStatus, TaskStatusMsg}
use bonk.Bubbletea.{TaskNode, update, Containers, IsContainers}
use bonk.Bubbletea.Top.{shown_at}
use bonk.Bubbletea.Model.{Msg, status, Model, init, update_model, update_tree, run}
use bonk.Bubbletea.Shows.{last_of, IsNamed, run-last_of}

-- The program while it runs and after it; whether the process's logger prints to it.
pub record Observer : Type 0 where
  pub model : Model
  pub running : Bool
  pub logs_to_program : Bool

-- `New`
unfoldable pub new : Bool → Observer
unfolding init
new debug_dump = record {
  model = init (record { tree = []; debug_dump = debug_dump });
  running = true;
  logs_to_program = true;
}

module _ (c : Containers) where
  abbrev pub put_model : Observer → Option Model → Option Observer
  put_model o none = none
  put_model o (some model) = some (record o { model = model })

  -- `program.Send`, which waits until the program takes the message. It does nothing once the program
  -- has ended.
  abbrev pub send : Msg → Observer → Option Observer
  send msg o = elim o.running [ true ↦ put_model o (update_model c msg o.model).0 | false ↦ some o ]

  -- `OnTaskStatusMsg`
  unfoldable pub on_task_status_msg : TaskStatusMsg → Observer → Option Observer
  unfolding update_model
  on_task_status_msg tsm o = send (status tsm) o

  -- `Quit`, which waits for the program's end; the process then logs as before.
  unfoldable pub quit : Observer → Observer
  quit o = record o { running = false; logs_to_program = false }

  -- The calls that a listener gets.
  abbrev pub then_tell : (Observer → Option Observer) → Option Observer → Option Observer
  then_tell f none = none
  then_tell f (some o) = f o

  unfoldable pub tell : List TaskStatusMsg → Observer → Option Observer
  unfolding on_task_status_msg
  tell [] o = some o
  tell (tsm ∷ rest) o = then_tell (tell rest) (on_task_status_msg tsm o)

  -- An observer whose program runs.
  abbrev live : Bool → Model → Observer
  live logs model = record { model = model; running = true; logs_to_program = logs }

  tell-next :
      (tsm : TaskStatusMsg) (rest : List TaskStatusMsg) (logs : Bool) (model : Model)
      (ts : List TaskNode)
      → update c tsm model.tree ≡ some ts
      → tell (tsm ∷ rest) (live logs model) ≡ tell rest (live logs (record model { tree = ts }))
  unfolding tell
  tell-next tsm rest logs model ts e = rw (e, tell) refl

  run-next :
      (tsm : TaskStatusMsg) (msgs : List Msg) (model : Model) (ts : List TaskNode)
      → update c tsm model.tree ≡ some ts
      → (run c (status tsm ∷ msgs) model).0 ≡ (run c msgs (record model { tree = ts })).0
  unfolding run
  run-next tsm msgs model ts e = rw (e, run, update_model, update_tree) refl

  run_fails :
      (tsm : TaskStatusMsg) (msgs : List Msg) (model : Model)
      → update c tsm model.tree ≡ none
      → (run c (status tsm ∷ msgs) model).0 ≡ none
  unfolding run
  run_fails tsm msgs model e = rw (e, run, update_model, update_tree) refl

  -- A listener's calls are the messages of the program's loop.
  tell-run :
      (msgs : List TaskStatusMsg) (logs : Bool) (model model' : Model)
      → (run c (map status msgs) model).0 ≡ some model'
      → tell msgs (live logs model) ≡ some (live logs model')
  unfolding tell run
  tell-run [] logs model model' h =
      let same : model ≡ model' = cc in ap (λ m. some (live logs m)) same
  tell-run (tsm ∷ rest) logs model model' h = elim (Option-cases (update c tsm model.tree)) [
    | inl e ↦ let bad = run_fails tsm (map status rest) model e in absurd cc
    | inr (ts, e) ↦
        tell-next tsm rest logs model ts e
        ∙ tell-run rest logs (record model { tree = ts }) model'
            (sym (run-next tsm (map status rest) model ts e) ∙ h)
  ]

  module _ (law : IsContainers c) (p : String) (ps : List String) (names : All NoSep (p ∷ ps)) where
    abbrev pub AllNamed : List TaskStatusMsg → Type 0
    AllNamed msgs = All (λ (m : TaskStatusMsg). IsNamed (status m)) msgs

    map-AllNamed : (msgs : List TaskStatusMsg) → AllNamed msgs → All IsNamed (map status msgs)
    map-AllNamed [] named = tt
    map-AllNamed (m ∷ msgs) (named, more) = (named, map-AllNamed msgs more)

    -- Let the names of a task have no separator, and let the ids in the messages be made of such
    -- names. Then a new observer takes all the messages that a listener is called with, and when it
    -- was quit, the task shows the status and the error of its last message, if there was one.
    pub tell-shows :
        (msgs : List TaskStatusMsg) (debug_dump : Bool)
        → AllNamed msgs
        → (o : Observer) × (tell msgs (new debug_dump) ≡ some o)
          × ((quit o).running ≡ false)
          × ((x : TaskStatus × Option Error)
              → last_of (new_id (p ∷ ps)) none (map status msgs) ≡ some x
              → shown_at c (p ∷ ps) (quit o).model.tree ≡ some x)
    unfolding new quit shown_at
    tell-shows msgs debug_dump named =
        let start : Model = record { tree = []; debug_dump = debug_dump } in
        let (model, ends, shows) =
          run-last_of c law p ps names (map status msgs) start (map-AllNamed msgs named) in
        (live true model, tell-run msgs true start model ends, refl, shows)
