-- ===== src/K8s/Served.antt =====
-- plugins/k8s/holos behind a server of package rpc: the path that the server gives to a session that
-- has none is the directory that the executors take without one.
use bonk.Base.{ℕ, String, Option, none, some, ◌≡◌, refl}
use bonk.Task.Value.{Workspace, local, in_memory, custom, of_server, Session, local_path}
use bonk.Rpc.Exchange.{behind_server}
use bonk.Task.Value.{Task}
use bonk.Task.Result.{Result}
use bonk.K8s.Holos.{
  Cue, Component, directory, load_holos, platform, build_plan, render_platform, render_component,
}

module _ {W I C : Type 0} (cue : Cue W I C) where
  directory_parts :
      (id : ℕ) (w : Workspace)
      → directory cue (record { id = id; workspace = of_server w })
        ≡ directory cue (record { id = id; workspace = w })
  unfolding local_path
  directory_parts id (local path) = refl
  directory_parts id in_memory = refl
  directory_parts id custom = refl
  directory_parts id (of_server w) = refl

  directory-behind_server :
      (session : Session) → directory cue (behind_server session) ≡ directory cue session
  directory-behind_server session = directory_parts session.id session.workspace

  load_holos-behind_server :
      (path : String) (session : Session) (w : W)
      → load_holos cue path (behind_server session) w ≡ load_holos cue path session w
  unfolding load_holos
  load_holos-behind_server path session w = rw (directory-behind_server session) refl

  platform-behind_server :
      (path : String) (session : Session) (w : W)
      → platform cue path (behind_server session) w ≡ platform cue path session w
  unfolding platform
  platform-behind_server path session w = rw (load_holos-behind_server path session w) refl

  build_plan-behind_server :
      (args : Component) (session : Session) (w : W)
      → build_plan cue args (behind_server session) w ≡ build_plan cue args session w
  unfolding build_plan
  build_plan-behind_server args session w = rw (load_holos-behind_server args.path session w) refl

  -- Behind a server the executor of platforms returns what it returns for the session itself.
  render_platform-behind_server :
      (session : Session) (tsk : Task) (args : Option String) (result : Option Result) (w : W)
      → render_platform cue (behind_server session) tsk args result w
        ≡ render_platform cue session tsk args result w
  unfolding render_platform
  render_platform-behind_server session tsk none result w = refl
  render_platform-behind_server session tsk (some path) result w =
      rw (platform-behind_server path session w, render_platform) refl

  -- Behind a server the executor of components returns what it returns for the session itself.
  render_component-behind_server :
      (session : Session) (tsk : Task) (args : Option Component) (result : Option Result) (w : W)
      → render_component cue (behind_server session) tsk args result w
        ≡ render_component cue session tsk args result w
  unfolding render_component
  render_component-behind_server session tsk none result w = refl
  render_component-behind_server session tsk (some args) result w =
      rw (build_plan-behind_server args session w, render_component) refl
