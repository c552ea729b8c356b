-- ===== src/Task/Files.antt =====
-- pkg/task/session.go: the file systems of a session on the local disk, and that of a task's outputs.
-- Package afero is a parameter.
use bonk.Base.{String, Option, none, ◌≡◌}
use bonk.Errors.{Error, Outcome, ok}

-- File systems of package afero, and how a file of theirs is read and written by its path.
pub record Afero (W F : Type 0) : Type 0 where
  pub new_os_fs : F
  pub new_base_path_fs : F → String → F
  pub new_read_only_fs : F → F
  pub join : String → String → String
  pub read_file : F → String → W → Outcome String
  pub write_file : F → String → String → W → Option Error × W

-- A path is inside when it does not lead out of the directory that it starts from.
pub record IsAfero {W F : Type 0} (afero : Afero W F) (Inside : String → Type 0) : Type 0 where
  pub inside_bonk : Inside ".bonk"
  pub inside_join : (a b : String) → Inside a → Inside b → Inside (afero.join a b)
  -- A file under a base path is the one that has the base path before its own.
  pub read_base_path :
      (fs : F) (base p : String) (w : W)
      → Inside p
      → afero.read_file (afero.new_base_path_fs fs base) p w
        ≡ afero.read_file fs (afero.join base p) w
  pub write_base_path :
      (fs : F) (base p x : String) (w : W)
      → Inside p
      → afero.write_file (afero.new_base_path_fs fs base) p x w
        ≡ afero.write_file fs (afero.join base p) x w
  -- A file system that is read only reads what it is made of.
  pub read_read_only :
      (fs : F) (p : String) (w : W)
      → afero.read_file (afero.new_read_only_fs fs) p w ≡ afero.read_file fs p w
  -- The disk gives back what was written.
  pub read_written :
      (p x : String) (w w' : W)
      → afero.write_file afero.new_os_fs p x w ≡ (none, w')
      → afero.read_file afero.new_os_fs p w' ≡ ok x

module _ {W F : Type 0} (afero : Afero W F) where
  -- `sessionRoot` of `NewLocalSession`, and the file systems that it makes of that.
  abbrev pub session_root : String → F
  session_root path = afero.new_base_path_fs afero.new_os_fs path

  unfoldable pub source_fs : String → F
  source_fs path = afero.new_read_only_fs (session_root path)

  unfoldable pub session_output_fs : String → F
  session_output_fs path = afero.new_base_path_fs (session_root path) ".bonk"

  -- `OutputFS`, of the output file system of the session.
  unfoldable pub output_fs : F → String → F
  output_fs fs id = afero.new_base_path_fs fs id

  module _ (Inside : String → Type 0) (law : IsAfero afero Inside) (path : String) where
    -- The path from the session's root.
    abbrev in_bonk : String → String → String
    in_bonk id name = afero.join ".bonk" (afero.join id name)
