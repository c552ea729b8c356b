-- ===== src/Kustomize/Calls.antt =====
-- plugins/k8s/kustomize/filesystem.go: the methods that hand a call on to package afero.
use bonk.Base.{ℕ, String, List, map, Option}
use bonk.Errors.{Error, Outcome, ok, error}

-- `I` is an `os.FileInfo`, `F` a file, and `C` what a walk calls.
pub record Fs (W F I C : Type 0) : Type 0 where
  pub create : String → W → Outcome F × W
  pub mkdir : String → ℕ → W → Option Error × W
  pub mkdir_all : String → ℕ → W → Option Error × W
  pub remove_all : String → W → Option Error × W
  pub open_file : String → W → Outcome F × W
  pub read_dir : String → W → Outcome (List I)
  pub info_name : I → String
  pub glob : String → W → Outcome (List String)
  pub read_file : String → W → Outcome String
  pub write_file : String → String → ℕ → W → Option Error × W
  pub walk : String → C → W → Option Error × W

-- 0o750
abbrev directory_mode : ℕ
directory_mode = 488

-- 0o600
abbrev file_mode : ℕ
file_mode = 384

module _ {W F I C : Type 0} (fs : Fs W F I C) where
  unfoldable pub create : String → W → Outcome F × W
  create path w = fs.create path w

  unfoldable pub mkdir : String → W → Option Error × W
  mkdir path w = fs.mkdir path directory_mode w

  unfoldable pub mkdir_all : String → W → Option Error × W
  mkdir_all path w = fs.mkdir_all path directory_mode w

  unfoldable pub remove_all : String → W → Option Error × W
  remove_all path w = fs.remove_all path w

  -- `Open`
  unfoldable pub open_file : String → W → Outcome F × W
  open_file path w = fs.open_file path w

  -- `ReadDir`: the names of the entries, in the order in which they are read.
  unfoldable pub read_dir : String → W → Outcome (List String)
  read_dir path w = elim (fs.read_dir path w) [
    | error e ↦ error e
    | ok infos ↦ ok (map fs.info_name infos)
  ]

  unfoldable pub glob : String → W → Outcome (List String)
  glob pattern w = fs.glob pattern w

  unfoldable pub read_file : String → W → Outcome String
  read_file path w = fs.read_file path w

  unfoldable pub write_file : String → String → W → Option Error × W
  write_file path contents w = fs.write_file path contents file_mode w

  unfoldable pub walk : String → C → W → Option Error × W
  walk path callback w = fs.walk path callback w
