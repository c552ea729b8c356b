-- ===== src/Kustomize.antt =====
-- plugins/k8s/kustomize/filesystem.go: the file system that kustomize sees, over one of package
-- afero.
pub mod Calls
mod Tests
use Prim.Native.Char.{Char, code}
use Prim.Native.String
use Prim.Native.String.{String, [], ◌∷◌}
use bonk.Base.{
  ℕ, Bool, true, false, not, ◌&&◌, List, Option, none, some, map, nat_eq, if◌then◌else◌, Bool-cases,
  Option-cases, inl, inr, ◌≡◌, refl, ap, sym, ◌∙◌, arith,
}
use text.Mathlib.TextLemmas.{nil-append, cons-append, append-nil}
use bonk.Base.Text.{append}
use bonk.Errors.{Error, Outcome, ok, error, ◌>>=◌, message, wrap}

-- What package afero reads of a file system in the world `W`. A function that returns a Boolean
-- beside its error has both.
pub record Afero (W : Type 0) : Type 0 where
  pub is_dir : String → W → Bool × Option Error
  pub exists : String → W → Bool × Option Error
  -- `Stat`, then `IsDir` of what it finds
  pub stat : String → W → Outcome Bool

-- `err != nil`
abbrev pub is_error : Option Error → Bool
is_error none = false
is_error (some e) = true

abbrev is_slash : Char → Bool
is_slash c = nat_eq (code c) b'/'

-- `filepath.IsAbs`
abbrev pub is_abs : String → Bool
is_abs [] = false
is_abs (c ∷ s) = is_slash c

-- A character before the two parts, that is no slash.
abbrev pick : Char → String × String → String × String
pick c ([], file) = ("", c ∷ file)
pick c (d ∷ dir, file) = (c ∷ d ∷ dir, file)

-- `filepath.Split`: up to the last slash, and what follows it.
unfoldable pub split : String → String × String
split [] = ("", "")
split (c ∷ s) =
    let (dir, file) = split s in if is_slash c then (c ∷ dir, file) else pick c (dir, file)

append-pick :
    (c : Char) (dir file s : String)
    → append dir file ≡ s
    → append (pick c (dir, file)).0 (pick c (dir, file)).1 ≡ c ∷ s
append-pick c [] file s h = rw nil-append (ap (λ t. c ∷ t) (sym (nil-append file) ∙ h))
append-pick c (d ∷ dir) file s h = rw cons-append (ap (λ t. c ∷ t) h)

append-split : (s : String) → append (split s).0 (split s).1 ≡ s
unfolding split
append-split [] = nil-append ""
append-split (c ∷ s) = elim (Bool-cases (is_slash c)) [
  | inl e ↦ rw (e, cons-append) (ap (λ t. c ∷ t) (append-split s))
  | inr e ↦ rw e (append-pick c (split s).0 (split s).1 s (append-split s))
]

-- The absolute path that `CleanedAbs` works on.
abbrev pub absolute : String → String
absolute path = if is_abs path then path else append "/" path

is_abs-absolute : (path : String) → is_abs (absolute path) ≡ true
is_abs-absolute path = elim (Bool-cases (is_abs path)) [
  | inl e ↦ rw (e, e) refl
  | inr e ↦ rw (e, cons-append) refl
]

-- The last step for a path that is no directory.
abbrev pub from_file : String × String → Outcome (String × String)
from_file ([], file) = error (message "dir can't be empty, we added a separator")
from_file (c ∷ dir, file) = ok (c ∷ dir, file)

from_file_lem : (path : String) → is_abs path ≡ true → from_file (split path) ≡ ok (split path)
unfolding split
from_file_lem [] h = cc
from_file_lem (c ∷ s) h = rw h refl

module _ {W : Type 0} (fs : Afero W) where
  -- `IsDir`
  unfoldable pub is_dir : String → W → Bool
  is_dir path w = let (dir, err) = fs.is_dir path w in is_error err && dir

  -- `Exists`
  unfoldable pub exists : String → W → Bool
  exists path w = let (found, err) = fs.exists path w in is_error err && found

  -- `CleanedAbs`: the directory and the name of the file.
  unfoldable pub cleaned_abs : String → W → Outcome (String × String)
  unfolding split
  cleaned_abs path w = elim (fs.stat (absolute path) w) [
    | error e ↦ error (wrap "failed to stat path" e)
    | ok true ↦ ok (absolute path, "")
    | ok false ↦ from_file (split (absolute path))
  ]

  -- Where `Stat` finds the path, `CleanedAbs` returns a directory and a file name that make up the
  -- absolute path; its error about an empty directory is never returned.
  append-cleaned_abs :
      (path : String) (w : W) (b : Bool)
      → fs.stat (absolute path) w ≡ ok b
      → (dir : String) × (file : String) × (cleaned_abs path w ≡ ok (dir, file))
        × (append dir file ≡ absolute path)
  unfolding cleaned_abs
  append-cleaned_abs path w true h =
      (absolute path, "", rw (h, cleaned_abs) refl, append-nil (absolute path))
  append-cleaned_abs path w false h =
      let s = split (absolute path) in
      (
        s.0,
        s.1,
        rw (h, cleaned_abs) (from_file_lem (absolute path) (is_abs-absolute path)),
        append-split (absolute path),
      )

  -- If afero's answer is false whenever it has an error, `IsDir` is false for every path, also for
  -- a directory: its test of the error is the wrong way round.
  is_dir-eq-false :
      (path : String) (w : W)
      → (is_error (fs.is_dir path w).1 ≡ true → (fs.is_dir path w).0 ≡ false)
      → is_dir path w ≡ false
  unfolding is_dir
  is_dir-eq-false path w h = elim (Bool-cases (is_error (fs.is_dir path w).1)) [
    | inl e ↦ rw (e, h e) refl
    | inr e ↦ rw e refl
  ]

  -- The same of `Exists`.
  exists-eq-false :
      (path : String) (w : W)
      → (is_error (fs.exists path w).1 ≡ true → (fs.exists path w).0 ≡ false)
      → exists path w ≡ false
  unfolding exists
  exists-eq-false path w h = elim (Bool-cases (is_error (fs.exists path w).1)) [
    | inl e ↦ rw (e, h e) refl
    | inr e ↦ rw e refl
  ]
