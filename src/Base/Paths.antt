-- ===== src/Base/Paths.antt =====
-- Go's `path.Base`, the last part of a slash-separated path.
use Prim.Native.Char.{Char, code}
use Prim.Native.String.{String, [], ◌∷◌}
use mathlib.Core.Bool.{Bool, true, false, ◌&&◌}
use text.Mathlib.Text.{◌==◌}
use bonk.Base.Tests.{nat_eq, if◌then◌else◌}

abbrev is_slash : Char → Bool
is_slash c = nat_eq (code c) b'/'

-- Trailing slashes are taken off.
strip_slashes : String → String
strip_slashes [] = ""
strip_slashes (c ∷ s) =
    let rest = strip_slashes s in if is_slash c && (rest == "") then "" else c ∷ rest

-- The text after the last slash, and whether there is one.
last_part : String → String × Bool
last_part [] = ("", false)
last_part (c ∷ s) =
    let (rest, found) = last_part s in
    if found then (rest, true) else if is_slash c then (rest, true) else (c ∷ rest, false)

-- What is left of a text whose slashes were stripped and which is not empty.
abbrev or_root : String → String
or_root s = if s == "" then "/" else s

unfoldable pub path_base : String → String
unfolding strip_slashes last_part
path_base s = if s == "" then "." else or_root (last_part (strip_slashes s)).0
