-- ===== src/Task/Id.antt =====
-- pkg/task/id.go: hierarchical task names. An `ID` is a Go string.
use bonk.Base.{String, ◌≡◌, List, ◌∷◌, Bool, true}
use bonk.Base.Text.{cut, join, NoSep, cut-append}

unfoldable pub new_id : List String → String
unfolding join
new_id parts = join parts

unfoldable pub get_child : String → List String → String
unfolding join
get_child id names = join (id ∷ names)

unfoldable pub cut_id : String → String × String × Bool
cut_id id = cut id

-- A name made of a first part without a separator and further parts is cut into that part and the
-- name of the others.
pub cut_id-new_id :
    (first next : String) (rest : List String)
    → NoSep first
    → cut_id (new_id (first ∷ next ∷ rest)) ≡ (first, new_id (next ∷ rest), true)
unfolding cut_id new_id join
cut_id-new_id first next rest h = cut-append first (join (next ∷ rest)) h
