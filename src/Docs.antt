-- ===== src/Docs.antt =====
-- cmd/bonk/docs.go: the hidden command that generates documentation, as far as it works on the text
-- of files itself. A file is its bytes with an offset; offsets and sizes stay below 2^63. The
-- libraries that render the files are not modelled.
pub mod Trim
pub mod Order
mod Tests
use bonk.Base.{
  ℕ, zero, suc, ◌+◌, ◌-◌, String, List, [], ◌∷◌, Option, none, some, true, false, if◌then◌else◌,
  length, get_elem?, nat_eq, ltb, ◌==◌,
}
use Prim.Native.Nat.{◌/◌, ◌%◌}
use bonk.Base.Text.{append}
use bonk.Errors.{Error, Outcome, ok, error, message, eof, ◌>>=◌}

-- An `os.File` that is open for reading and writing.
pub record File : Type 0 where
  pub content : List ℕ
  pub offset : ℕ

abbrev pub newline : ℕ
newline = b'\n'

abbrev pub take : ℕ → List ℕ → List ℕ
take zero xs = []
take (suc n) [] = []
take (suc n) (x ∷ xs) = x ∷ take n xs

-- `Seek(-n, io.SeekEnd)` and `Seek(-n, io.SeekCurrent)`. An offset before the start of the file is
-- an error.
abbrev pub seek_to : ℕ → ℕ → File → Option File
seek_to from back f = if ltb from back then none else some (record f { offset = from - back })

abbrev pub seek_end : ℕ → File → Option File
seek_end back f = seek_to (length f.content) back f

abbrev pub seek_current : ℕ → File → Option File
seek_current back f = seek_to f.offset back f

-- `Read` into a buffer of one byte. At the end of the file it fails with `io.EOF`.
abbrev pub after_read : File → Option ℕ → Option (ℕ × File)
after_read f none = none
after_read f (some char) = some (char, record f { offset = suc f.offset })

abbrev pub read : File → Option (ℕ × File)
read f = after_read f (get_elem? f.content f.offset)

-- How many newlines were found, or the error at which `cobra.CheckErr` ends the program.
pub data Counted : Type 0 where
  counted : ℕ → Counted
  exits : Error → Counted
  unfinished : Counted

abbrev pub bad_offset : Error
bad_offset = message "seek: invalid argument"

-- The loop of `trimFileNewlines`.
unfoldable pub count_newlines : ℕ → File → ℕ → Counted
count_newlines zero f found_newlines = unfinished
count_newlines (suc fuel) f found_newlines = elim (read f) [
  | none ↦ exits eof
  | some (char, f') ↦ elim (nat_eq char newline) [
    | true ↦ elim (seek_current 2 f') [
      | none ↦ exits bad_offset
      | some f'' ↦ count_newlines fuel f'' (suc found_newlines)
    ]
    | false ↦ counted found_newlines
  ]
]

-- The new content of the file, or the error at which the program ends.
pub data Trimmed : Type 0 where
  trimmed : List ℕ → Trimmed
  fails : Error → Trimmed
  runs_out : Trimmed

-- `Truncate(size + 1 - (foundNewlines - 1))`, where `size` is the offset of the last byte.
abbrev pub truncate : List ℕ → ℕ → Counted → Trimmed
truncate content size (counted found_newlines) =
    if ltb 1 found_newlines
    then trimmed (take (size + 1 - (found_newlines - 1)) content)
    else trimmed content
truncate content size (exits e) = fails e
truncate content size unfinished = runs_out

-- `trimFileNewlines`, with a round for each byte.
unfoldable pub trim_file_newlines : List ℕ → Trimmed
unfolding count_newlines
trim_file_newlines content = elim (seek_end 1 (record { content = content; offset = 0 })) [
  | none ↦ fails bad_offset
  | some f ↦ truncate content f.offset (count_newlines (suc (length content)) f 0)
]

-- The directory of the generated files: its entries in the order of `os.ReadDir`.
pub data Entry : Type 0 where
  directory : Entry
  regular : List ℕ → Entry

abbrev pub Entries : Type 0
Entries = List (String × Entry)

-- The new entry, or `none` where the program ends with an error.
abbrev pub from_trimmed : Trimmed → Option Entry
from_trimmed (trimmed content) = some (regular content)
from_trimmed (fails e) = none
from_trimmed runs_out = none

-- `trimFileNewlines(root, file)`. A directory cannot be opened for writing.
abbrev pub trim_entry : Entry → Option Entry
trim_entry directory = none
trim_entry (regular content) = from_trimmed (trim_file_newlines content)

abbrev pub put_first : String → Entries → Option Entry → Option Entries
put_first k rest none = none
put_first k rest (some e) = some ((k, e) ∷ rest)

abbrev pub keep_first : String × Entry → Option Entries → Option Entries
keep_first entry none = none
keep_first entry (some rest) = some (entry ∷ rest)

unfoldable pub trim_named : String → Entries → Option Entries
unfolding trim_file_newlines
trim_named file [] = none
trim_named file ((k, e) ∷ rest) =
    if k == file then put_first k rest (trim_entry e) else keep_first (k, e) (trim_named file rest)

-- The files for which the loop of `Run` starts a goroutine.
unfoldable pub started : Entries → List String
started [] = []
started ((k, directory) ∷ rest) = started rest
started ((k, regular content) ∷ rest) = k ∷ started rest

-- The goroutines, in the order in which they end. Each opens and changes its own file only, so one
-- is taken as a whole.
abbrev pub then_trim : (Entries → Option Entries) → Option Entries → Option Entries
then_trim f none = none
then_trim f (some entries) = f entries

unfoldable pub trim_all : List String → Entries → Option Entries
unfolding trim_named
trim_all [] entries = some entries
trim_all (file ∷ files) entries = then_trim (trim_all files) (trim_named file entries)

-- `lang.Location`, as far as `CodeHref` reads it.
pub record Location : Type 0 where
  pub filepath : String
  pub start_line : ℕ
  pub end_line : ℕ

-- `fmt.Sprintf("%d", n)`, a round for each digit: `n + 1` rounds are enough.
abbrev digit : ℕ → String
digit n =
    if ltb n 5
    then if ltb n 1
      then "0"
      else if ltb n 2
      then "1"
      else if ltb n 3
      then "2"
      else if ltb n 4
      then "3"
      else "4"
    else if ltb n 6
    then "5"
    else if ltb n 7
    then "6"
    else if ltb n 8
    then "7"
    else if ltb n 9
    then "8"
    else "9"

abbrev digits : ℕ → ℕ → String
digits zero n = ""
digits (suc fuel) n =
    let high = digits fuel (n / 10) in if ltb n 10 then digit n else append high (digit (n % 10))

-- `filepath.Rel` and `filepath.ToSlash` are parameters.
module _ (rel : String → String → Outcome String) (to_slash : String → String) where
  abbrev pub loc_str : Location → String
  loc_str loc =
      let start = append "L" (digits (suc loc.start_line) loc.start_line) in
      if nat_eq loc.start_line loc.end_line
      then start
      else append start (append "-L" (digits (suc loc.end_line) loc.end_line))

  -- `gomarkdocFormatter.CodeHref`, with the formatter's directory.
  unfoldable pub code_href : String → Location → Outcome String
  code_href dir loc =
      rel dir loc.filepath >>= λ path. ok (append (to_slash path) (append "#" (loc_str loc)))
