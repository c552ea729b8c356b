-- ===== src/Docs/Tests.antt =====
-- Files, directories and links on which cmd/bonk/docs.go is run.
use bonk.Base.{ℕ, String, List, [], ◌∷◌, some, ◌≡◌, refl, texts_differ}
use mathlib.Core.List.{Permᴰ}
use bonk.Errors.{Outcome, ok}
use bonk.Docs.{
  newline, trimmed, fails, bad_offset, trim_file_newlines, directory, regular, Entries, started,
  trim_all, code_href,
}
use bonk.Docs.Trim.{Outcomes, trim_cases}
use bonk.Docs.Order.{trimmed_entries, trim_all-trimmed_entries}

-- "ab", and two newlines.
abbrev text_twice : List ℕ
text_twice = b'a' ∷ newline ∷ b'b' ∷ newline ∷ newline ∷ []

abbrev text_once : List ℕ
text_once = b'a' ∷ newline ∷ b'b' ∷ newline ∷ []

text_twice_trimmed : trim_file_newlines text_twice ≡ trimmed text_once
unfolding trim_file_newlines
text_twice_trimmed = refl

newlines_fail : trim_file_newlines (newline ∷ newline ∷ []) ≡ fails bad_offset
unfolding trim_file_newlines
newlines_fail = refl

empty_fails : trim_file_newlines [] ≡ fails bad_offset
unfolding trim_file_newlines
empty_fails = refl

trim_cases_example : Outcomes text_twice
trim_cases_example = trim_cases text_twice

abbrev pages : Entries
pages = ("bonk.md", regular text_twice) ∷ ("old", directory) ∷ ("docs.md", regular text_twice) ∷ []

abbrev order : List String
order = "docs.md" ∷ "bonk.md" ∷ []

pages_perm : Permᴰ (started pages) order
unfolding started
pages_perm = Permᴰ.swap refl refl

trim_all-trimmed_entries_example : trim_all order pages ≡ trimmed_entries pages
trim_all-trimmed_entries_example =
    trim_all-trimmed_entries pages order
      (
        (texts_differ "bonk.md" "old" refl, (texts_differ "bonk.md" "docs.md" refl, tt)),
        ((texts_differ "old" "docs.md" refl, tt), (tt, tt)),
      )
      pages_perm

pages_trimmed :
    trim_all order pages
    ≡ some
        (("bonk.md", regular text_once) ∷ ("old", directory) ∷ ("docs.md", regular text_once) ∷ [])
unfolding trim_all
pages_trimmed = refl

abbrev as_is : String → String → Outcome String
as_is dir path = ok path

one_line :
    code_href as_is (λ s. s) "pkg" (record { filepath = "a.go"; start_line = 105; end_line = 105 })
    ≡ ok "a.go#L105"
unfolding code_href
one_line = refl

two_lines :
    code_href as_is (λ s. s) "pkg" (record { filepath = "a.go"; start_line = 7; end_line = 30 })
    ≡ ok "a.go#L7-L30"
unfolding code_href
two_lines = refl
