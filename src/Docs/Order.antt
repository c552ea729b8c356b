-- ===== src/Docs/Order.antt =====
-- cmd/bonk/docs.go: the goroutines that trim the generated files, in whatever order they end.
use bonk.Base.{
  String, List, [], ◌∷◌, Option, none, some, All, ◌≡◌, ◌≢◌, inl, inr, refl, sym, ◌∙◌, ap, subst,
  text-cases, Option-cases,
}
use mathlib.Core.Path.{fun_ext}
use mathlib.Core.List.{Permᴰ}
use mathlib.Core.List.Permᴰ as Permutation
use bonk.Docs.{
  Entry, directory, regular, Entries, trim_entry, put_first, keep_first, trim_named, started,
  then_trim, trim_all,
}

trim_named_first :
    (k : String) (e : Entry) (rest : Entries)
    → trim_named k ((k, e) ∷ rest) ≡ put_first k rest (trim_entry e)
unfolding trim_named
trim_named_first k e rest = elim (text-cases k k) [
  | inl (b, _) ↦ rw b refl
  | inr (b, ne) ↦ absurd (ne refl)
]

trim_named_rest :
    (file k : String) (e : Entry) (rest : Entries)
    → k ≢ file
    → trim_named file ((k, e) ∷ rest) ≡ keep_first (k, e) (trim_named file rest)
unfolding trim_named
trim_named_rest file k e rest ne = elim (text-cases k file) [
  | inl (b, same) ↦ absurd (ne same)
  | inr (b, _) ↦ rw b refl
]

-- Two files in one order and in the other.
abbrev both : String → String → Entries → Option Entries
both a b entries = then_trim (trim_named b) (trim_named a entries)

-- The first file stands at the head of the entries, and the second does not.
both_head :
    (a b : String) (e : Entry) (rest : Entries)
    → a ≢ b
    → both a b ((a, e) ∷ rest) ≡ both b a ((a, e) ∷ rest)
both_head a b e rest ne = elim (Option-cases (trim_entry e)) [
  | inl p ↦ elim (Option-cases (trim_named b rest)) [
    | inl q ↦ rw (trim_named_first a e rest, trim_named_rest b a e rest ne, p, q) refl
    | inr (rest', q) ↦
        rw (trim_named_first a e rest, trim_named_rest b a e rest ne, p, q)
          (sym (trim_named_first a e rest' ∙ ap (put_first a rest') p))
  ]
  | inr (e', p) ↦ elim (Option-cases (trim_named b rest)) [
    | inl q ↦
        rw (trim_named_first a e rest, trim_named_rest b a e rest ne, p, q)
          (trim_named_rest b a e' rest ne ∙ ap (keep_first (a, e')) q)
    | inr (rest', q) ↦
        rw (trim_named_first a e rest, trim_named_rest b a e rest ne, p, q)
          (trim_named_rest b a e' rest ne
            ∙ ap (keep_first (a, e')) q
            ∙ sym (trim_named_first a e rest' ∙ ap (put_first a rest') p))
  ]
]

-- Neither file stands at the head.
both_rest :
    (a b k : String) (e : Entry) (rest : Entries)
    → k ≢ a
    → k ≢ b
    → both a b ((k, e) ∷ rest) ≡ keep_first (k, e) (both a b rest)
both_rest a b k e rest na nb = elim (Option-cases (trim_named a rest)) [
  | inl p ↦ rw (trim_named_rest a k e rest na, p) refl
  | inr (rest', p) ↦ rw (trim_named_rest a k e rest na, p) (trim_named_rest b k e rest' nb)
]

both_swap : (a b : String) (entries : Entries) → a ≢ b → both a b entries ≡ both b a entries
unfolding trim_named
both_swap a b [] ne = refl
both_swap a b ((k, e) ∷ rest) ne = elim (text-cases k a) [
  | inl (_, same) ↦
      subst (λ z. both a b ((z, e) ∷ rest) ≡ both b a ((z, e) ∷ rest)) (sym same)
        (both_head a b e rest ne)
  | inr (_, na) ↦ elim (text-cases k b) [
    | inl (_, same) ↦
        subst (λ z. both a b ((z, e) ∷ rest) ≡ both b a ((z, e) ∷ rest)) (sym same)
          (sym (both_head b a e rest (λ p. ne (sym p))))
    | inr (_, nb) ↦
        both_rest a b k e rest na nb
        ∙ ap (keep_first (k, e)) (both_swap a b rest ne)
        ∙ sym (both_rest b a k e rest nb na)
  ]
]

trim_all_two :
    (a b : String) (files : List String) (entries : Entries)
    → trim_all (a ∷ b ∷ files) entries ≡ then_trim (trim_all files) (both a b entries)
unfolding trim_all
trim_all_two a b files entries = elim (Option-cases (trim_named a entries)) [
  | inl p ↦ rw (p, trim_all) refl
  | inr (mid, p) ↦ rw (p, trim_all) refl
]

trim_all_swap :
    (a b : String) (files : List String) (entries : Entries)
    → trim_all (a ∷ b ∷ files) entries ≡ trim_all (b ∷ a ∷ files) entries
trim_all_swap a b files entries = elim (text-cases a b) [
  | inl (_, same) ↦ rw same refl
  | inr (_, ne) ↦
      trim_all_two a b files entries
      ∙ ap (then_trim (trim_all files)) (both_swap a b entries ne)
      ∙ sym (trim_all_two b a files entries)
]

trim_all_perm :
    {files order : List String}
    → Permᴰ files order
    → (entries : Entries) → trim_all files entries ≡ trim_all order entries
unfolding trim_all
trim_all_perm Permutation.nil entries = refl
trim_all_perm (Permutation.cons {a} {b} {l₁} {l₂} same p) entries =
    subst (λ z. trim_all (a ∷ l₁) entries ≡ trim_all (z ∷ l₂) entries) same
      (ap (λ f. then_trim f (trim_named a entries)) (fun_ext (λ es. trim_all_perm p es)))
trim_all_perm (Permutation.swap {a} {b} {a'} {b'} {l} p q) entries =
    rw (p, q) (trim_all_swap b' a' l entries)
trim_all_perm (Permutation.trans p q) entries = trim_all_perm p entries ∙ trim_all_perm q entries

-- Each file trimmed by itself, and `none` if one of them cannot be.
abbrev pub put_trimmed : String → Option Entry → Option Entries → Option Entries
put_trimmed k none rest = none
put_trimmed k (some e) rest = keep_first (k, e) rest

abbrev pub trimmed_entries : Entries → Option Entries
trimmed_entries [] = some []
trimmed_entries ((k, directory) ∷ rest) = keep_first (k, directory) (trimmed_entries rest)
trimmed_entries ((k, regular content) ∷ rest) =
    put_trimmed k (trim_entry (regular content)) (trimmed_entries rest)

-- No two entries have one name.
abbrev pub Distinct : Entries → Type 0
Distinct [] = Unit
Distinct ((k, e) ∷ rest) = All (λ (other : String × Entry). k ≢ other.0) rest × Distinct rest

started_fresh :
    (k : String) (entries : Entries)
    → All (λ (other : String × Entry). k ≢ other.0) entries
    → All (λ file. k ≢ file) (started entries)
unfolding started
started_fresh k [] h = tt
started_fresh k ((j, directory) ∷ rest) (ne, h) = started_fresh k rest h
started_fresh k ((j, regular content) ∷ rest) (ne, h) = (ne, started_fresh k rest h)

trim_all_rest :
    (files : List String) (k : String) (e : Entry) (rest : Entries)
    → All (λ file. k ≢ file) files
    → trim_all files ((k, e) ∷ rest) ≡ keep_first (k, e) (trim_all files rest)
unfolding trim_all
trim_all_rest [] k e rest h = refl
trim_all_rest (file ∷ files) k e rest (ne, h) = elim (Option-cases (trim_named file rest)) [
  | inl p ↦ rw (trim_named_rest file k e rest ne, p) refl
  | inr (mid, p) ↦ rw (trim_named_rest file k e rest ne, p) (trim_all_rest files k e mid h)
]

after_first :
    (k : String) (e : Option Entry) (rest : Entries)
    → All (λ (other : String × Entry). k ≢ other.0) rest
    → trim_all (started rest) rest ≡ trimmed_entries rest
    → then_trim (trim_all (started rest)) (put_first k rest e)
      ≡ put_trimmed k e (trimmed_entries rest)
after_first k none rest new h = refl
after_first k (some e) rest new h =
    trim_all_rest (started rest) k e rest (started_fresh k rest new) ∙ ap (keep_first (k, e)) h

trim_all-started :
    (entries : Entries)
    → Distinct entries
    → trim_all (started entries) entries ≡ trimmed_entries entries
unfolding trim_all started
trim_all-started [] h = refl
trim_all-started ((k, directory) ∷ rest) (new, h) =
    trim_all_rest (started rest) k directory rest (started_fresh k rest new)
    ∙ ap (keep_first (k, directory)) (trim_all-started rest h)
trim_all-started ((k, regular content) ∷ rest) (new, h) =
    ap (then_trim (trim_all (started rest))) (trim_named_first k (regular content) rest)
    ∙ after_first k (trim_entry (regular content)) rest new (trim_all-started rest h)

-- In whatever order the goroutines of the generated files end, the directory comes to hold each
-- file trimmed by itself and its directories as they were, and the program ends with an error
-- exactly when one of the files cannot be trimmed. No two entries have one name.
pub trim_all-trimmed_entries :
    (entries : Entries) (order : List String)
    → Distinct entries
    → Permᴰ (started entries) order
    → trim_all order entries ≡ trimmed_entries entries
trim_all-trimmed_entries entries order distinct perm =
    sym (trim_all_perm perm entries) ∙ trim_all-started entries distinct
