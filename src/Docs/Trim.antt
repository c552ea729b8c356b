-- ===== src/Docs/Trim.antt =====
-- cmd/bonk/docs.go: what `trimFileNewlines` does with every file.
use bonk.Base.{
  ℕ, zero, suc, ◌+◌, ◌-◌, ◌≤◌, ◌<◌, List, [], ◌∷◌, ◌++◌, some, true, length, get_elem?,
  length-append, nat_eq, ltb, ◌≡◌, ◌≢◌, ◌⊎◌, inl, inr, refl, ◌∙◌, ap, arith, Bool-cases,
}
use bonk.Docs.{
  File, newline, take, counted, exits, bad_offset, seek_to, truncate, count_newlines, trimmed,
  fails, trim_file_newlines,
}

-- So many newlines.
abbrev pub newlines : ℕ → List ℕ
newlines zero = []
newlines (suc n) = newline ∷ newlines n

abbrev pub at_most_one : ℕ → ℕ
at_most_one zero = 0
at_most_one (suc n) = 1

length-newlines : (n : ℕ) → length (newlines n) ≡ n
length-newlines zero = refl
length-newlines (suc n) = omega (arith, length-newlines n)

get_elem?-newlines : (n i : ℕ) → i < n → get_elem? (newlines n) i ≡ some newline
get_elem?-newlines zero i h = elim h [ ]
get_elem?-newlines (suc n) zero h = refl
get_elem?-newlines (suc n) (suc i) h = get_elem?-newlines n i (omega arith)

get_elem?-append : (xs ys : List ℕ) (i : ℕ) → get_elem? (xs ++ ys) (length xs + i) ≡ get_elem? ys i
get_elem?-append [] ys i = let e : 0 + i ≡ i = omega arith in rw e refl
get_elem?-append (x ∷ xs) ys i =
    let e : suc (length xs) + i ≡ suc (length xs + i) = omega arith in
    rw e (get_elem?-append xs ys i)

take-append : (xs ys : List ℕ) (i : ℕ) → take (length xs + i) (xs ++ ys) ≡ xs ++ take i ys
take-append [] ys i = let e : 0 + i ≡ i = omega arith in rw e refl
take-append (x ∷ xs) ys i =
    let e : suc (length xs) + i ≡ suc (length xs + i) = omega arith in
    rw e (ap (λ l. x ∷ l) (take-append xs ys i))

seek_to_back :
    (back to from : ℕ) (f : File)
    → from ≡ to + back
    → seek_to from back f ≡ some (record f { offset = to })
seek_to_back back to from f e = rw e (ground arith)

-- A round of the loop at a newline, and at another byte.
count_newline :
    (fuel : ℕ) (content : List ℕ) (p n : ℕ)
    → get_elem? content (suc p) ≡ some newline
    → count_newlines (suc fuel) (record { content = content; offset = suc p }) n
      ≡ count_newlines fuel (record { content = content; offset = p }) (suc n)
unfolding count_newlines
count_newline fuel content p n e =
    let back =
      seek_to_back 2 p (suc (suc p)) (record { content = content; offset = suc (suc p) })
        (omega arith) in
    rw (e, count_newlines) (rw back refl)

count_first :
    (fuel : ℕ) (content : List ℕ) (n : ℕ)
    → get_elem? content 0 ≡ some newline
    → count_newlines (suc fuel) (record { content = content; offset = 0 }) n ≡ exits bad_offset
unfolding count_newlines
count_first fuel content n e = rw (e, count_newlines) refl

count_other :
    (fuel : ℕ) (content : List ℕ) (p n c : ℕ)
    → get_elem? content p ≡ some c
    → c ≢ newline
    → count_newlines (suc fuel) (record { content = content; offset = p }) n ≡ counted n
unfolding count_newlines
count_other fuel content p n c e ne = rw (e, count_newlines) (ground arith)

-- A file that is not empty is read from its last byte.
trim_from :
    (content : List ℕ) (size : ℕ)
    → length content ≡ suc size
    → trim_file_newlines content
      ≡ truncate content size
          (count_newlines (suc (length content)) (record { content = content; offset = size }) 0)
unfolding trim_file_newlines
trim_from content size e =
    let back =
      seek_to_back 1 size (length content) (record { content = content; offset = 0 })
        (omega (arith, e)) in
    rw (back, trim_file_newlines) refl

module _ (body : List ℕ) (c : ℕ) where
  -- What is kept of a file that ends in so many newlines.
  truncate_ended :
      (n : ℕ)
      → truncate (body ++ (c ∷ newlines n)) (length body + n) (counted n)
        ≡ trimmed (body ++ (c ∷ newlines (at_most_one n)))
  truncate_ended zero = refl
  truncate_ended (suc zero) = refl
  truncate_ended (suc (suc n)) =
      let e : length body + suc (suc n) + 1 - (suc (suc n) - 1) ≡ length body + 2 = omega arith in
      let many : ltb 1 (suc (suc n)) ≡ true = ground arith in
      let content = body ++ (c ∷ newlines (suc (suc n))) in
      rw many (
        ap (λ m. trimmed (take m content)) e
        ∙ ap trimmed (take-append body (c ∷ newlines (suc (suc n))) 2))

module _ (body : List ℕ) (c n : ℕ) where
  abbrev ended : List ℕ
  ended = body ++ (c ∷ newlines n)

  byte_at : (k : ℕ) → get_elem? ended (length body + k) ≡ get_elem? (c ∷ newlines n) k
  byte_at k = get_elem?-append body (c ∷ newlines n) k

  -- The loop goes back over the newlines to the last other byte.
  count_ended :
      (fuel k m : ℕ)
      → c ≢ newline
      → k ≤ n
      → k < fuel
      → count_newlines fuel (record { content = ended; offset = length body + k }) m
        ≡ counted (m + k)
  count_ended zero k m ne h l = elim l [ ]
  count_ended (suc fuel) zero m ne h l =
      count_other fuel ended (length body + 0) m c (byte_at 0) ne ∙ ap counted (omega arith)
  count_ended (suc fuel) (suc k) m ne h l =
      let e : length body + suc k ≡ suc (length body + k) = omega arith in
      let found = byte_at (suc k) ∙ get_elem?-newlines n k (omega arith) in
      rw e (
        count_newline fuel ended (length body + k) m (rw e at found)
        ∙ count_ended fuel k (suc m) ne (omega arith) (omega arith)
        ∙ ap counted (omega arith))

  length-ended : length ended ≡ suc (length body + n)
  length-ended = omega (arith, length-append body (c ∷ newlines n), length-newlines n)

  trim_ended :
      c ≢ newline → trim_file_newlines ended ≡ trimmed (body ++ (c ∷ newlines (at_most_one n)))
  trim_ended ne =
      trim_from ended (length body + n) length-ended
      ∙ ap (truncate ended (length body + n)) (
          count_ended (suc (length ended)) n 0 ne (omega arith) (omega (arith, length-ended))
          ∙ ap counted (omega arith))
      ∙ truncate_ended body c n

-- A file of newlines only: the loop goes back over its first byte.
count_newlines_only :
    (n : ℕ) (fuel k m : ℕ)
    → k < n
    → k < fuel
    → count_newlines fuel (record { content = newlines n; offset = k }) m ≡ exits bad_offset
count_newlines_only n zero k m h l = elim l [ ]
count_newlines_only n (suc fuel) zero m h l =
    count_first fuel (newlines n) m (get_elem?-newlines n 0 h)
count_newlines_only n (suc fuel) (suc k) m h l =
    count_newline fuel (newlines n) k m (get_elem?-newlines n (suc k) h)
    ∙ count_newlines_only n fuel k (suc m) (omega arith) (omega arith)

trim_newlines : (n : ℕ) → trim_file_newlines (newlines n) ≡ fails bad_offset
unfolding trim_file_newlines
trim_newlines zero = refl
trim_newlines (suc n) =
    trim_from (newlines (suc n)) n (length-newlines (suc n))
    ∙ ap (truncate (newlines (suc n)) n) (
        count_newlines_only (suc n) (suc (length (newlines (suc n)))) n 0 (omega arith)
          (omega (arith, length-newlines n)))

-- A file is newlines only, or it ends in another byte and then newlines.
data Ends (content : List ℕ) : Type 0 where
  only : (n : ℕ) → content ≡ newlines n → Ends content
  ending :
      (body : List ℕ) (c n : ℕ) → c ≢ newline → content ≡ body ++ (c ∷ newlines n) → Ends content

Ends-cons : (x : ℕ) (xs : List ℕ) → Ends xs → Ends (x ∷ xs)
Ends-cons x xs (only n e) = elim (Bool-cases (nat_eq x newline)) [
  | inl p ↦ only (suc n) (ground arith)
  | inr p ↦ ending [] x n (ground arith) (ap (λ l. x ∷ l) e)
]
Ends-cons x xs (ending body c n ne e) = ending (x ∷ body) c n ne (ap (λ l. x ∷ l) e)

ends : (content : List ℕ) → Ends content
ends [] = only 0 refl
ends (x ∷ xs) = Ends-cons x xs (ends xs)

-- What becomes of a file, by how it ends.
abbrev pub Outcomes : List ℕ → Type 0
Outcomes content =
    ((n : ℕ) × (content ≡ newlines n) × (trim_file_newlines content ≡ fails bad_offset))
    ⊎ ((body : List ℕ) × (c : ℕ) × (n : ℕ) × (c ≢ newline)
        × (content ≡ body ++ (c ∷ newlines n))
        × (trim_file_newlines content ≡ trimmed (body ++ (c ∷ newlines (at_most_one n)))))

Ends-Outcomes : (content : List ℕ) → Ends content → Outcomes content
Ends-Outcomes content (only n e) = inl (n, e, ap trim_file_newlines e ∙ trim_newlines n)
Ends-Outcomes content (ending body c n ne e) =
    inr (body, c, n, ne, e, ap trim_file_newlines e ∙ trim_ended body c n ne)

-- Every file is of one of two forms. A file of newlines only, or of nothing, ends the program with
-- the error of a bad offset. A file with another byte keeps everything up to the last such byte,
-- and of the newlines after it one, if there is one.
pub trim_cases : (content : List ℕ) → Outcomes content
trim_cases content = Ends-Outcomes content (ends content)
