-- ===== src/Base/Lists.antt =====
-- Lists measured by native numbers, predicates on all members, and counting texts.
use Prim.Native.Nat.{ℕ, zero, suc, ◌+◌, ◌≤◌}
use Prim.Native.String.{String}
use mathlib.Core.Path.{◌≡◌, refl}
use mathlib.Core.Bool.{Bool, true, false}
use mathlib.Core.Option.{Option, none, some}
use mathlib.Core.Logic.{inl, inr}
use mathlib.Core.List.{List, [], ◌∷◌, ◌++◌}
use native.Mathlib.Omega.{arith}
use text.Mathlib.Text.{◌==◌}
use bonk.Base.Tests.{if◌then◌else◌, Bool-cases}

module _ {ℓ} {A : Type ℓ} where
  abbrev pub length : List A → ℕ
  length [] = 0
  length (x ∷ xs) = suc (length xs)

  abbrev pub get_elem? : List A → ℕ → Option A
  get_elem? [] i = none
  get_elem? (x ∷ xs) zero = some x
  get_elem? (x ∷ xs) (suc i) = get_elem? xs i

  pub length-append : (xs ys : List A) → length (xs ++ ys) ≡ length xs + length ys
  length-append [] ys = omega arith
  length-append (x ∷ xs) ys = omega (arith, length-append xs ys)

module _ {ℓ κ} {A : Type ℓ} (P : A → Type κ) where
  abbrev pub All : List A → Type κ
  All [] = Unit
  All (x ∷ xs) = P x × All xs

  pub All-append : (xs ys : List A) → All xs → All ys → All (xs ++ ys)
  All-append [] ys _ k = k
  All-append (x ∷ xs) ys (p, h) k = (p, All-append xs ys h k)

-- How often a text stands in a list.
abbrev pub count : String → List String → ℕ
count a [] = 0
count a (x ∷ xs) = elim (x == a) [ true ↦ suc (count a xs) | false ↦ count a xs ]

pub count-append : (a : String) (xs ys : List String) → count a (xs ++ ys) ≡ count a xs + count a ys
count-append a [] ys = omega arith
count-append a (x ∷ xs) ys = ground (arith, count-append a xs ys)

-- Two lists hold the same texts, as often: equal up to order.
abbrev pub SameTexts : List String → List String → Type 0
SameTexts xs ys = (a : String) → count a xs ≡ count a ys

-- How many members of a list pass a test.
module _ {ℓ} {A : Type ℓ} (f : A → Bool) where
  abbrev pub tally : List A → ℕ
  tally [] = 0
  tally (x ∷ xs) = if f x then suc (tally xs) else tally xs

  pub tally-append : (xs ys : List A) → tally (xs ++ ys) ≡ tally xs + tally ys
  tally-append [] ys = omega arith
  tally-append (x ∷ xs) ys = ground (arith, tally-append xs ys)

  -- A member between two parts counts by itself.
  pub tally_at :
      (xs ys : List A) (x : A) → tally (xs ++ (x ∷ ys)) ≡ tally xs + tally (x ∷ []) + tally ys
  tally_at xs ys x = ground (arith, tally-append xs (x ∷ ys))

  -- A member is replaced by one that the test treats alike, or that it passes in its place.
  pub tally_replaced :
      (xs ys : List A) (x y : A) {zs : List A} {n : ℕ}
      → tally zs ≡ n
      → zs ≡ xs ++ (x ∷ ys)
      → f x ≡ f y
      → tally (xs ++ (y ∷ ys)) ≡ n
  tally_replaced xs ys x y h e same =
      let before = tally_at xs ys x in
      let after = tally_at xs ys y in let h' = rw e at h in ground (arith, h', before, after, same)

  pub tally_raised :
      (xs ys : List A) (x y : A) {zs : List A} {n : ℕ}
      → tally zs ≡ n
      → zs ≡ xs ++ (x ∷ ys)
      → f x ≡ false
      → f y ≡ true
      → tally (xs ++ (y ∷ ys)) ≡ suc n
  tally_raised xs ys x y h e fails passes =
      let before = tally_at xs ys x in
      let after = tally_at xs ys y in
      let h' = rw e at h in ground (arith, h', before, after, fails, passes)

  pub tally_added :
      (xs : List A) (x : A) {n : ℕ} → tally xs ≡ n → f x ≡ false → tally (xs ++ (x ∷ [])) ≡ n
  tally_added xs x h fails = let e = tally-append xs (x ∷ []) in ground (arith, h, e, fails)

  -- A list that no member of passes the test has none between two parts that does.
  pub tally_none :
      (xs ys : List A) (x : A) {zs : List A} → tally zs ≡ 0 → zs ≡ xs ++ (x ∷ ys) → f x ≡ false
  tally_none xs ys x h e =
      let before = tally_at xs ys x in
      let h' = rw e at h in
      elim (Bool-cases (f x)) [
        | inr fails ↦ fails
        | inl passes ↦ ground (arith, h', before, passes)
      ]

  pub tally_up :
      (xs ys : List A) (x y : A) {zs : List A}
      → zs ≡ xs ++ (x ∷ ys)
      → f x ≡ false
      → tally zs ≤ tally (xs ++ (y ∷ ys))
  tally_up xs ys x y e fails =
      let before = tally_at xs ys x in
      let after = tally_at xs ys y in
      let p : tally (x ∷ []) ≡ 0 = rw fails refl in rw e (omega (arith, before, after, p))

  pub tally_down :
      (xs ys : List A) (x y : A) {zs : List A}
      → zs ≡ xs ++ (x ∷ ys)
      → f y ≡ false
      → tally (xs ++ (y ∷ ys)) + tally (x ∷ []) ≡ tally zs
  tally_down xs ys x y e fails =
      let before = tally_at xs ys x in
      let after = tally_at xs ys y in
      let p : tally (y ∷ []) ≡ 0 = rw fails refl in rw e (omega (arith, before, after, p))
