-- ===== src/Base/Text.antt =====
-- The parts of Go's package `strings` that the program uses, with the separator of task names:
-- `strings.Cut(s, ".")` and `strings.Join(parts, ".")`.
use Prim.Native.Nat.{ℕ, suc, ◌<◌}
use Prim.Native.Char.{Char, code}
use Prim.Native.String
use Prim.Native.String.{String, [], ◌∷◌}
use mathlib.Core.Path.{◌≡◌, refl, sym, ap}
use mathlib.Core.Logic.{inl, inr}
use mathlib.Core.Bool.{Bool, true, false}
use mathlib.Core.List.{List, [], ◌∷◌}
use native.Mathlib.Omega.{arith}
use text.Mathlib.TextLemmas.{nil-append, cons-append}
use text.Mathlib.TextEquality.{Char-path}
use bonk.Base.Tests.{nat_eq, if◌then◌else◌, Bool-cases}

-- `a + b` on strings.
abbrev pub append : String → String → String
append a b = String.◌++◌ a b

-- The number of characters.
abbrev pub size : String → ℕ
size [] = 0
size (c ∷ s) = suc (size s)

abbrev is_sep : Char → Bool
is_sep c = nat_eq (code c) b'.'

-- `strings.Cut(s, ".")`: the text before the first separator, the text after it, and whether
-- there is one.
unfoldable pub cut : String → String × String × Bool
cut [] = ("", "", false)
cut (c ∷ s) =
    let (before, after, found) = cut s in
    if is_sep c then ("", s, true) else (c ∷ before, after, found)

-- `strings.Join(parts, ".")`.
unfoldable pub join : List String → String
join [] = ""
join (x ∷ []) = x
join (x ∷ y ∷ rest) = append x (append "." (join (y ∷ rest)))

-- No separator stands in the text.
abbrev pub NoSep : String → Type 0
NoSep [] = Unit
NoSep (c ∷ s) = (is_sep c ≡ false) × NoSep s

pub cut-NoSep : (s : String) → NoSep (cut s).0
unfolding cut
cut-NoSep [] = tt
cut-NoSep (c ∷ s) = elim (Bool-cases (is_sep c)) [ inl e ↦ rw e tt | inr e ↦ rw e (e, cut-NoSep s) ]

pub cut_of_NoSep : (s : String) → NoSep s → cut s ≡ (s, "", false)
unfolding cut
cut_of_NoSep [] h = refl
cut_of_NoSep (c ∷ s) (e, h) = rw (e, cut_of_NoSep s h)

-- Cutting a joined name gives its first part and the rest.
pub cut-append : (a s : String) → NoSep a → cut (append a (append "." s)) ≡ (a, s, true)
unfolding cut
cut-append [] s h = rw (nil-append, cons-append, nil-append)
cut-append (c ∷ a) s (e, h) = rw (cons-append, e, cut-append a s h)

-- What follows the separator is shorter than the whole.
pub size-cut : (s : String) → (cut s).2 ≡ true → size (cut s).1 < size s
unfolding cut
size-cut [] h = cc
size-cut (c ∷ s) h = elim (Bool-cases (is_sep c)) [
  | inl e ↦ rw e (omega arith)
  | inr e ↦ rw e (omega (arith, size-cut s (rw e at h)))
]

-- Without a separator nothing follows.
pub cut-after_none : (s : String) → (cut s).2 ≡ false → (cut s).1 ≡ ""
unfolding cut
cut-after_none [] h = refl
cut-after_none (c ∷ s) h = elim (Bool-cases (is_sep c)) [
  | inl e ↦ cc (rw e at h)
  | inr e ↦ rw e (cut-after_none s (rw e at h))
]

is_sep_lem : (c : Char) → is_sep c ≡ true → c ≡ "."
is_sep_lem c h = Char-path c "." (ground arith)

-- The parts put together again are the text.
pub append-cut : (s : String) → (cut s).2 ≡ true → append (cut s).0 (append "." (cut s).1) ≡ s
unfolding cut
append-cut [] h = cc
append-cut (c ∷ s) h = elim (Bool-cases (is_sep c)) [
  | inl e ↦ rw (e, nil-append, cons-append, nil-append) (ap (λ d. d ∷ s) (sym (is_sep_lem c e)))
  | inr e ↦ rw (e, cons-append) (ap (λ t. c ∷ t) (append-cut s (rw e at h)))
]

pub cut-before_none : (s : String) → (cut s).2 ≡ false → (cut s).0 ≡ s
unfolding cut
cut-before_none [] h = refl
cut-before_none (c ∷ s) h = elim (Bool-cases (is_sep c)) [
  | inl e ↦ cc (rw e at h)
  | inr e ↦ rw e (ap (λ t. c ∷ t) (cut-before_none s (rw e at h)))
]

pub NoSep-of_cut : (s : String) → (cut s).2 ≡ false → NoSep s
unfolding cut
NoSep-of_cut [] h = tt
NoSep-of_cut (c ∷ s) h = elim (Bool-cases (is_sep c)) [
  | inl e ↦ cc (rw e at h)
  | inr e ↦ (e, NoSep-of_cut s (rw e at h))
]
