-- ===== src/Driver/Ids.antt =====
-- pkg/driver/driver.go: the sessions of a run, by their ids.
use bonk.Base.{ℕ, List, [], ◌∷◌, All, nat_eq, ◌≡◌, ◌≢◌, ◌⊎◌, inl, inr, ◌∙◌, ap, arith, Bool-cases}
use mathlib.Core.List.{Permᴰ}
use bonk.Task.Value.{Task, Session}

abbrev pub Work : Type 0
Work = List (Session × List Task)

-- The id is that of none of the sessions, or that of one.
abbrev pub IsOther : ℕ → Work → Type 0
IsOther id sessions = All (λ (s : Session × List Task). id ≢ s.0.id) sessions

abbrev pub Among : ℕ → Work → Type 0
Among id [] = ⊥
Among id ((session, tasks) ∷ rest) = (id ≡ session.id) ⊎ Among id rest

abbrev pub Distinct : Work → Type 0
Distinct [] = Unit
Distinct ((session, tasks) ∷ rest) = IsOther session.id rest × Distinct rest

pub Among-cases : (id : ℕ) (sessions : Work) → IsOther id sessions ⊎ Among id sessions
Among-cases id [] = inl tt
Among-cases id ((session, tasks) ∷ rest) = elim (Bool-cases (nat_eq id session.id)) [
  | inl e ↦ inr (inl (ground arith))
  | inr e ↦ elim (Among-cases id rest) [
    | inl other ↦ inl ((ground arith), other)
    | inr among ↦ inr (inr among)
  ]
]

pub Among-perm : (id : ℕ) {xs ys : Work} → Permᴰ xs ys → Among id xs → Among id ys
Among-perm id Permᴰ.nil a = a
Among-perm id (Permᴰ.cons same p) (inl e) = inl (e ∙ ap (λ (s : Session × List Task). s.0.id) same)
Among-perm id (Permᴰ.cons same p) (inr a) = inr (Among-perm id p a)
Among-perm id (Permᴰ.swap same same') (inl e) =
    inr (inl (e ∙ ap (λ (s : Session × List Task). s.0.id) same))
Among-perm id (Permᴰ.swap same same') (inr (inl e)) =
    inl (e ∙ ap (λ (s : Session × List Task). s.0.id) same')
Among-perm id (Permᴰ.swap same same') (inr (inr a)) = inr (inr a)
Among-perm id (Permᴰ.trans p q) a = Among-perm id q (Among-perm id p a)
