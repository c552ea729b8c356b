-- ===== src/Argconv/Assertion.antt =====
-- pkg/executor/argconv: unboxing described by type assertion alone.
use bonk.Base.{
  ℕ, true, false, Option, none, some, if◌then◌else◌, nat_eq, Option-cases, inl, inr, ◌≡◌, ◌≢◌, refl,
  ap, arith,
}
use bonk.Errors.{Outcome, ok, error}
use bonk.Task.Value.{Value, nil, bool, int, float, text, opaque, pointer, slice, dict, struct}
use bonk.Argconv.{Reflect, decode_map, unbox_value, unbox_args}

-- Package reflect, as it is documented, for parameters that are no interface: an assertion succeeds
-- exactly at the type itself, and the value of an `any` is not addressable.
pub record IsReflect {P : Type 0} (lib : Reflect P) : Type 0 where
  pub asserted : (v : Value) (p : P) → lib.assert v ≡ some p → lib.type_of v ≡ lib.params_type
  pub refused : (v : Value) → lib.assert v ≡ none → lib.type_of v ≢ lib.params_type
  pub not_addressable : (v : Value) → lib.can_addr v ≡ false

module _ {P : Type 0} (lib : Reflect P) where
  -- Arguments that are no `P`: of the same kind, a map, or anything else.
  abbrev pub otherwise : Value → Outcome (Option P)
  otherwise v =
      if nat_eq (lib.kind (lib.type_of v)) (lib.kind lib.params_type)
      then lib.complete none
      else if nat_eq (lib.kind (lib.type_of v)) lib.map_kind
      then decode_map lib (lib.decode v)
      else error (lib.conversion_error v)

  abbrev pub by_assertion : Value → Outcome (Option P)
  by_assertion v = elim (lib.assert v) [ some p ↦ lib.complete (some p) | none ↦ otherwise v ]

  nat_eq_refl : (n m : ℕ) → n ≡ m → nat_eq n m ≡ true
  nat_eq_refl n m e = ground (arith, e)

  nat_eq_ne : (n m : ℕ) → n ≢ m → nat_eq n m ≡ false
  nat_eq_ne n m ne = ground (arith, ne)

  module _ (law : IsReflect lib) where
    unbox_value-by_assertion : (v : Value) → unbox_value lib v ≡ by_assertion v
    unbox_value-by_assertion v = elim (Option-cases (lib.assert v)) [
      | inr (p, q) ↦
          let same_type = law.asserted v p q in
          let same_kind =
            nat_eq_refl (lib.kind (lib.type_of v)) (lib.kind lib.params_type)
              (ap lib.kind same_type) in
          let same = nat_eq_refl (lib.type_of v) lib.params_type same_type in
          let direct = law.not_addressable v in ground (arith, q, same_kind, same, direct)
      | inl q ↦
          let other_type = nat_eq_ne (lib.type_of v) lib.params_type (law.refused v q) in
          ground (arith, q, other_type)
    ]

    -- Let package reflect be as documented, and the parameters no interface. Then unboxing arguments
    -- gives no parameters for nil. For arguments of the type of the parameters,
    -- it completes them by cuego. Other arguments of the same kind are dropped for a nil pointer,
    -- which cuego completes; a map is decoded and not given to cuego; and all else is an error.
    pub unbox_args-by_assertion :
        (v : Value) → unbox_args lib v ≡ (elim v [ nil ↦ ok none | other ↦ by_assertion other ])
    unfolding unbox_args
    unbox_args-by_assertion nil = refl
    unbox_args-by_assertion (bool b) = unbox_value-by_assertion (bool b)
    unbox_args-by_assertion (int n) = unbox_value-by_assertion (int n)
    unbox_args-by_assertion (float n) = unbox_value-by_assertion (float n)
    unbox_args-by_assertion (text s) = unbox_value-by_assertion (text s)
    unbox_args-by_assertion (opaque n) = unbox_value-by_assertion (opaque n)
    unbox_args-by_assertion (pointer u) = unbox_value-by_assertion (pointer u)
    unbox_args-by_assertion (slice vs) = unbox_value-by_assertion (slice vs)
    unbox_args-by_assertion (dict fs) = unbox_value-by_assertion (dict fs)
    unbox_args-by_assertion (struct fs) = unbox_value-by_assertion (struct fs)
