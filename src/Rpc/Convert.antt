-- ===== src/Rpc/Convert.antt =====
-- pkg/executor/rpc/proto_conversion.go: arguments before and after a connection.
use Prim.Native.Nat.{max}
use native.Mathlib.Nat.{le-max_left, le-max_right}
use Prim.Native.Nat.{◌/◌, ◌%◌}
use bonk.Base.{String, Bool, false, nat_eq, ℕ, zero, suc, ◌<◌, ◌≡◌, refl, ◌∙◌, ap, arith}
use bonk.Errors.{ok}
use bonk.Task.Value.{
  Value, nil, bool, int, float, text, opaque, pointer, slice, dict, struct, Values, empty, item,
  Fields, end, field,
}
use bonk.Rpc.{
  Proto, null_value, bool_value, number_value, string_value, list_value, struct_value, Protos,
  no_values, value, ProtoFields, no_fields, entry, converted, panicked, Coder, convert_all,
  convert_fields, convert, to_proto_value,
}

-- The bit pattern of a float that is neither infinite nor NaN: its exponent is not all ones.
abbrev pub IsFinite : ℕ → Type 0
IsFinite n = nat_eq ((n / 4503599627370496) % 2048) 2047 ≡ false

-- Values of the kinds that JSON has, apart from null.
abbrev mutual
  pub IsJson : Value → Type 0
  IsJson (bool b) = Unit
  IsJson (float n) = IsFinite n
  IsJson (text s) = Unit
  IsJson (slice vs) = AreJson vs
  IsJson (dict fs) = HasJson fs
  IsJson _ = ⊥

  pub AreJson : Values → Type 0
  AreJson empty = Unit
  AreJson (item v vs) = IsJson v × AreJson vs

  pub HasJson : Fields → Type 0
  HasJson end = Unit
  HasJson (field k v fs) = IsJson v × HasJson fs

abbrev pub IsSent : Value → Type 0
IsSent nil = Unit
IsSent v = IsJson v

abbrev mutual
  pub depth : Value → ℕ
  depth (slice vs) = suc (depth_all vs)
  depth (dict fs) = suc (depth_fields fs)
  depth _ = 0

  pub depth_all : Values → ℕ
  depth_all empty = 0
  depth_all (item v vs) = max (depth v) (depth_all vs)

  pub depth_fields : Fields → ℕ
  depth_fields end = 0
  depth_fields (field k v fs) = max (depth v) (depth_fields fs)

abbrev pub values_of : (Proto → Value) → Protos → Values
values_of f no_values = empty
values_of f (value p ps) = item (f p) (values_of f ps)

abbrev pub fields_of : (Proto → Value) → ProtoFields → Fields
fields_of f no_fields = end
fields_of f (entry k p ps) = field k (f p) (fields_of f ps)

module _ (coder : Coder) where
  open coder use {new_value, as_interface}

  -- What package structpb says of `NewValue` and `AsInterface`, which makes texts of the infinities
  -- and of NaN.
  pub record IsStructpb : Type 0 where
    pub new_bool : (b : Bool) → new_value (bool b) ≡ ok (bool_value b)
    pub new_number : (n : ℕ) → new_value (float n) ≡ ok (number_value n)
    pub new_string : (s : String) → new_value (text s) ≡ ok (string_value s)
    pub as_nil : as_interface null_value ≡ nil
    pub as_bool : (b : Bool) → as_interface (bool_value b) ≡ bool b
    pub as_number : (n : ℕ) → IsFinite n → as_interface (number_value n) ≡ float n
    pub as_string : (s : String) → as_interface (string_value s) ≡ text s
    pub as_list : (ps : Protos) → as_interface (list_value ps) ≡ slice (values_of as_interface ps)
    pub as_map :
        (ps : ProtoFields) → as_interface (struct_value ps) ≡ dict (fields_of as_interface ps)

  abbrev Arrives : ℕ → Value → Type 0
  Arrives fuel v = (p : Proto) × (convert coder fuel v ≡ converted p) × (as_interface p ≡ v)

  module _ (law : IsStructpb) where
    mutual
      unfolding convert

      convert-Arrives : (fuel : ℕ) (v : Value) → IsJson v → depth v < fuel → Arrives fuel v
      convert-Arrives zero v j h = elim h [ ]
      convert-Arrives (suc fuel) nil j h = elim j [ ]
      convert-Arrives (suc fuel) (int _) j h = elim j [ ]
      convert-Arrives (suc fuel) (opaque _) j h = elim j [ ]
      convert-Arrives (suc fuel) (pointer _) j h = elim j [ ]
      convert-Arrives (suc fuel) (struct _) j h = elim j [ ]
      convert-Arrives (suc fuel) (bool b) j h =
          (bool_value b, rw (law.new_bool b) refl, law.as_bool b)
      convert-Arrives (suc fuel) (float n) j h =
          (number_value n, rw (law.new_number n) refl, law.as_number n j)
      convert-Arrives (suc fuel) (text s) j h =
          (string_value s, rw (law.new_string s) refl, law.as_string s)
      convert-Arrives (suc fuel) (slice vs) j h =
          let (ps, c, a) = convert_all-Arrives fuel vs j (omega arith) in
          (list_value ps, rw c refl, law.as_list ps ∙ ap slice a)
      convert-Arrives (suc fuel) (dict fs) j h =
          let (ps, c, a) = convert_fields-Arrives fuel fs j (omega arith) in
          (struct_value ps, rw c refl, law.as_map ps ∙ ap dict a)

      convert_all-Arrives :
          (fuel : ℕ) (vs : Values)
          → AreJson vs
          → depth_all vs < fuel
          → (ps : Protos) × (convert_all (convert coder fuel) vs ≡ converted ps)
            × (values_of as_interface ps ≡ vs)
      convert_all-Arrives fuel empty j h = (no_values, refl, refl)
      convert_all-Arrives fuel (item v vs) (j, js) h =
          let (p, c, a) =
            convert-Arrives fuel v j (omega (arith, le-max_left (depth v) (depth_all vs))) in
          let (ps, d, b) =
            convert_all-Arrives fuel vs js (omega (arith, le-max_right (depth v) (depth_all vs))) in
          (value p ps, rw (c, d) refl, rw (a, b) refl)

      convert_fields-Arrives :
          (fuel : ℕ) (fs : Fields)
          → HasJson fs
          → depth_fields fs < fuel
          → (ps : ProtoFields) × (convert_fields (convert coder fuel) fs ≡ converted ps)
            × (fields_of as_interface ps ≡ fs)
      convert_fields-Arrives fuel end j h = (no_fields, refl, refl)
      convert_fields-Arrives fuel (field k v fs) (j, js) h =
          let (p, c, a) =
            convert-Arrives fuel v j (omega (arith, le-max_left (depth v) (depth_fields fs))) in
          let (ps, d, b) =
            convert_fields-Arrives fuel fs js
              (omega (arith, le-max_right (depth v) (depth_fields fs))) in
          (entry k p ps, rw (c, d) refl, rw (a, b) refl)

    -- Let package structpb be as documented. Arguments that are nil, or made of booleans, finite
    -- floats, texts, slices and maps with no nil inside, are converted with more fuel than their
    -- depth, and on the other side they are read back with the same booleans, floats, texts and keys
    -- in the same places. Slices and maps are told by what they hold, not by the type of their
    -- elements.
    pub to_proto_value-as_interface :
        (fuel : ℕ) (v : Value)
        → IsSent v
        → depth v < fuel
        → (p : Proto) × (to_proto_value coder fuel v ≡ converted p) × (as_interface p ≡ v)
    unfolding to_proto_value
    to_proto_value-as_interface fuel nil s h = (null_value, refl, law.as_nil)
    to_proto_value-as_interface fuel (bool b) s h = convert-Arrives fuel (bool b) s h
    to_proto_value-as_interface fuel (float n) s h = convert-Arrives fuel (float n) s h
    to_proto_value-as_interface fuel (text t) s h = convert-Arrives fuel (text t) s h
    to_proto_value-as_interface fuel (slice vs) s h = convert-Arrives fuel (slice vs) s h
    to_proto_value-as_interface fuel (dict fs) s h = convert-Arrives fuel (dict fs) s h
    to_proto_value-as_interface fuel (int _) s h = elim s [ ]
    to_proto_value-as_interface fuel (opaque _) s h = elim s [ ]
    to_proto_value-as_interface fuel (pointer _) s h = elim s [ ]
    to_proto_value-as_interface fuel (struct _) s h = elim s [ ]

  -- A nil anywhere in a slice of values that convert makes the conversion panic, where a nil that is
  -- the whole argument is sent as null.
  to_proto_value-nil_inside :
      (fuel : ℕ) (v : Value) (p : Proto) (vs : Values)
      → convert coder (suc fuel) v ≡ converted p
      → to_proto_value coder (suc (suc fuel)) (slice (item v (item nil vs))) ≡ panicked
  unfolding to_proto_value convert
  to_proto_value-nil_inside fuel v p vs c = rw c refl
