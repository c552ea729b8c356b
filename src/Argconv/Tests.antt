-- ===== src/Argconv/Tests.antt =====
-- Parameters that are a text, and that must not be empty.
use bonk.Base.{ℕ, false, String, Option, none, some, if◌then◌else◌, ◌==◌, ◌≡◌, ◌≢◌, refl, arith}
use bonk.Errors.{ok, error, message}
use bonk.Task.Value.{
  Value, nil, bool, int, float, text, opaque, pointer, slice, dict, struct, end, field,
}
use bonk.Argconv.{Reflect, unbox_args}
use bonk.Argconv.Assertion.{IsReflect, by_assertion, unbox_args-by_assertion}

-- The kinds are the types.
abbrev type_number : Value → ℕ
type_number (text s) = 24
type_number (dict fs) = 21
type_number (bool b) = 1
type_number v = 0

abbrev text_of : Value → Option String
text_of (text s) = some s
text_of v = none

abbrev texts : Reflect String
texts = record {
  params_type = 24;
  type_of = type_number;
  kind = λ n. n;
  map_kind = 21;
  can_addr = λ v. false;
  address = λ v. none;
  assert = text_of;
  decode = λ v. ok "decoded";
  complete = λ p. elim p [
    | none ↦ ok none
    | some s ↦ if s == "" then error (message "empty") else ok (some s)
  ];
  conversion_error = λ v. message "failed to convert";
}

texts-asserted : (v : Value) (p : String) → text_of v ≡ some p → type_number v ≡ 24
texts-asserted (text s) p e = refl
texts-asserted nil p e = absurd cc
texts-asserted (bool b) p e = absurd cc
texts-asserted (int n) p e = absurd cc
texts-asserted (float n) p e = absurd cc
texts-asserted (opaque n) p e = absurd cc
texts-asserted (pointer u) p e = absurd cc
texts-asserted (slice vs) p e = absurd cc
texts-asserted (dict fs) p e = absurd cc
texts-asserted (struct fs) p e = absurd cc

texts-refused : (v : Value) → text_of v ≡ none → type_number v ≢ 24
texts-refused (text s) e = absurd cc
texts-refused nil e = omega arith
texts-refused (bool b) e = omega arith
texts-refused (int n) e = omega arith
texts-refused (float n) e = omega arith
texts-refused (opaque n) e = omega arith
texts-refused (pointer u) e = omega arith
texts-refused (slice vs) e = omega arith
texts-refused (dict fs) e = omega arith
texts-refused (struct fs) e = omega arith

texts-IsReflect : IsReflect texts
texts-IsReflect = record {
  asserted = texts-asserted;
  refused = texts-refused;
  not_addressable = λ v. refl;
}

unbox_args-by_assertion_example :
    unbox_args texts (dict (field "a" (text "b") end))
    ≡ by_assertion texts (dict (field "a" (text "b") end))
unbox_args-by_assertion_example =
    unbox_args-by_assertion texts texts-IsReflect (dict (field "a" (text "b") end))
