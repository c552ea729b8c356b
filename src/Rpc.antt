-- ===== src/Rpc.antt =====
-- pkg/executor/rpc: an executor in another process. The wire values and their conversion
-- (proto_conversion.go).
pub mod Convert
pub mod Exchange
pub mod Remote
pub mod Sessions
pub mod Logs
pub mod Client
mod Tests
use bonk.Base.{ℕ, zero, suc, String, Bool, List, [], ◌∷◌, Option, none, some}
use bonk.Errors.{Error, Outcome, ok, error, wrap}
use bonk.Task.Value.{
  Value, nil, bool, int, float, text, opaque, pointer, slice, dict, struct, Values, empty, item,
  Fields, end, field,
}

-- `structpb.Value`, with numbers as bit patterns.
mutual
  pub data Proto : Type 0 where
    null_value : Proto
    bool_value : Bool → Proto
    number_value : ℕ → Proto
    string_value : String → Proto
    list_value : Protos → Proto
    struct_value : ProtoFields → Proto

  pub data Protos : Type 0 where
    no_values : Protos
    value : Proto → Protos → Protos

  pub data ProtoFields : Type 0 where
    no_fields : ProtoFields
    entry : String → Proto → ProtoFields → ProtoFields

pub data Converted (A : Type 0) : Type 0 where
  converted : A → Converted A
  refused : Error → Converted A
  -- a method of the zero `reflect.Value`
  panicked : Converted A
  -- the fuel of the recursion ran out
  unfinished : Converted A

abbrev pub then_convert : {A B : Type 0} → Converted A → (A → Converted B) → Converted B
then_convert (converted a) f = f a
then_convert (refused e) f = refused e
then_convert panicked f = panicked
then_convert unfinished f = unfinished

-- What packages structpb and mapstructure do: a value of a basic kind, the fields of a struct as a
-- map, and the way back.
pub record Coder : Type 0 where
  pub new_value : Value → Outcome Proto
  pub decode_struct : Fields → Outcome Fields
  pub as_interface : Proto → Value

abbrev of_outcome : {A : Type 0} → Outcome A → Converted A
of_outcome (ok a) = converted a
of_outcome (error e) = refused e

-- The loops over a slice and over a map.
abbrev pub convert_all : (Value → Converted Proto) → Values → Converted Protos
convert_all f empty = converted no_values
convert_all f (item v vs) =
    then_convert (f v) (λ p. then_convert (convert_all f vs) (λ ps. converted (value p ps)))

abbrev pub convert_fields : (Value → Converted Proto) → Fields → Converted ProtoFields
convert_fields f end = converted no_fields
convert_fields f (field k v fs) =
    then_convert (f v) (λ p. then_convert (convert_fields f fs) (λ ps. converted (entry k p ps)))

module _ (coder : Coder) where
  -- `toProtoValue`. A nil interface inside a slice or a map has no type.
  unfoldable pub convert : ℕ → Value → Converted Proto
  convert zero v = unfinished
  convert (suc fuel) nil = panicked
  convert (suc fuel) (pointer v) = convert fuel v
  convert (suc fuel) (slice vs) =
      then_convert (convert_all (convert fuel) vs) (λ ps. converted (list_value ps))
  convert (suc fuel) (dict fs) =
      then_convert (convert_fields (convert fuel) fs) (λ ps. converted (struct_value ps))
  convert (suc fuel) (struct fs) = elim (coder.decode_struct fs) [
    | error e ↦ refused (wrap "failed to decode args into mapstructure" e)
    | ok intermediate ↦ convert fuel (dict intermediate)
  ]
  convert (suc fuel) (bool b) = of_outcome (coder.new_value (bool b))
  convert (suc fuel) (int n) = of_outcome (coder.new_value (int n))
  convert (suc fuel) (float n) = of_outcome (coder.new_value (float n))
  convert (suc fuel) (text s) = of_outcome (coder.new_value (text s))
  convert (suc fuel) (opaque n) = of_outcome (coder.new_value (opaque n))

  -- `ToProtoValue`
  unfoldable pub to_proto_value : ℕ → Value → Converted Proto
  unfolding convert
  to_proto_value fuel nil = converted null_value
  to_proto_value fuel v = convert fuel v
