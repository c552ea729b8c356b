-- ===== src/Argconv.antt =====
-- pkg/executor/argconv/conversions.go: executors with typed parameters behind the interface
-- `Executor`. The packages reflect, mapstructure and cuego are parameters.
pub mod Assertion
mod Tests
use bonk.Base.{ℕ, Bool, true, false, Option, none, some, if◌then◌else◌, nat_eq}
use bonk.Errors.{Error, Outcome, ok, error, message, wrap}
use bonk.Task.Value.{
  Value, nil, bool, int, float, text, opaque, pointer, slice, dict, struct, Task, Session,
}
use bonk.Task.Result.{Result}
use bonk.Executor.{Executor, Execute, Returned}

-- What is used of the packages for the type `P` of parameters. Types and kinds are numbers.
pub record Reflect (P : Type 0) : Type 0 where
  -- `reflect.TypeFor[Params]()`
  pub params_type : ℕ
  -- of a value that is not nil
  pub type_of : Value → ℕ
  pub kind : ℕ → ℕ
  -- `reflect.Map`
  pub map_kind : ℕ
  pub can_addr : Value → Bool
  -- `argsV.Addr().Interface().(*Params)`
  pub address : Value → Option P
  -- `tsk.Args.(Params)`
  pub assert : Value → Option P
  -- `mapstructure.Decode` into a new `Params`
  pub decode : Value → Outcome P
  -- `cuego.Complete`, which may change what the pointer shows
  pub complete : Option P → Outcome (Option P)
  -- the text of "failed to convert params from %s to %s"
  pub conversion_error : Value → Error

module _ {P : Type 0} (lib : Reflect P) where
  abbrev pub complete_some : Value → Option P → Outcome (Option P)
  complete_some args (some p) = lib.complete (some p)
  complete_some args none = error (lib.conversion_error args)

  abbrev pub decode_map : Outcome P → Outcome (Option P)
  decode_map (ok p) = ok (some p)
  decode_map (error e) = error (wrap "failed to decode args" e)

  -- The switch on the kind of arguments that are not nil. Where the kinds are the same and the
  -- types are not, `result` stays nil.
  abbrev pub unbox_value : Value → Outcome (Option P)
  unbox_value args =
      let args_type = lib.type_of args in
      if nat_eq (lib.kind args_type) (lib.kind lib.params_type)
      then if nat_eq args_type lib.params_type
        then if lib.can_addr args
          then complete_some args (lib.address args)
          else complete_some args (lib.assert args)
        else lib.complete none
      else if nat_eq (lib.kind args_type) lib.map_kind
      then decode_map (lib.decode args)
      else complete_some args (lib.assert args)

  -- `UnboxArgs`
  unfoldable pub unbox_args : Value → Outcome (Option P)
  unbox_args nil = ok none
  unbox_args (bool b) = unbox_value (bool b)
  unbox_args (int n) = unbox_value (int n)
  unbox_args (float n) = unbox_value (float n)
  unbox_args (text s) = unbox_value (text s)
  unbox_args (opaque n) = unbox_value (opaque n)
  unbox_args (pointer v) = unbox_value (pointer v)
  unbox_args (slice vs) = unbox_value (slice vs)
  unbox_args (dict fs) = unbox_value (dict fs)
  unbox_args (struct fs) = unbox_value (struct fs)

-- `TypedExecutor`
pub record TypedExecutor (P W : Type 0) : Type 0 where
  pub open_session : Session → W → Option Error × W
  pub close_session : ℕ → W → W
  pub execute : Session → Task → Option P → Option Result → W → Returned W

module _ {P W : Type 0} (lib : Reflect P) (impl : TypedExecutor P W) where
  -- `wrappedExecutor.Execute`
  unfoldable pub execute : Execute W
  unfolding unbox_args
  execute session tsk result w = elim (unbox_args lib tsk.args) [
    | error e ↦ record { err = some e; tsk = tsk; result = result; world = w }
    | ok unboxed ↦ impl.execute session tsk unboxed result w
  ]

  -- `BoxExecutor`
  unfoldable pub box_executor : Executor W
  unfolding execute
  box_executor = record {
    execute = execute;
    open_session = impl.open_session;
    close_session = impl.close_session;
  }
