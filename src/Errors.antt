-- ===== src/Errors.antt =====
-- Go's `error`, as the packages under pkg/ build it: sentinel values, wrapping by
-- `fmt.Errorf("…%w…")`, gRPC statuses, and `go.uber.org/multierr`. A nil `error` is `none`.
use bonk.Base.{ℕ, String, Option, none, some, ◌≡◌, refl}

pub data Error : Type 0 where
  -- router.ErrDuplicateExecutor, router.ErrNoExecutorFound, observable.ErrUnopenedSession
  duplicate_executor no_executor_found unopened_session : Error
  -- io.EOF
  eof : Error
  -- errors.New, and the errors of other libraries, by their message
  message : String → Error
  -- fmt.Errorf with one %w
  wrap : String → Error → Error
  -- status.Error of a gRPC code
  status : ℕ → String → Error
  -- what multierr makes of two errors
  both : Error → Error → Error

-- `multierr.Append`: the sum of two possibly nil errors.
abbrev pub append_error : Option Error → Option Error → Option Error
append_error none e = e
append_error (some d) none = some d
append_error (some d) (some e) = some (both d e)

-- A sum is nil only of nil errors.
pub append_error-none : (d e : Option Error) → append_error d e ≡ none → (d ≡ none) × (e ≡ none)
append_error-none none e h = (refl, h)
append_error-none (some d) none h = absurd cc
append_error-none (some d) (some e) h = absurd cc

-- A value or an error.
pub data Outcome (A : Type 0) : Type 0 where
  ok : A → Outcome A
  error : Error → Outcome A

infixl 5 ◌>>=◌
abbrev pub ◌>>=◌ : {A B : Type 0} → Outcome A → (A → Outcome B) → Outcome B
ok a >>= f = f a
error e >>= f = error e
