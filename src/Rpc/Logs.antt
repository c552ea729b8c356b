-- ===== src/Rpc/Logs.antt =====
-- pkg/executor/rpc/server.go, client.go and log_streaming.go: the messages on the stream of an open
-- session. The server sends a record for what the executor logs, and an acknowledgement when the
-- session is open; the client reads that first, and then logs what follows.
pub mod Acknowledged
pub mod Streamed
mod Tests
use bonk.Base.{
  ℕ, String, Bool, true, false, not, ◌&&◌, ◌||◌, List, [], ◌∷◌, ◌++◌, Option, none, some,
  if◌then◌else◌, ltb, ◌==◌,
}
use bonk.Errors.{Error, eof, message, wrap, both}
use bonk.Task.Value.{Value}
use bonk.Rpc.{Proto, Converted, converted, refused, panicked, unfinished, Coder, to_proto_value}

-- A level of package slog.
pub data ℤ : Type 0 where
  pos : ℕ → ℤ
  negsuc : ℕ → ℤ

abbrev pub ltb_ℤ : ℤ → ℤ → Bool
ltb_ℤ (pos n) (pos m) = ltb n m
ltb_ℤ (pos n) (negsuc m) = false
ltb_ℤ (negsuc n) (pos m) = true
ltb_ℤ (negsuc n) (negsuc m) = ltb m n

-- `slog.LevelInfo`
abbrev pub level_info : ℤ
level_info = pos 0

-- `LogStreamingOptions`
pub record LogStreaming : Type 0 where
  pub level : ℤ
  pub add_source : Bool

-- What the client asks for.
abbrev pub client_streaming : LogStreaming
client_streaming = record { level = level_info; add_source = false }

-- `slog.Record`, with its source as a value.
pub record LogRecord : Type 0 where
  pub time : ℕ
  pub level : ℤ
  pub text : String
  pub attrs : List (String × Value)
  pub source : Value

-- `OpenSessionResponse_LogRecord`. The map of its attributes is the list of its entries.
pub record SentRecord : Type 0 where
  pub time : ℕ
  pub level : ℤ
  pub text : String
  pub attrs : List (String × Proto)

pub data StreamMessage : Type 0 where
  ack unknown_message : StreamMessage
  log_record : SentRecord → StreamMessage

-- What `stream.Recv` returns: a message, or an error with whether the stream's context has ended.
-- `undetermined` stands for a conversion that ran out of fuel.
pub data Received : Type 0 where
  received : StreamMessage → Received
  failed : Error → Bool → Received
  undetermined : Received

unfoldable pub has_key {ℓ} : {A : Type ℓ} → String → List (String × A) → Bool
has_key key [] = false
has_key key ((k, a) ∷ rest) = if k == key then true else has_key key rest

-- A later value for the same key replaces an earlier one.
abbrev pub under_key : String → Proto → List (String × Proto) → List (String × Proto)
under_key key p rest = if has_key key rest then rest else (key, p) ∷ rest

-- `lost` is the error that the client sees of a server that has panicked.
module _ (coder : Coder) (fuel : ℕ) (lost : Error) where
  -- `record.Attrs`. An attribute that is not converted panics.
  unfoldable pub attrs_to_proto : List (String × Value) → Converted (List (String × Proto))
  unfolding has_key
  attrs_to_proto [] = converted []
  attrs_to_proto ((key, v) ∷ attrs) =
      let rest = attrs_to_proto attrs in
      elim (to_proto_value coder fuel v) [
        | converted p ↦ elim rest [
          | converted ps ↦ converted (under_key key p ps)
          | refused e ↦ panicked
          | panicked ↦ panicked
          | unfinished ↦ unfinished
        ]
        | refused e ↦ panicked
        | panicked ↦ panicked
        | unfinished ↦ unfinished
      ]

  abbrev pub sent_attrs : LogStreaming → LogRecord → List (String × Value)
  sent_attrs options r =
      if options.add_source then r.attrs ++ (("source", r.source) ∷ []) else r.attrs

  abbrev pub is_enabled : LogStreaming → LogRecord → Bool
  is_enabled options r = not (ltb_ℤ r.level options.level)

  abbrev pub message_of : LogRecord → Converted (List (String × Proto)) → Received
  message_of r (converted ps) =
      received (log_record (record { time = r.time; level = r.level; text = r.text; attrs = ps }))
  message_of r (refused e) = failed lost false
  message_of r panicked = failed lost false
  message_of r unfinished = undetermined

  -- The handler of the server's logger.
  unfoldable pub handle : LogStreaming → LogRecord → Received
  unfolding attrs_to_proto
  handle options r = message_of r (attrs_to_proto (sent_attrs options r))

  -- Nothing is sent after a panic.
  abbrev pub go_on : Received → List Received → List Received
  go_on (received m) rest = received m ∷ rest
  go_on (failed e done) rest = failed e done ∷ []
  go_on undetermined rest = undetermined ∷ []

  -- What is sent for the records that are logged, in order, and then `rest`.
  unfoldable pub stream : LogStreaming → List LogRecord → List Received → List Received
  unfolding handle
  stream options [] rest = rest
  stream options (r ∷ rs) rest =
      let others = stream options rs rest in
      if is_enabled options r then go_on (handle options r) others else others

  -- The stream of `grpcServer.OpenSession`, whose executor logs `before` while it opens the session,
  -- and `after` later.
  abbrev pub opened_stream :
      LogStreaming → List LogRecord → Option Error → List LogRecord → List Received
  opened_stream options before (some e) after = stream options before (failed e false ∷ [])
  opened_stream options before none after =
      stream options before (received ack ∷ stream options after [])

-- How `grpcClient.OpenSession` ends, with an error or without; `none` while nothing has come.
unfoldable pub await_ack : List Received → Option (Option Error)
await_ack [] = none
await_ack (undetermined ∷ rest) = none
await_ack (failed e done ∷ rest) = some (some (wrap "error receiving ack" e))
await_ack (received ack ∷ rest) = some none
await_ack (received unknown_message ∷ rest) =
    some (some (message "expected ack, received other message"))
await_ack (received (log_record r) ∷ rest) =
    some (some (message "expected ack, received other message"))

-- `errors.Is(err, io.EOF)`
unfoldable pub is_eof : Error → Bool
is_eof eof = true
is_eof (wrap msg e) = is_eof e
is_eof (both d e) = is_eof d || is_eof e
is_eof _ = false

-- What the client logs.
pub data Logged : Type 0 where
  logged : ℤ → String → List (String × Value) → Logged
  receive_error : Error → Logged
  unknown_response : Logged

abbrev pub values_of : Coder → List (String × Proto) → List (String × Value)
values_of coder [] = []
values_of coder ((key, p) ∷ rest) = (key, coder.as_interface p) ∷ values_of coder rest

-- The orders in which the loop over a map of attributes goes, for each message anew.
abbrev pub Orders : Type 0
Orders = ℕ → List (String × Value) → List (String × Value)

abbrev pub later : Orders → Orders
later order n = order (ℕ.suc n)

-- `handleLogStreaming`: what is logged, and whether the loop has ended.
unfoldable pub handle_log_streaming : Coder → Orders → List Received → List Logged × Bool
unfolding is_eof
handle_log_streaming coder order [] = ([], false)
handle_log_streaming coder order (undetermined ∷ rest) = ([], false)
handle_log_streaming coder order (failed e done ∷ rest) =
    let others = handle_log_streaming coder (later order) rest in
    if done || is_eof e then ([], true) else (receive_error e ∷ others.0, others.1)
handle_log_streaming coder order (received ack ∷ rest) =
    let others = handle_log_streaming coder (later order) rest in
    (unknown_response ∷ others.0, others.1)
handle_log_streaming coder order (received unknown_message ∷ rest) =
    let others = handle_log_streaming coder (later order) rest in
    (unknown_response ∷ others.0, others.1)
handle_log_streaming coder order (received (log_record r) ∷ rest) =
    let others = handle_log_streaming coder (later order) rest in
    (logged r.level r.text (order 0 (values_of coder r.attrs)) ∷ others.0, others.1)
