-- ===== src/Rpc/Client.antt =====
-- pkg/executor/rpc/client.go: `grpcClient.OpenSession` and `grpcClient.CloseSession`, over the two
-- calls of the connection.
use bonk.Base.{ℕ, List, [], ◌∷◌, Option, none, some}
use bonk.Errors.{Error, Outcome, ok, error, wrap}
use bonk.Task.Value.{Session}
use bonk.Rpc.Sessions.{OpenRequest, open_request}
use bonk.Rpc.Logs.{LogStreaming, client_streaming, Received, await_ack}

-- The calls. A stream is what is received on it, in order. The last field is the error log.
pub record Connection (W : Type 0) : Type 0 where
  pub open_session : OpenRequest → LogStreaming → W → Outcome (List Received) × W
  pub close_session : ℕ → W → Option Error × W
  pub log_error : ℕ → Error → W → W

module _ {W : Type 0} (conn : Connection W) where
  -- What the first message leads to, with the messages that the goroutine of `handleLogStreaming`
  -- goes on with. `none` while no message has come.
  abbrev pub opened : List Received → Option (Option Error × List Received)
  opened [] = none
  opened (r ∷ rest) = elim (await_ack (r ∷ rest)) [
    | none ↦ none
    | some none ↦ some (none, rest)
    | some (some e) ↦ some (some e, [])
  ]

  abbrev pub from_stream : Outcome (List Received) × W → Option (Option Error × List Received) × W
  from_stream (error e, w) = (some (some (wrap "failed to open session stream" e), []), w)
  from_stream (ok messages, w) = (opened messages, w)

  unfoldable pub open_session : Session → W → Option (Option Error × List Received) × W
  unfolding open_request await_ack
  open_session session w = from_stream (conn.open_session (open_request session) client_streaming w)

  abbrev pub after_close : ℕ → Option Error × W → W
  after_close id (none, w) = w
  after_close id (some e, w) = conn.log_error id e w

  -- An error of the call is logged, and does not reach the caller.
  unfoldable pub close_session : ℕ → W → W
  close_session id w = after_close id (conn.close_session id w)
