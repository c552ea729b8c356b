-- ===== src/Rpc/Logs/Tests.antt =====
-- Two records, of which the client asks for one.
use bonk.Base.{true, false, String, List, [], ◌∷◌, none, some, ℕ, ◌+◌, All, ◌≡◌, refl, arith}
use bonk.Errors.{ok, eof, message}
use bonk.Task.Value.{Value, text, new_test_session}
use bonk.Rpc.Tests.{coder, coder-IsStructpb}
use bonk.Rpc.Logs.{
  ℤ, pos, negsuc, client_streaming, LogRecord, failed, received, ack, has_key, stream,
  opened_stream, await_ack, logged, handle_log_streaming, Orders,
}
use bonk.Rpc.Client.{Connection, open_session, close_session}
use bonk.Rpc.Logs.Acknowledged.{is_opened, await_ack-opened_stream}
use mathlib.Core.List.{Permᴰ}
use mathlib.Core.List.Permᴰ as Permutation
use bonk.Rpc.Logs.Streamed.{SameRecords, AreSent, handle_log_streaming-stream}

abbrev record_of : ℤ → String → LogRecord
record_of level msg = record {
  time = 7;
  level = level;
  text = msg;
  attrs = ("session", text "s") ∷ ("task", text "t") ∷ [];
  source = text "";
}

abbrev records : List LogRecord
records = record_of (negsuc 3) "debug" ∷ record_of (pos 4) "warn" ∷ []

await_ack-opened_stream_example :
    is_opened (await_ack (opened_stream coder 3 eof client_streaming records none records)) ≡ false
await_ack-opened_stream_example =
    await_ack-opened_stream coder 3 eof client_streaming records records

records-AreSent : All (λ (r : LogRecord). AreSent 3 r.attrs) records
unfolding has_key
records-AreSent = (
  (tt, omega arith, refl, (tt, omega arith, refl, tt)),
  ((tt, omega arith, refl, (tt, omega arith, refl, tt)), tt),
)

-- The first two attributes in the other order.
abbrev swapped : List (String × Value) → List (String × Value)
swapped (a ∷ b ∷ attrs) = b ∷ a ∷ attrs
swapped attrs = attrs

swapped-Permᴰ : (attrs : List (String × Value)) → Permᴰ (swapped attrs) attrs
swapped-Permᴰ [] = Permutation.refl []
swapped-Permᴰ (a ∷ []) = Permutation.refl (a ∷ [])
swapped-Permᴰ (a ∷ b ∷ attrs) = Permᴰ.swap refl refl

abbrev turns : Orders
turns n = swapped

turns-Permᴰ : (n : ℕ) (attrs : List (String × Value)) → Permᴰ (turns n attrs) attrs
turns-Permᴰ n attrs = swapped-Permᴰ attrs

handle_log_streaming-stream_example :
    let out =
      handle_log_streaming coder turns
        (stream coder 3 (message "lost") client_streaming records (failed eof false ∷ [])) in
    SameRecords out.0 (logged (pos 4) "warn" (("session", text "s") ∷ ("task", text "t") ∷ []) ∷ [])
    × (out.1 ≡ true)
handle_log_streaming-stream_example =
    handle_log_streaming-stream coder coder-IsStructpb 3 (message "lost") client_streaming turns
      records turns-Permᴰ records-AreSent

-- A connection whose first message is the acknowledgement, and which cannot close.
abbrev conn : Connection ℕ
conn = record {
  open_session = λ req options w. (ok (received ack ∷ failed eof false ∷ []), w);
  close_session = λ id w. (some eof, w);
  log_error = λ id e w. w + 1;
}

opened_conn : open_session conn new_test_session 0 ≡ (some (none, failed eof false ∷ []), 0)
unfolding open_session
opened_conn = refl

closed_conn : close_session conn 7 0 ≡ 1
unfolding close_session
closed_conn = refl
