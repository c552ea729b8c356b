-- ===== src/Rpc/Logs/Acknowledged.antt =====
-- pkg/executor/rpc: what the client finds first on the stream.
use bonk.Base.{
  Bool, true, false, not, ◌||◌, List, [], ◌∷◌, Option, none, some, Bool-cases, inl, inr, ◌≡◌, refl,
  ℕ,
}
use bonk.Errors.{Error}
use bonk.Rpc.{Converted, converted, refused, panicked, unfinished, Coder}
use bonk.Rpc.Logs.{
  LogStreaming, LogRecord, Received, message_of, attrs_to_proto, sent_attrs, handle, is_enabled,
  go_on, stream, opened_stream, await_ack,
}

-- The client takes the session for opened.
abbrev pub is_opened : Option (Option Error) → Bool
is_opened none = false
is_opened (some none) = true
is_opened (some (some e)) = false

module _ (coder : Coder) (fuel : ℕ) (lost : Error) (options : LogStreaming) where
  abbrev pub any_enabled : List LogRecord → Bool
  any_enabled [] = false
  any_enabled (r ∷ rs) = is_enabled coder fuel lost options r || any_enabled rs

  not_opened :
      (r : LogRecord) (c : Converted _) (rest : List Received)
      → is_opened (await_ack (go_on coder fuel lost (message_of coder fuel lost r c) rest)) ≡ false
  unfolding await_ack
  not_opened r (converted ps) rest = refl
  not_opened r (refused e) rest = refl
  not_opened r panicked rest = refl
  not_opened r unfinished rest = refl

  -- Let the executor open the session without an error. Then the client takes it for opened exactly
  -- if the executor logged nothing of the level asked for while it opened it.
  pub await_ack-opened_stream :
      (before after : List LogRecord)
      → is_opened (await_ack (opened_stream coder fuel lost options before none after))
        ≡ not (any_enabled before)
  unfolding stream await_ack handle
  await_ack-opened_stream [] after = refl
  await_ack-opened_stream (r ∷ rs) after =
      elim (Bool-cases (is_enabled coder fuel lost options r)) [
        | inl e ↦
            rw e (
              not_opened r (attrs_to_proto coder fuel lost (sent_attrs coder fuel lost options r))
                _)
        | inr e ↦ rw e (await_ack-opened_stream rs after)
      ]
