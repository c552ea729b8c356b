-- ===== src/Rpc/Sessions/Balance.antt =====
-- pkg/executor/rpc/server.go: streams that end and calls of `CloseSession` that go through.
use bonk.Base.{
  Bool, true, false, none, some, tally, tally_replaced, tally_raised, tally_added, ◌≡◌, refl, sym,
  ◌∙◌,
}
use bonk.Executor.{Executor}
use bonk.Errors.{wrap}
use bonk.Rpc.Sessions.{
  OpenCall, requested, opened, acknowledged, receiving, ended, CloseCall, looking, sending, sent,
  executor_closed, answered, unsupported, unopened, Server, new_server, Step, open_arrives,
  close_arrives, refuse, open_fails, opens_it, acknowledge, acknowledge_fails, register, not_found,
  found, meet, close_executor, forget, Steps, here, next,
}

-- A stream that was ended by a close, not by an error.
abbrev pub ended_well : OpenCall → Bool
ended_well (ended none) = true
ended_well _ = false

-- A call of `CloseSession` past its send.
abbrev pub past_send : CloseCall → Bool
past_send (sent id) = true
past_send (executor_closed id) = true
past_send (answered none) = true
past_send _ = false

abbrev pub Balanced : {W : Type 0} → Server W → Type 0
Balanced s = tally ended_well s.opens ≡ tally past_send s.closes

module _ {W : Type 0} (exec : Executor W) where
  Step-Balanced : {s s' : Server W} → Balanced s → Step exec s s' → Balanced s'
  Step-Balanced {s} h (open_arrives req e) =
      rw e (tally_added ended_well s.opens (requested req) h refl)
  Step-Balanced {s} h (close_arrives id e) =
      rw e (sym (tally_added past_send s.closes (looking id) (sym h) refl))
  Step-Balanced h (refuse req xs ys o m e) =
      rw e (tally_replaced ended_well xs ys (requested req) (ended (some unsupported)) h o refl)
  Step-Balanced h (open_fails req session x xs ys o m f e) =
      rw e (tally_replaced ended_well xs ys (requested req) (ended (some x)) h o refl)
  Step-Balanced h (opens_it req session xs ys o m f e) =
      rw e
        (tally_replaced ended_well xs ys (requested req) (opened req.session_id session) h o refl)
  Step-Balanced h (acknowledge id session xs ys o e) =
      rw e (tally_replaced ended_well xs ys (opened id session) (acknowledged id session) h o refl)
  Step-Balanced h (acknowledge_fails id session x xs ys o e) = rw e (
      tally_replaced ended_well xs ys (opened id session)
        (ended (some (wrap "failed to send ack" x))) h o refl)
  Step-Balanced {s} h (register id session xs ys o e) = rw e (
      tally_replaced ended_well xs ys (acknowledged id session) (receiving s.next_channel) h o refl)
  Step-Balanced h (not_found id us vs c m e) =
      rw e (
        sym (tally_replaced past_send us vs (looking id) (answered (some unopened)) (sym h) c refl))
  Step-Balanced h (found id r us vs c m e) =
      rw e (sym (tally_replaced past_send us vs (looking id) (sending id r.closer) (sym h) c refl))
  Step-Balanced {s} h (meet id channel us vs xs ys c o e) = rw e (
      tally_raised ended_well xs ys (receiving channel) (ended none) h o refl refl
      ∙ sym (tally_raised past_send us vs (sending id channel) (sent id) refl c refl refl))
  Step-Balanced h (close_executor id us vs c e) =
      rw e (sym (tally_replaced past_send us vs (sent id) (executor_closed id) (sym h) c refl))
  Step-Balanced h (forget id us vs c e) =
      rw e
        (sym (tally_replaced past_send us vs (executor_closed id) (answered none) (sym h) c refl))

  Steps-Balanced : {s s' : Server W} → Balanced s → Steps exec s s' → Balanced s'
  Steps-Balanced h here = h
  Steps-Balanced h (next before step) = Step-Balanced (Steps-Balanced h before) step

  -- In every run of a server, however its calls interleave, as many streams have been ended by a
  -- close as calls of `CloseSession` have passed their send: a close ends one stream, and an answer
  -- without an error stands for one that was ended.
  pub new_server-Balanced : (w : W) (s : Server W) → Steps exec (new_server w) s → Balanced s
  unfolding new_server
  new_server-Balanced w s steps = Steps-Balanced refl steps
