-- ===== src/Rpc/Sessions/Stuck.antt =====
-- pkg/executor/rpc/server.go: a call of `CloseSession` that sends where nobody receives.
use bonk.Base.{
  ℕ, ◌≤◌, ◌<◌, Bool, false, none, some, nat_eq, tally, tally_replaced, tally_added, tally_none,
  tally_up, ◌≡◌, refl, sym, arith,
}
use bonk.Executor.{Executor}
use bonk.Errors.{wrap}
use bonk.Rpc.Sessions.{
  OpenCall, requested, opened, acknowledged, receiving, ended, CloseCall, looking, sending, sent,
  executor_closed, answered, unsupported, unopened, Server, Step, open_arrives, close_arrives,
  refuse, open_fails, opens_it, acknowledge, acknowledge_fails, register, not_found, found, meet,
  close_executor, forget, Steps, here, next,
}

module _ (channel : ℕ) where
  abbrev pub receives : OpenCall → Bool
  receives (receiving c) = nat_eq c channel
  receives _ = false

  abbrev pub sends : CloseCall → Bool
  sends (sending id c) = nat_eq c channel
  sends _ = false

  -- The channel was made, and nobody receives from it.
  pub record Deserted {W : Type 0} (s : Server W) : Type 0 where
    pub made : channel < s.next_channel
    pub no_receiver : tally receives s.opens ≡ 0

  -- The senders of the first state are still there in the second.
  abbrev More : {W : Type 0} → Server W → Server W → Type 0
  More s s' = tally sends s.closes ≤ tally sends s'.closes

  module _ {W : Type 0} (exec : Executor W) where
    Step-Deserted : {s s' : Server W} → Deserted s → Step exec s s' → Deserted s'
    Step-Deserted {s} d (open_arrives req e) = rw e (record {
      made = d.made;
      no_receiver = tally_added receives s.opens (requested req) d.no_receiver refl;
    })
    Step-Deserted d (close_arrives id e) =
        rw e (record { made = d.made; no_receiver = d.no_receiver })
    Step-Deserted d (refuse req xs ys o m e) = rw e (record {
      made = d.made;
      no_receiver =
          tally_replaced receives xs ys (requested req) (ended (some unsupported)) d.no_receiver o
            refl;
    })
    Step-Deserted d (open_fails req session x xs ys o m f e) = rw e (record {
      made = d.made;
      no_receiver =
          tally_replaced receives xs ys (requested req) (ended (some x)) d.no_receiver o refl;
    })
    Step-Deserted d (opens_it req session xs ys o m f e) = rw e (record {
      made = d.made;
      no_receiver =
          tally_replaced receives xs ys (requested req) (opened req.session_id session)
            d.no_receiver o refl;
    })
    Step-Deserted d (acknowledge id session xs ys o e) = rw e (record {
      made = d.made;
      no_receiver =
          tally_replaced receives xs ys (opened id session) (acknowledged id session) d.no_receiver
            o refl;
    })
    Step-Deserted d (acknowledge_fails id session x xs ys o e) = rw e (record {
      made = d.made;
      no_receiver =
          tally_replaced receives xs ys (opened id session)
            (ended (some (wrap "failed to send ack" x))) d.no_receiver o refl;
    })
    Step-Deserted {s} d (register id session xs ys o e) =
        let fresh : nat_eq s.next_channel channel ≡ false = ground (arith, d.made) in
        rw e (record {
          made = omega (arith, d.made);
          no_receiver =
              tally_replaced receives xs ys (acknowledged id session) (receiving s.next_channel)
                d.no_receiver o (sym fresh);
        })
    Step-Deserted d (not_found id us vs c m e) =
        rw e (record { made = d.made; no_receiver = d.no_receiver })
    Step-Deserted d (found id r us vs c m e) =
        rw e (record { made = d.made; no_receiver = d.no_receiver })
    Step-Deserted d (meet id ch us vs xs ys c o e) = rw e (record {
      made = d.made;
      no_receiver =
          tally_replaced receives xs ys (receiving ch) (ended none) d.no_receiver o
            (tally_none receives xs ys (receiving ch) d.no_receiver o);
    })
    Step-Deserted d (close_executor id us vs c e) =
        rw e (record { made = d.made; no_receiver = d.no_receiver })
    Step-Deserted d (forget id us vs c e) =
        rw e (record { made = d.made; no_receiver = d.no_receiver })

    Step-More : {s s' : Server W} → Deserted s → Step exec s s' → More s s'
    Step-More d (open_arrives req e) = rw e (omega arith)
    Step-More {s} d (close_arrives id e) =
        rw e (omega (arith, tally_added sends s.closes (looking id) refl refl))
    Step-More d (refuse req xs ys o m e) = rw e (omega arith)
    Step-More d (open_fails req session x xs ys o m f e) = rw e (omega arith)
    Step-More d (opens_it req session xs ys o m f e) = rw e (omega arith)
    Step-More d (acknowledge id session xs ys o e) = rw e (omega arith)
    Step-More d (acknowledge_fails id session x xs ys o e) = rw e (omega arith)
    Step-More d (register id session xs ys o e) = rw e (omega arith)
    Step-More d (not_found id us vs c m e) = rw e (
        omega
          (arith, tally_replaced sends us vs (looking id) (answered (some unopened)) refl c refl))
    Step-More d (found id r us vs c m e) =
        rw e (tally_up sends us vs (looking id) (sending id r.closer) c refl)
    Step-More d (meet id ch us vs xs ys c o e) =
        let other = tally_none receives xs ys (receiving ch) d.no_receiver o in
        rw e (omega (arith, tally_replaced sends us vs (sending id ch) (sent id) refl c other))
    Step-More d (close_executor id us vs c e) =
        rw e (omega (arith, tally_replaced sends us vs (sent id) (executor_closed id) refl c refl))
    Step-More d (forget id us vs c e) =
        rw e (
          omega
            (arith, tally_replaced sends us vs (executor_closed id) (answered none) refl c refl))

    Steps-Deserted : {s s' : Server W} → Deserted s → Steps exec s s' → Deserted s' × More s s'
    Steps-Deserted d here = (d, omega arith)
    Steps-Deserted d (next before step) =
        let (d', more) = Steps-Deserted d before in
        (Step-Deserted d' step, omega (arith, more, Step-More d' step))

    -- Once nobody receives from a channel, the calls of `CloseSession` that send to it never get
    -- past that, in whatever order the server's calls go on: at no later time are there fewer of
    -- them.
    pub sends-Deserted :
        (s s' : Server W)
        → Deserted s
        → Steps exec s s'
        → tally sends s.closes ≤ tally sends s'.closes
    sends-Deserted s s' d steps = (Steps-Deserted d steps).1
