-- ===== src/Rpc/Sessions/Single.antt =====
-- pkg/executor/rpc/server.go: the receivers of the channels, in a run from the start.
use bonk.Base.{
  ℕ, ◌+◌, ◌≤◌, true, List, [], ◌∷◌, ◌++◌, none, some, nat_eq, ltb, tally, tally_at, tally_replaced,
  tally_raised, tally_added, tally_down, ◌≡◌, refl, sym, ◌∙◌, ap, arith, Bool-cases, inl, inr,
}
use bonk.Errors.{wrap}
use bonk.Executor.{Executor}
use bonk.Rpc.Sessions.{
  OpenCall, requested, opened, acknowledged, receiving, ended, CloseCall, sending, sent,
  unsupported, Server, new_server, Step, open_arrives, close_arrives, refuse, open_fails, opens_it,
  acknowledge, acknowledge_fails, register, not_found, found, meet, close_executor, forget, Steps,
  here, next,
}
use bonk.Rpc.Sessions.Stuck.{receives, sends, Deserted, sends-Deserted}

-- So many goroutines receive from the channel: at most one, and none before it is made.
pub record Single (channel next n : ℕ) : Type 0 where
  pub one : n ≤ 1
  pub fresh : next ≤ channel → n ≡ 0

abbrev pub AllSingle : {W : Type 0} → Server W → Type 0
AllSingle s = (channel : ℕ) → Single channel s.next_channel (tally (receives channel) s.opens)

module _ {W : Type 0} (exec : Executor W) where
  -- A call of `OpenSession` that receives from no channel, before and after.
  kept :
      {opens : List OpenCall} {next : ℕ} (xs ys : List OpenCall) (a b : OpenCall)
      → ((channel : ℕ) → Single channel next (tally (receives channel) opens))
      → opens ≡ xs ++ (a ∷ ys)
      → ((channel : ℕ) → receives channel a ≡ receives channel b)
      → (channel : ℕ) → Single channel next (tally (receives channel) (xs ++ (b ∷ ys)))
  kept xs ys a b h o same channel =
      rw (tally_replaced (receives channel) xs ys a b refl o (same channel)) (h channel)

  lowered : {channel next n m : ℕ} → Single channel next n → m ≤ n → Single channel next m
  lowered h less = record {
    one = omega (arith, h.one, less);
    fresh = λ later. let e = h.fresh later in omega (arith, e, less);
  }

  made_now : (n m : ℕ) → nat_eq n m ≡ true → n ≡ m
  made_now n m e = ground arith

  Step-AllSingle : {s s' : Server W} → AllSingle s → Step exec s s' → AllSingle s'
  Step-AllSingle {s} h (open_arrives req e) channel =
      rw e (rw (tally_added (receives channel) s.opens (requested req) refl refl) (h channel))
  Step-AllSingle h (close_arrives id e) channel = rw e (h channel)
  Step-AllSingle h (refuse req xs ys o m e) channel =
      rw e (kept xs ys (requested req) (ended (some unsupported)) h o (λ c. refl) channel)
  Step-AllSingle h (open_fails req session x xs ys o m f e) channel =
      rw e (kept xs ys (requested req) (ended (some x)) h o (λ c. refl) channel)
  Step-AllSingle h (opens_it req session xs ys o m f e) channel =
      rw e (kept xs ys (requested req) (opened req.session_id session) h o (λ c. refl) channel)
  Step-AllSingle h (acknowledge id session xs ys o e) channel =
      rw e (kept xs ys (opened id session) (acknowledged id session) h o (λ c. refl) channel)
  Step-AllSingle h (acknowledge_fails id session x xs ys o e) channel = rw e (
      kept xs ys (opened id session) (ended (some (wrap "failed to send ack" x))) h o (λ c. refl)
        channel)
  Step-AllSingle {s} h (register id session xs ys o e) channel =
      rw e (elim (Bool-cases (nat_eq s.next_channel channel)) [
        | inl new ↦
            let made = made_now s.next_channel channel new in
            let none_yet : tally (receives channel) s.opens ≡ 0 =
              (h channel).fresh (omega (arith, made)) in
            let one_now =
              tally_raised (receives channel) xs ys (acknowledged id session)
                (receiving s.next_channel) none_yet o refl new in
            record {
              one = omega (arith, one_now);
              fresh = λ later. absurd (omega (arith, made, later));
            }
        | inr old ↦
            let same =
              tally_replaced (receives channel) xs ys (acknowledged id session)
                (receiving s.next_channel) refl o (sym old) in
            let before = h channel in
            record {
              one = omega (arith, same, before.one);
              fresh = λ later. same ∙ before.fresh (omega (arith, later));
            }
      ])
  Step-AllSingle h (not_found id us vs c m e) channel = rw e (h channel)
  Step-AllSingle h (found id r us vs c m e) channel = rw e (h channel)
  Step-AllSingle h (meet id ch us vs xs ys c o e) channel = rw e (
      lowered (h channel)
        (omega (arith, tally_down (receives channel) xs ys (receiving ch) (ended none) o refl)))
  Step-AllSingle h (close_executor id us vs c e) channel = rw e (h channel)
  Step-AllSingle h (forget id us vs c e) channel = rw e (h channel)

  Steps-AllSingle : {s s' : Server W} → AllSingle s → Steps exec s s' → AllSingle s'
  Steps-AllSingle h here = h
  Steps-AllSingle h (next before step) = Step-AllSingle (Steps-AllSingle h before) step

  -- A close that meets its stream leaves the channel without a receiver.
  meet-Deserted :
      (channel : ℕ) (xs ys : List OpenCall) (s s' : Server W)
      → AllSingle s
      → s.opens ≡ xs ++ (receiving channel ∷ ys)
      → s'.opens ≡ xs ++ (ended none ∷ ys)
      → s'.next_channel ≡ s.next_channel
      → Deserted channel s'
  meet-Deserted channel xs ys s s' h o o' n =
      let less = tally_down (receives channel) xs ys (receiving channel) (ended none) o refl in
      let self : tally (receives channel) (receiving channel ∷ []) ≡ 1 = ground arith in
      let single = h channel in
      record {
        made = rw n (elim (Bool-cases (ltb channel s.next_channel)) [
          | inl made ↦ ground (arith, made)
          | inr late ↦
              let later : s.next_channel ≤ channel = ground (arith, late) in
              let none_yet = single.fresh later in absurd (omega (arith, less, self, none_yet))
        ]);
        no_receiver = rw o' (omega (arith, less, self, single.one));
      }

  -- In a run from the start, let a call of `CloseSession` meet the stream that receives from its
  -- channel. Whatever the server does after that, all other calls that were sending to the channel
  -- at that time are still there: of two closes of one session at most one is answered.
  pub meet-sends :
      (id channel : ℕ) (us vs : List CloseCall) (xs ys : List OpenCall) (w : W)
      (s s' s'' : Server W)
      → Steps exec (new_server w) s
      → s.closes ≡ us ++ (sending id channel ∷ vs)
      → s.opens ≡ xs ++ (receiving channel ∷ ys)
      → s' ≡ record s { closes = us ++ (sent id ∷ vs); opens = xs ++ (ended none ∷ ys) }
      → Steps exec s' s''
      → tally (sends channel) us + tally (sends channel) vs ≤ tally (sends channel) s''.closes
  unfolding new_server
  meet-sends id channel us vs xs ys w s s' s'' before c o e after =
      let single = Steps-AllSingle (λ ch. record { one = omega arith; fresh = λ l. refl }) before in
      let deserted =
        meet-Deserted channel xs ys s s' single o (ap (λ (t : Server W). t.opens) e)
          (ap (λ (t : Server W). t.next_channel) e) in
      let kept_all = sends-Deserted channel exec s' s'' deserted after in
      let split = tally_at (sends channel) us vs (sent id) in
      let closes : s'.closes ≡ us ++ (sent id ∷ vs) = ap (λ (t : Server W). t.closes) e in
      let kept' = rw closes at kept_all in omega (arith, split, kept')
