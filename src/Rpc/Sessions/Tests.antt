-- ===== src/Rpc/Sessions/Tests.antt =====
-- One session, opened by a client and closed by two calls.
use bonk.Base.{◌≡◌, ◌≤◌, ◌+◌, ℕ, List, [], ◌∷◌, none, tally, refl}
use bonk.Task.Value.{new_test_session}
use bonk.Executor.{Executor}
use bonk.Rpc.Sessions.{
  answered, OpenRequest, described_test, server_session, OpenCall, requested, opened, acknowledged,
  receiving, ended, CloseCall, looking, sending, sent, Registered, Server, new_server, Step,
  open_arrives, close_arrives, opens_it, acknowledge, register, found, meet, Steps, here, next,
  find_registered, delete_registered,
}
use bonk.Rpc.Sessions.Balance.{Balanced, new_server-Balanced}
use bonk.Rpc.Sessions.Stuck.{sends}
use bonk.Rpc.Sessions.Single.{meet-sends}
use bonk.Rpc.Sessions.Answered.{close-Steps}
use bonk.Rpc.Sessions.Opening.{known, Changes, Step-known}

abbrev counts : Executor ℕ
counts = record {
  execute = λ session tsk result w. record { err = none; tsk = tsk; result = result; world = w };
  open_session = λ session w. (none, w + 1);
  close_session = λ id w. w + 1;
}

abbrev a_request : OpenRequest
a_request = record { session_id = 0; workspace = described_test }

abbrev an_entry : Registered
an_entry = record { session = new_test_session; closer = 0 }

-- While the stream stands so.
abbrev before : ℕ → List OpenCall → Server ℕ
before w opens = record { world = w; sessions = []; next_channel = 0; opens = opens; closes = [] }

-- After the session is registered, the calls stand so.
abbrev after : List OpenCall → List CloseCall → Server ℕ
after opens closes = record {
  world = 1;
  sessions = (0, an_entry) ∷ [];
  next_channel = 1;
  opens = opens;
  closes = closes;
}

register_it :
    Step counts (before 1 (acknowledged 0 new_test_session ∷ [])) (after (receiving 0 ∷ []) [])
unfolding delete_registered
register_it = register 0 new_test_session [] [] refl refl

opens_up : Steps counts (new_server 0) (before 1 (acknowledged 0 new_test_session ∷ []))
unfolding new_server server_session new_test_session
opens_up =
    let s1 : Step counts (before 0 []) (before 0 (requested a_request ∷ [])) =
      open_arrives a_request refl in
    let s2 : Step counts (before 0 (requested a_request ∷ []))
        (before 1 (opened 0 new_test_session ∷ [])) =
      opens_it a_request new_test_session [] [] refl refl refl refl in
    let s3 : Step counts (before 1 (opened 0 new_test_session ∷ []))
        (before 1 (acknowledged 0 new_test_session ∷ [])) =
      acknowledge 0 new_test_session [] [] refl refl in
    next (next (next here s1) s2) s3

two_closes : Steps counts (new_server 0) (after (receiving 0 ∷ []) (sending 0 0 ∷ sending 0 0 ∷ []))
unfolding find_registered new_test_session
two_closes =
    let open_ = next opens_up register_it in
    let c1 : Step counts (after (receiving 0 ∷ []) []) (after (receiving 0 ∷ []) (looking 0 ∷ [])) =
      close_arrives 0 refl in
    let c2 : Step counts (after (receiving 0 ∷ []) (looking 0 ∷ []))
        (after (receiving 0 ∷ []) (looking 0 ∷ looking 0 ∷ [])) =
      close_arrives 0 refl in
    let f1 : Step counts (after (receiving 0 ∷ []) (looking 0 ∷ looking 0 ∷ []))
        (after (receiving 0 ∷ []) (sending 0 0 ∷ looking 0 ∷ [])) =
      found 0 an_entry [] (looking 0 ∷ []) refl refl refl in
    let f2 : Step counts (after (receiving 0 ∷ []) (sending 0 0 ∷ looking 0 ∷ []))
        (after (receiving 0 ∷ []) (sending 0 0 ∷ sending 0 0 ∷ [])) =
      found 0 an_entry (sending 0 0 ∷ []) [] refl refl refl in
    next (next (next (next open_ c1) c2) f1) f2

abbrev one_met : Server ℕ
one_met = after (ended none ∷ []) (sent 0 ∷ sending 0 0 ∷ [])

meet_it : Step counts (after (receiving 0 ∷ []) (sending 0 0 ∷ sending 0 0 ∷ [])) one_met
meet_it = meet 0 0 [] (sending 0 0 ∷ []) [] [] refl refl refl

new_server-Balanced_example : Balanced one_met
new_server-Balanced_example = new_server-Balanced counts 0 one_met (next two_closes meet_it)

meet-sends_example :
    tally (sends 0) [] + tally (sends 0) (sending 0 0 ∷ []) ≤ tally (sends 0) one_met.closes
meet-sends_example =
    meet-sends counts 0 0 [] (sending 0 0 ∷ []) [] [] 0
      (after (receiving 0 ∷ []) (sending 0 0 ∷ sending 0 0 ∷ [])) one_met one_met two_closes refl
      refl refl here

Step-known_example :
    Changes 0 (before 1 (acknowledged 0 new_test_session ∷ [])) (after (receiving 0 ∷ []) [])
Step-known_example =
    Step-known counts 0 (before 1 (acknowledged 0 new_test_session ∷ []))
      (after (receiving 0 ∷ []) []) register_it

close-Steps_example :
    (s' : Server ℕ) × Steps counts (after (receiving 0 ∷ []) (sending 0 0 ∷ sending 0 0 ∷ [])) s'
    × (s'.closes ≡ answered none ∷ sending 0 0 ∷ [])
    × (s'.opens ≡ ended none ∷ [])
    × (s'.world ≡ 2)
    × (known 0 s' ≡ none)
close-Steps_example =
    close-Steps counts 0 0 [] (sending 0 0 ∷ []) [] []
      (after (receiving 0 ∷ []) (sending 0 0 ∷ sending 0 0 ∷ [])) refl refl
