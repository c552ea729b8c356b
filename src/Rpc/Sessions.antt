-- ===== src/Rpc/Sessions.antt =====
-- pkg/executor/rpc/server.go: how the server opens and closes sessions. Each call of `OpenSession`
-- and of `CloseSession` is a goroutine, and a step is what others see of it: a call of the executor,
-- a message, a change of the map under its mutex, or the meeting of a sender and the receiver at an
-- unbuffered channel. The channels are numbered in the order in which they are made.
pub mod Balance
pub mod Stuck
pub mod Single
pub mod Opening
pub mod Answered
mod Tests
use bonk.Base.{
  ℕ, suc, String, Bool, true, false, List, [], ◌∷◌, ◌++◌, Option, none, some, nat_eq, if◌then◌else◌,
  ◌≡◌,
}
use bonk.Errors.{Error, wrap, status}
use bonk.Task.Value.{
  Workspace, local, in_memory, custom, Session, new_local_session, new_test_session, local_path,
  is_in_memory,
}
use bonk.Executor.{Executor}

-- The oneof `workspace_description` of an `OpenSessionRequest`.
pub data Description : Type 0 where
  undescribed described_test : Description
  described_local : String → Description

pub record OpenRequest : Type 0 where
  pub session_id : ℕ
  pub workspace : Description

-- The request that `grpcClient.OpenSession` sends. The description in memory is
-- set last, so that it stays for a session that is both local and in memory.
unfoldable pub open_request : Session → OpenRequest
unfolding local_path is_in_memory
open_request session = record {
  session_id = session.id;
  workspace =
      if is_in_memory session
      then described_test
      else (elim (local_path session) [ some path ↦ described_local path | none ↦ undescribed ]);
}

-- The session that `grpcServer.OpenSession` makes of a request.
unfoldable pub server_session : OpenRequest → Option Session
unfolding new_local_session new_test_session
server_session req = elim req.workspace [
  | described_local path ↦ some (new_local_session req.session_id path)
  | described_test ↦ some new_test_session
  | undescribed ↦ none
]

-- Where a call of `OpenSession` stands.
pub data OpenCall : Type 0 where
  requested : OpenRequest → OpenCall
  -- the executor has opened the session
  opened : ℕ → Session → OpenCall
  acknowledged : ℕ → Session → OpenCall
  -- at `<-closer`
  receiving : ℕ → OpenCall
  ended : Option Error → OpenCall

-- Where a call of `CloseSession` stands.
pub data CloseCall : Type 0 where
  looking : ℕ → CloseCall
  -- at `session.closer <- struct{}{}`
  sending : ℕ → ℕ → CloseCall
  sent : ℕ → CloseCall
  executor_closed : ℕ → CloseCall
  answered : Option Error → CloseCall

pub record Registered : Type 0 where
  pub session : Session
  pub closer : ℕ

abbrev pub Sessions : Type 0
Sessions = List (ℕ × Registered)

unfoldable pub find_registered : ℕ → Sessions → Option Registered
find_registered id [] = none
find_registered id ((i, r) ∷ rest) = if nat_eq i id then some r else find_registered id rest

unfoldable pub delete_registered : ℕ → Sessions → Sessions
delete_registered id [] = []
delete_registered id ((i, r) ∷ rest) =
    if nat_eq i id then delete_registered id rest else (i, r) ∷ delete_registered id rest

pub record Server (W : Type 0) : Type 0 where
  pub world : W
  pub sessions : Sessions
  pub next_channel : ℕ
  pub opens : List OpenCall
  pub closes : List CloseCall

-- `RegisterGRPCServer`
unfoldable pub new_server : {W : Type 0} → W → Server W
new_server w = record { world = w; sessions = []; next_channel = 0; opens = []; closes = [] }

-- `codes.InvalidArgument`
abbrev invalid_argument : ℕ
invalid_argument = 3

abbrev pub unsupported : Error
unsupported = status invalid_argument "unsupported workspace type"

abbrev pub unopened : Error
unopened = status invalid_argument "unopened session id"

module _ {W : Type 0} (exec : Executor W) where
  pub data Step (s : Server W) : Server W → Type 0 where
    open_arrives :
        (req : OpenRequest) {s' : Server W}
        → s' ≡ record s { opens = s.opens ++ (requested req ∷ []) }
        → Step s s'
    close_arrives :
        (id : ℕ) {s' : Server W}
        → s' ≡ record s { closes = s.closes ++ (looking id ∷ []) }
        → Step s s'
    refuse :
        (req : OpenRequest) (xs ys : List OpenCall) {s' : Server W}
        → s.opens ≡ xs ++ (requested req ∷ ys)
        → server_session req ≡ none
        → s' ≡ record s { opens = xs ++ (ended (some unsupported) ∷ ys) }
        → Step s s'
    open_fails :
        (req : OpenRequest) (session : Session) (e : Error) (xs ys : List OpenCall) {s' : Server W}
        → s.opens ≡ xs ++ (requested req ∷ ys)
        → server_session req ≡ some session
        → (exec.open_session session s.world).0 ≡ some e
        → s' ≡ record s {
          world = (exec.open_session session s.world).1;
          opens = xs ++ (ended (some e) ∷ ys);
        }
        → Step s s'
    opens_it :
        (req : OpenRequest) (session : Session) (xs ys : List OpenCall) {s' : Server W}
        → s.opens ≡ xs ++ (requested req ∷ ys)
        → server_session req ≡ some session
        → (exec.open_session session s.world).0 ≡ none
        → s' ≡ record s {
          world = (exec.open_session session s.world).1;
          opens = xs ++ (opened req.session_id session ∷ ys);
        }
        → Step s s'
    acknowledge :
        (id : ℕ) (session : Session) (xs ys : List OpenCall) {s' : Server W}
        → s.opens ≡ xs ++ (opened id session ∷ ys)
        → s' ≡ record s { opens = xs ++ (acknowledged id session ∷ ys) }
        → Step s s'
    -- `stream.Send` fails
    acknowledge_fails :
        (id : ℕ) (session : Session) (e : Error) (xs ys : List OpenCall) {s' : Server W}
        → s.opens ≡ xs ++ (opened id session ∷ ys)
        → s' ≡ record s { opens = xs ++ (ended (some (wrap "failed to send ack" e)) ∷ ys) }
        → Step s s'
    register :
        (id : ℕ) (session : Session) (xs ys : List OpenCall) {s' : Server W}
        → s.opens ≡ xs ++ (acknowledged id session ∷ ys)
        → s' ≡ record s {
          sessions =
              (id, record { session = session; closer = s.next_channel })
              ∷ delete_registered id s.sessions;
          next_channel = suc s.next_channel;
          opens = xs ++ (receiving s.next_channel ∷ ys);
        }
        → Step s s'
    not_found :
        (id : ℕ) (us vs : List CloseCall) {s' : Server W}
        → s.closes ≡ us ++ (looking id ∷ vs)
        → find_registered id s.sessions ≡ none
        → s' ≡ record s { closes = us ++ (answered (some unopened) ∷ vs) }
        → Step s s'
    found :
        (id : ℕ) (r : Registered) (us vs : List CloseCall) {s' : Server W}
        → s.closes ≡ us ++ (looking id ∷ vs)
        → find_registered id s.sessions ≡ some r
        → s' ≡ record s { closes = us ++ (sending id r.closer ∷ vs) }
        → Step s s'
    meet :
        (id channel : ℕ) (us vs : List CloseCall) (xs ys : List OpenCall) {s' : Server W}
        → s.closes ≡ us ++ (sending id channel ∷ vs)
        → s.opens ≡ xs ++ (receiving channel ∷ ys)
        → s' ≡ record s { closes = us ++ (sent id ∷ vs); opens = xs ++ (ended none ∷ ys) }
        → Step s s'
    close_executor :
        (id : ℕ) (us vs : List CloseCall) {s' : Server W}
        → s.closes ≡ us ++ (sent id ∷ vs)
        → s' ≡ record s {
          world = exec.close_session id s.world;
          closes = us ++ (executor_closed id ∷ vs);
        }
        → Step s s'
    forget :
        (id : ℕ) (us vs : List CloseCall) {s' : Server W}
        → s.closes ≡ us ++ (executor_closed id ∷ vs)
        → s' ≡ record s {
          sessions = delete_registered id s.sessions;
          closes = us ++ (answered none ∷ vs);
        }
        → Step s s'

  pub data Steps (s : Server W) : Server W → Type 0 where
    here : Steps s s
    next : {t u : Server W} → Steps s t → Step t u → Steps s u
