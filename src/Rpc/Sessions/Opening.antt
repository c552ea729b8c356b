-- ===== src/Rpc/Sessions/Opening.antt =====
-- pkg/executor/rpc: the session that a client opens, and the one that the server makes of its
-- request and finds when a task comes.
use bonk.Base.{
  if◌then◌else◌, Bool-cases, inl, inr, ◌⊎◌, ℕ, true, false, List, [], ◌∷◌, ◌++◌, Option, none, some,
  nat_eq, ◌≡◌, refl, sym, ◌∙◌, ap, arith,
}
use bonk.Task.Value.{
  Workspace, local, in_memory, custom, of_server, path_of, holds_memory, Session, new_local_session,
  new_test_session, local_path, is_in_memory,
}
use bonk.Executor.{Executor}
use bonk.Rpc.Exchange.{find_session}
use bonk.Rpc.Sessions.{
  open_request, server_session, OpenCall, acknowledged, CloseCall, executor_closed, Registered,
  Sessions, delete_registered, Server, Step, open_arrives, close_arrives, refuse, open_fails,
  opens_it, acknowledge, acknowledge_fails, register, not_found, found, meet, close_executor,
  forget,
}

-- A session at the server's side: one in memory is always the test session with its own id, also when
-- another server has wrapped it, any other with a path is the local session of that path, and no
-- other is accepted.
abbrev pub at_server : Session → Option Session
at_server session = elim session.workspace [
  | local path ↦ some session
  | in_memory ↦ some (record { id = 0; workspace = in_memory })
  | custom ↦ none
  | of_server w ↦
      if holds_memory w
      then some (record { id = 0; workspace = in_memory })
      else some (record {
        id = session.id;
        workspace = local (elim (path_of w) [ some path ↦ path | none ↦ "" ]);
      })
]

at_server_parts :
    (id : ℕ) (w : Workspace)
    → server_session (open_request (record { id = id; workspace = w }))
      ≡ at_server (record { id = id; workspace = w })
unfolding open_request server_session new_local_session new_test_session local_path is_in_memory
at_server_parts id (local path) = refl
at_server_parts id in_memory = refl
at_server_parts id custom = refl
at_server_parts id (of_server w) = elim (Bool-cases (holds_memory w)) [
  | inl e ↦ rw e refl
  | inr e ↦ rw e refl
]

-- For every session that a client opens, the server makes the session described above of the
-- client's request, or refuses the request where there is none.
server_session-open_request :
    (session : Session) → server_session (open_request session) ≡ at_server session
server_session-open_request session = at_server_parts session.id session.workspace

-- The map as `ExecuteTask` reads it.
unfoldable pub open_sessions : Sessions → List (ℕ × Session)
open_sessions [] = []
open_sessions ((i, r) ∷ rest) = (i, r.session) ∷ open_sessions rest

pub delete_registered-gone :
    (id : ℕ) (rs : Sessions) → find_session id (open_sessions (delete_registered id rs)) ≡ none
unfolding open_sessions find_session delete_registered
delete_registered-gone id [] = refl
delete_registered-gone id ((i, r) ∷ rest) =
    let ih = delete_registered-gone id rest in ground (arith, ih)

find_session-head :
    (id : ℕ) (r : Registered) (rs : Sessions)
    → find_session id (open_sessions ((id, r) ∷ rs)) ≡ some r.session
unfolding open_sessions find_session
find_session-head id r rs = ground arith

delete_registered-ne :
    (id q : ℕ) (rs : Sessions)
    → nat_eq id q ≡ false
    → find_session q (open_sessions (delete_registered id rs)) ≡ find_session q (open_sessions rs)
unfolding open_sessions find_session delete_registered
delete_registered-ne id q [] ne = refl
delete_registered-ne id q ((i, r) ∷ rest) ne =
    let ih = delete_registered-ne id q rest ne in ground (arith, ih)

same_id : (i id : ℕ) → nat_eq i id ≡ true → i ≡ id
same_id i id e = ground arith

find_session-other :
    (i q : ℕ) (r : Registered) (rs : Sessions)
    → nat_eq i q ≡ false
    → find_session q (open_sessions ((i, r) ∷ delete_registered i rs))
      ≡ find_session q (open_sessions rs)
unfolding open_sessions find_session
find_session-other i q r rs ne =
    let rest = delete_registered-ne i q rs ne in ground (arith, rest, ne)

module _ {W : Type 0} where
  -- What a task for a session finds at the server.
  abbrev pub known : ℕ → Server W → Option Session
  known id s = find_session id (open_sessions s.sessions)

  -- Some call stands so.
  abbrev pub OpenStands : OpenCall → Server W → Type 0
  OpenStands a s = (xs : List OpenCall) × (ys : List OpenCall) × (s.opens ≡ xs ++ (a ∷ ys))

  abbrev pub CloseStands : CloseCall → Server W → Type 0
  CloseStands a s = (us : List CloseCall) × (vs : List CloseCall) × (s.closes ≡ us ++ (a ∷ vs))

  abbrev pub Changes : ℕ → Server W → Server W → Type 0
  Changes id s s' =
      (known id s' ≡ known id s)
      ⊎ ((session : Session) × (known id s' ≡ some session)
          × OpenStands (acknowledged id session) s)
      ⊎ ((known id s' ≡ none) × CloseStands (executor_closed id) s)

  module _ (exec : Executor W) where
    -- A step changes what a task for a session finds at the server only where a call of
    -- `OpenSession` for it has been acknowledged, which makes the opened session known, or where a
    -- call of `CloseSession` for it has closed it at the executor, which makes it unknown. In
    -- particular a session is acknowledged to the client before a task can find it.
    pub Step-known : (id : ℕ) (s s' : Server W) → Step exec s s' → Changes id s s'
    Step-known id s s' (register i session xs ys o e) = elim (Bool-cases (nat_eq i id)) [
      | inl same ↦
          let now : i ≡ id = same_id i id same in
          inr (
            inl (
              session,
              rw (ap (known id) e, sym now)
                  (find_session-head i (record { session = session; closer = s.next_channel })
                    (delete_registered i s.sessions)),
              (xs, ys, rw (sym now) o),
            ))
      | inr other ↦ inl (
          ap (known id) e
          ∙ find_session-other i id (record { session = session; closer = s.next_channel })
              s.sessions other)
    ]
    Step-known id s s' (forget i us vs c e) = elim (Bool-cases (nat_eq i id)) [
      | inl same ↦
          let now : i ≡ id = same_id i id same in
          inr (
            inr (
              rw (ap (known id) e, sym now) (delete_registered-gone i s.sessions),
              (us, vs, rw (sym now) c),
            ))
      | inr other ↦ inl (ap (known id) e ∙ delete_registered-ne i id s.sessions other)
    ]
    Step-known id s s' (open_arrives req e) = inl (ap (known id) e)
    Step-known id s s' (close_arrives i e) = inl (ap (known id) e)
    Step-known id s s' (refuse req xs ys o m e) = inl (ap (known id) e)
    Step-known id s s' (open_fails req session x xs ys o m f e) = inl (ap (known id) e)
    Step-known id s s' (opens_it req session xs ys o m f e) = inl (ap (known id) e)
    Step-known id s s' (acknowledge i session xs ys o e) = inl (ap (known id) e)
    Step-known id s s' (acknowledge_fails i session x xs ys o e) = inl (ap (known id) e)
    Step-known id s s' (not_found i us vs c m e) = inl (ap (known id) e)
    Step-known id s s' (found i r us vs c m e) = inl (ap (known id) e)
    Step-known id s s' (meet i ch us vs xs ys c o e) = inl (ap (known id) e)
    Step-known id s s' (close_executor i us vs c e) = inl (ap (known id) e)
