-- ===== src/Rpc/Sessions/Answered.antt =====
-- pkg/executor/rpc/server.go: a call of CloseSession that comes to its answer.
use bonk.Base.{ℕ, List, ◌∷◌, ◌++◌, none, ◌≡◌, refl}
use bonk.Executor.{Executor}
use bonk.Rpc.Sessions.{
  OpenCall, receiving, ended, CloseCall, sending, sent, executor_closed, answered,
  delete_registered, Server, meet, close_executor, forget, Steps, here, next,
}
use bonk.Rpc.Sessions.Opening.{known, delete_registered-gone}

module _ {W : Type 0} (exec : Executor W) where
  -- A call of `CloseSession` that is at its send while a stream receives from the channel can go on
  -- to an answer without an error, with nothing from other calls. Then the stream has ended, the
  -- executor's session has been closed, no task finds the session, and all other calls stand as they
  -- stood.
  pub close-Steps :
      (id channel : ℕ) (us vs : List CloseCall) (xs ys : List OpenCall) (s : Server W)
      → s.closes ≡ us ++ (sending id channel ∷ vs)
      → s.opens ≡ xs ++ (receiving channel ∷ ys)
      → (s' : Server W) × Steps exec s s'
        × (s'.closes ≡ us ++ (answered none ∷ vs))
        × (s'.opens ≡ xs ++ (ended none ∷ ys))
        × (s'.world ≡ exec.close_session id s.world)
        × (known id s' ≡ none)
  close-Steps id channel us vs xs ys s c o =
      let met : Server W = record s {
        closes = us ++ (sent id ∷ vs);
        opens = xs ++ (ended none ∷ ys);
      } in
      let closed : Server W = record met {
        world = exec.close_session id s.world;
        closes = us ++ (executor_closed id ∷ vs);
      } in
      let forgotten : Server W = record closed {
        sessions = delete_registered id s.sessions;
        closes = us ++ (answered none ∷ vs);
      } in
      (
        forgotten,
        next {t = closed}
            (next {t = met} (next here (meet id channel us vs xs ys c o refl))
              (close_executor id us vs refl refl))
            (forget id us vs refl refl),
        refl,
        refl,
        refl,
        delete_registered-gone id s.sessions,
      )
