-- ===== src/Plugin.antt =====
-- pkg/executor/plugin: the manager of plugin clients (client_manager.go), which embeds a router, and
-- the server side of a plugin (server.go, log_streaming.go). `none` stands for a lock
-- that is not to be had.
pub mod Starting
pub mod Routes
pub mod Client
pub mod Shutdown
pub mod Server
pub mod Serving
mod Tests
use bonk.Base.{◌-◌, ℕ, zero, suc, String, Bool, true, false, List, [], ◌∷◌, Option, none, some}
use bonk.Router.{Children, for_each_executor, unregister_executors}

-- The state of a `sync.RWMutex`.
pub record Lock : Type 0 where
  pub readers : ℕ
  pub writing : Bool

abbrev pub free : Lock
free = record { readers = 0; writing = false }

abbrev pub read_lock : Lock → Option Lock
read_lock l = elim l.writing [ true ↦ none | false ↦ some (record l { readers = suc l.readers }) ]

abbrev pub read_unlock : Lock → Lock
read_unlock l = record l { readers = l.readers - 1 }

abbrev pub write_lock : Lock → Option Lock
write_lock l = elim l.writing [
  | true ↦ none
  | false ↦ elim l.readers [ zero ↦ some (record l { writing = true }) | suc n ↦ none ]
]

abbrev pub write_unlock : Lock → Lock
write_unlock l = record l { writing = false }

-- `pluginClientManager`, with the mutex of its router and its own.
pub record Manager (E : Type 0) : Type 0 where
  pub children : Children E
  pub router_lock : Lock
  pub mutex : Lock

-- A call of `Shutdown`: where it stands, or the world in which it waits for a lock that its own
-- goroutine holds.
pub data Shutting (E W : Type 0) : Type 0 where
  going : Manager E → W → Shutting E W
  waiting : W → Shutting E W

module _ {E W : Type 0} (kill : E → W → W) where
  -- `UnregisterExecutors` of the router, which takes its lock.
  abbrev pub unregister_locked : List String → Manager E → Option (Manager E)
  unregister_locked names m = elim (write_lock m.router_lock) [
    | none ↦ none
    | some l ↦ some (record m {
      children = unregister_executors m.children names;
      router_lock = write_unlock l;
    })
  ]

  -- The callback of `Shutdown`. `kill` does nothing with an executor that is no plugin client.
  abbrev pub shut_executor : String → E → Shutting E W → Shutting E W
  shut_executor name exec (waiting w) = waiting w
  shut_executor name exec (going m w) = elim (unregister_locked (name ∷ []) m) [
    | none ↦ waiting w
    | some m' ↦ going m' (kill exec w)
  ]

  abbrev pub unlock_all : Shutting E W → Shutting E W
  unlock_all (waiting w) = waiting w
  unlock_all (going m w) =
      going (record m { router_lock = read_unlock m.router_lock; mutex = write_unlock m.mutex }) w

  unfoldable pub shutdown : Manager E → W → Shutting E W
  unfolding for_each_executor unregister_executors
  shutdown m w = elim (write_lock m.mutex) [
    | none ↦ waiting w
    | some mu ↦ elim (read_lock m.router_lock) [
      | none ↦ waiting w
      | some l ↦ unlock_all (
          for_each_executor shut_executor m.children
            (going (record m { router_lock = l; mutex = mu }) w))
    ]
  ]
