-- ===== src/Lib.antt =====
-- bonk runs tasks. A task names an executor by a dotted name, and its execution gives outputs and
-- followup tasks. The executors of a program form a chain: the driver (pkg/driver) puts a
-- scheduler on top of an observable executor, that on top of a statechecker, and that on top of a
-- router, which hands a task to the executor that the task names, often in a plugin process.
--
-- An executor is a record of three functions on a world `W`, which is all that executors may read
-- and change (Executor; pkg/executor/executor.go). Each component that is one is modelled as such
-- a function or, where goroutines take part, as a relation between states.
-- - Task (pkg/task): Task/Id is `ID` (`NewID`, `GetChild`, `Cut`), Task/Value is `Task` with its
--   options and `Session`, Task/Files the file systems of a session, Task/Result is `Result` with
--   all its methods, Task/Result/Json its JSON form at the level of `resultJson`. Base/Text has the
--   functions of package strings that ids use.
-- - Errors: Go's error values.
-- - Router (pkg/executor/router/router.go): `register_executor` is `RegisterExecutor`,
--   `unregister_executors` is `UnregisterExecutors`, `execute_tree` is `Execute`,
--   `for_each_executor` is `ForEachExecutor`. A Go map is the list of its entries in some order.
--   Registration runs on the fuel `register_bound`, one more than the length of the name and the
--   depth of the tree: each call goes down a level or takes a part off the name. Router/Route
--   describes independently where a name leads. Entries is about the map, Register and
--   Conservative about registration, Invariant about well-formed routers, Dispatch about the
--   calls, Unregister, Listing and Count about the remaining operations.
-- - Scheduler (pkg/executor/scheduler/scheduler.go): the group of goroutines of `Execute` and
--   `ExecuteMany` is a list of routines, and `Step` has one constructor for each visible call.
--   Scheduler/Collect says without goroutines what tasks put out when they are called in safe
--   worlds, such as those in which their session is open; Invariant, CallerSteps and Complete
--   relate the two, Progress is about the length and the end of runs, Bound about the
--   number of goroutines, and Blocked about a limit of one. golang.org/x/sync/errgroup enters by
--   what it documents: whether `Go` finds room is the parameter `Room`, `Wait` waits for all
--   routines and returns the first error.
-- - Statecheck (pkg/executor/statecheck): `Host` stands for the file systems of a session, the JSON
--   coder and the hash functions. Detect has the comparison, Execution the three ways of `Execute`,
--   Saved the way from a saved state to its comparison, Again a second execution of a task.
-- - Observable (pkg/executor/observable): the messages of a session are pending goroutines, and a
--   `Deliver` step runs one. Messages has what `Execute` starts, Delivery what `CloseSession`
--   waits for, Owned the sessions of pending messages. Scheduled makes it an executor, for any
--   `Schedule` of the listeners' goroutines: they run after a call, or while a close waits.
-- - Rpc (pkg/executor/rpc): `convert` is `toProtoValue`, `execute_task` is
--   `grpcServer.ExecuteTask`, and `execute` in Rpc/Exchange is `grpcClient.Execute`, which calls
--   it; a call over gRPC is the answer of the server. `behind_server` is the session that an
--   executor gets there, `grpcServerSession`. The conversion runs on fuel, since
--   mapstructure may make any value of a struct; more than the depth of a value without structs is
--   enough. `Coder` stands for structpb and mapstructure. Convert is about values on both sides,
--   Remote compares a remote execution with the executor behind. Rpc/Sessions has how the server
--   opens and closes sessions: each call is a goroutine, `Step` has what the others see of it, and
--   channels are numbered. Balance, Stuck, Single and Answered are about the goroutines at the
--   channels, and Opening about the sessions that tasks find. Rpc/Logs has the stream of log
--   records: `opened_stream` is what the server sends, `await_ack` the client's wait in
--   `OpenSession`, and `handle_log_streaming` is `handleLogStreaming`. Rpc/Client puts
--   `grpcClient.OpenSession` and `CloseSession` together from these.
-- - Plugin (pkg/executor/plugin): `shutdown` is `Shutdown` of the manager of plugin clients, with
--   the locks that it takes, and Plugin/Shutdown is about its runs. Plugin/Server has `NewPlugin`
--   and `Plugin.Execute` with its log files. Plugin/Starting has `StartPlugins`, with the plugins
--   in the order of their registrations, and Plugin/Routes the names that then lead to them; the
--   start of a plugin is a parameter there, and `new_plugin_client` of Plugin/Client is
--   `NewPluginClient`, over package go-plugin. Router/Plain is about routers as they are made
--   there. Plugin/Serving is what a plugin gives to package go-plugin, the router of `ServeTest`,
--   and where the default handler sends a log record.
-- - Argconv (pkg/executor/argconv/conversions.go): `unbox_args` is `UnboxArgs`, and
--   `box_executor` is `BoxExecutor`. `Reflect` stands for packages reflect, mapstructure and
--   cuego. Argconv/Assertion describes unboxing by type assertion alone.
-- - Driver (pkg/driver): the options, and `Run` in two parts: `build` makes the tree of executors,
--   and the relation `Run` opens the sessions, runs their tasks by the scheduler's steps, and
--   closes the sessions. Driver/Observed and Tracked show that the hypotheses about an executor's
--   sessions and tasks carry over to the observable executor that a run puts on top. Driver/Sessions
--   follows which sessions are open, Driver/Outputs is about what a run puts out, and
--   Driver/Returns about a run that returns. Driver/Routes is about the executors that the tree of
--   a run has. Driver/Listeners runs the driver over the observable executor, with Keeps for what
--   steps keep of the world and Ids for the ids of sessions.
-- - Bubbletea (pkg/observer/bubbletea): the tree of tasks on the screen. `update` is `Update` of
--   the tree; its loop runs on the length of the id and two. Bubbletea/Paths, Top
--   and Update describe the tree by what it shows for a task. Packages orderedmap and
--   lipgloss are `Containers`. Bubbletea/Model has the model of the program, `update_model` is its
--   `Update`, and Bubbletea/Shows is about what is shown after any messages. Bubbletea/Observer
--   has the observer around it, `OnTaskStatusMsg` and `Quit`, and Bubbletea/Nodes the children and
--   the styles that the drawing asks for.
-- - K8s (plugins/k8s): the executors of the plugins. K8s/Resources and Documents are about the
--   resources plugin, K8s/Kustomization and Outputs about kustomize, K8s/Holos, Plans and
--   Rendering about holos, and K8s/Served about holos behind a server of package rpc. Files,
--   encoders, kustomize and CUE are parameters.
-- - Kustomize (plugins/k8s/kustomize/filesystem.go): `IsDir`, `Exists` and `CleanedAbs` of the
--   file system that kustomize gets, over one of package afero; the methods in Kustomize/Calls
--   hand a call on.
-- - Cmd (cmd/bonk/main.go, cmd/holos/main.go, with the plugins' own names from plugins/): the
--   options of the two commands, and `RunBonk` and `RunHolos` as all that `RunE` may come to.
--   Cmd/Names follows the tasks of the commands through the driver, the manager and the router to
--   their plugins, and Cmd/Ends is about how `holos` returns. Base/Paths has `path.Base`. `Shell`
--   stands for the working directory, `path.Join`, the terminal program and package uuid.
--   Cmd/Start has the flags, the calls of package viper and the exit.
-- - Docs (cmd/bonk/docs.go): `trim_file_newlines` is `trimFileNewlines` over a file of bytes with
--   an offset, on a round for each byte and one; Docs/Trim says what becomes of every file.
--   `trim_all` runs the goroutines of the command in the order in which they end, and Docs/Order
--   shows what that order leaves. `code_href` is `CodeHref`.
--
-- Each component has a module Tests with runs on concrete input.
--
-- Not modelled: the drawing of pkg/observer/bubbletea; the parsing of flags, the reading of the
-- configuration file and the rendering of documentation under cmd/; the set-up of loggers and of
-- the servers of package go-plugin, which only calls other libraries. The package at the root names
-- others, api/ and the mocks are generated. Outside Plugin/Shutdown the mutexes of the router and
-- of a result are left out: each operation is one step. Contexts matter only to the executors that
-- are called and to the stream of log records. In Driver itself the observers are a parameter that
-- wraps an executor; Driver/Listeners puts the observable executor there, whose goroutines then run
-- between calls and not within them.
pub mod Base
pub mod Errors
pub mod Task
pub mod Executor
pub mod Router
pub mod Scheduler
pub mod Statecheck
pub mod Observable
pub mod Rpc
pub mod Plugin
pub mod Argconv
pub mod Driver
pub mod Bubbletea
pub mod K8s
pub mod Kustomize
pub mod Cmd
pub mod Docs
