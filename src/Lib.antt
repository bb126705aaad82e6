-- ===== src/Lib.antt =====
-- runm runs OCI containers inside a small virtual machine, behind the interface of a containerd
-- shim. This library models the shim's own logic and what makes it correct.
--
-- Parts, and the files that model them (paths from the repository's root):
--
-- - Base: what the parts share. Base/Go is the shape of a Go method: a function of a state that
--   returns, returns an error or panics, with `ignore`, `recover`, `finally` and `defer_call` for
--   dropped errors, recover() and defer, Base/Runs what a method that returns has
--   gone through, and Base/After what holds after one, on each way out. Base/Errors are error values with their chains of `%w`,
--   Base/Text the searches in their texts.
-- - Process: cmd/containerd-shim-runm-v2/process. Process/Host is the record of all that the
--   processes call and do not implement (the OCI runtime, consoles, files, signals, the clock), over
--   any state `W` of the world; the theorems hold for every host. Process/Io is createIO of io.go.
--   Process/Init is init.go, with Process/Init/Create for Create and Process/Init/States for the six
--   state objects of init_state.go and deleted_state.go; each is a record of methods, as
--   the interface initState, and `start_init` and so on are the public methods, which hold the mutex.
--   Process/Exec is exec.go and exec_state.go in the same way. Process/Kill is checkKillError.
--
-- - Service: cmd/containerd-shim-runm-v2/task/service.go. Service/Maps are the maps by pid and
--   container, Service/Lifecycle the record of the service (in Lifecycle/Record) and the functions
--   (in Lifecycle/Exits and Lifecycle/Starts) by which a started process meets its exit: `pre_start`,
--   `handle_started` (in two parts, `claim` under the lock),
--   `process_exit` (one turn of processExits, `collect` under the lock), `handle_init_exit` with its
--   goroutine `wake`, `handle_process_exit`, and Start cut where it lets go of the lock
--   (`begin_start`, `fail_start`, `end_start`). Containers and processes are an interface there,
--   the record Processes, as process.Process is in the source. Service/Order is a step relation over
--   these locked sections for one container, with the phase of its init exit and the numbers of execs
--   that are between two sections: Starts of execs and of the init process, with or without a pid and
--   failed ones, and reports of any processes. `IsRegular` names the steps in which the source loses
--   count of the execs, or hands an init exit to a Start, which publishes it with no regard to execs;
--   Service/Order/Last and Service/Order/Drain are about runs of the other steps.
--   Service/Api has the map of containers and the methods of the API (Api/Handlers: Create, Start,
--   Delete, Exec; Api/Calls: the others, and `serve`, a request of any kind), over an interface of
--   containers; a request runs there from its start to its answer, with no exit in between.
-- - Container: cmd/containerd-shim-runm-v2/runm/container.go, its processes and reserved ids (the
--   methods that only hand on to a process are in Container/Passes), and the
--   use that Exec of the service makes of them (`reserve_and_exec`); the container's processes are
--   the record Calls. Container/Create is NewContainer, over the files of Shim/Files and the init
--   process of Process. Container/Race is a step relation over its locked sections, and
--   Container/Starts puts an exec process of Process behind Calls.
-- - Runc: core/runc. Runc/State is state/state.go, what the server in the guest has open;
--   Runc/Options the options of go-runc and the messages of proto/v1, Runc/Convert is
--   conversion/conversion.go between the two, and Runc/Server the calls of
--   server/socket.go on that state; Runc/Server/Runs is about sequences of them. Runc/Guest is
--   server/runc.go, the calls of the OCI runtime as the guest's server takes them, and Runc/Host
--   runtime/grpc/runtime.go, the same calls as the shim sends them; the connection between the two
--   is the record Link and the guest's own runtime the record Guest. Runc/Host/Streams has the
--   sockets, streams and consoles that both sides allocate together, one after the other, and
--   Runc/Host/Meeting is a step relation for ListenAndAcceptSingleNetConn of pkg/conn/proxy.go, in
--   which they run at once.
-- - Shim: cmd/containerd-shim-runm-v2/manager/manager.go, Start and Stop (Shim/Manager and
--   Shim/Files, with the files of a bundle from runm/container.go), over the record Os of what they
--   call; Shim/Descriptors says which of those calls open and close descriptors.
-- - Psnotify: cmd/runm-linux-init/psnotify.go, the tree of processes from the events of a watcher,
--   which is a parameter with /proc; the loop over parents in LogValue runs on fuel, and the number of
--   processes seen is enough.
-- - Reaper: core/runc/runtime/gorunc/reaper/reaper_unix.go. Reaper/Notify is a step relation of one
--   notify with subscribers that come, go and receive; Reaper/Reap is the loop over wait4.
-- - Vsock: core/virt/vmm/vsock_manager.go, the retries of Dial.
-- - TaskGroup: pkg/taskgroup. TaskGroup/Group has the record of a group and the parts of its methods
--   that hold `mu` or are atomic; TaskGroup/Run is a step relation over them, for Go, TryGo, the
--   goroutines, one Wait and one Close; TaskGroup/Cleanup is the list of clean-up functions, and
--   TaskGroup/Goroutines the reading of headers in stack texts (with numbers by Base/Decimal).
-- - Ticker: pkg/ticker/ticker.go, a step relation of the timer, the goroutine and Stop.
--
-- A state object that points to its process is a tag in the process's record. The channel
-- `waitBlock` is a flag, and closing it twice is a panic. A method that holds the mutex from end to
-- end is one step. Printing a number has its value as
-- fuel. The loops of reap and Dial, which end by what they call, run on fuel too: one turn more than
-- there are exited children, and MaxRetries turns, are enough. Every other function is structural.
--
-- Not modelled: logging, tracing and timeouts of contexts; the goroutines that copy streams, the
-- proxies of unix sockets, and the logger process of a binary URI (pure I/O); the start of the task
-- service; labels and status texts of task groups; the guest's own runtime, which calls the runc
-- binary, with its event and cgroup services; the virtual machine, the mounter, and what the guest's
-- init does besides its tree of processes, which are system calls and bindings in order.
pub mod Base
pub mod Process
pub mod Psnotify
pub mod Service
pub mod Container
pub mod Reaper
pub mod Runc
pub mod Shim
pub mod TaskGroup
pub mod Ticker
pub mod Vsock
