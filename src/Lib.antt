-- ===== src/Lib.antt =====
-- pmu_Roboflex: the Python client and the daemon that it talks to, the contexts and ticks of the C
-- library, and the scripts that drive and measure them.
--
-- The parts and how they interact. The client (src/python/robflex_api.py) writes each command as a
-- JSON object and sends it as one datagram to the socket of the daemon (src/server.c), which takes one
-- datagram after the other and changes the scheduling of a thread or the event bits in a shared memory
-- (inc/robflex_def.h). The C library (src/robflex_api.c, src/dym_hook.c) reads these bits at each tick of
-- a performance counter, chooses a context of the thread by them, and throttles the thread as the
-- context's policy says. The event change shell
-- (benchmark/robflex_event_change/robflex_event_change.py) turns typed lines into calls of a copy of
-- this client. The HPF benchmark (benchmark/xsched_hpf_shmm/run_bench.py) starts GPU processes, waits
-- for them, reads their CSV files and reports statistics. The binding (src/python/pmu_tick_api.py)
-- calls the scheduling library directly, without the daemon. The thread switch monitor
-- (benchmark/thread_switch_ebpf/monitor_task.py) writes a log of thread switches, which plot.py and
-- plot_compare.py beside it read.
--
-- Files:
-- - Prelude and its children: shared names, texts as lists of code points, Python's integers, `int`
--   and `str`, `split`, `strip` and `lower`, UTF-8.
-- - Json: `json.dumps` on objects of texts and integers. Json/Read is a reader written from RFC 8259,
--   Json/RoundTrip and Json/Ascii the lemmas on it.
-- - Client: `_get_socket`, `_send_command_to_daemon` and `robflex_cleanup`. The state `Client` is the
--   thread-local socket with the history of what was opened, closed, sent and warned of; `Net` is what
--   the kernel answers to the n-th call, an exception being `none`. Client/Api has the public functions
--   (robflex_set_scheduler, robflex_set_priority, robflex_log_message, robflex_update_ctrl_time_cost,
--   robflex_apply_event, robflex_cancel_event), Client/Delivery the behaviour of a send, and
--   Client/Session sequences of calls.
-- - Events: the names of inc/robflex_event.h with `robflex_get_event_idx`, `set_event_bit`,
--   `unset_event_bit` and `test_event_bit` of inc/robflex_def.h, and `robflex_test_event` of
--   src/robflex_api.c. Events/Bits and Events/Names have the proofs.
-- - Daemon: `handle_client_request`, `cmd_dispatcher` and the handlers of src/server.c. The state is the
--   shared memory with the calls made to the kernel and the printed log; a read through NULL is `none`.
--   cJSON's parser and the kernel are parameters. Daemon/Protocol says which objects the daemon reads and
--   what the documentation of cJSON promises; Errors, Fatal, Served, Reached, Sessions (together with
--   Client/Session), Queue (a step relation of clients, queue and daemon) have the proofs. Daemon/Waker is
--   `idle_waker_thread`.
-- - CClient: `send_command_to_daemon` of src/robflex_api.c and the commands that use it, for one thread.
--   CClient/Sockets has the proof.
-- - Contexts: the table of contexts of inc/robflex_def.h (`robflex_event_table_init`, `_find_entry`,
--   `_upsert`, `_erase`, `_get_ctx`), generic in the context. Contexts/Types has the context,
--   Contexts/Attach the functions of src/robflex_api.c on it, Contexts/Attach/Replay the map they implement.
-- - Hook: `handle_tick`, the handlers of the policies and `instruction_interrupt_handler` of
--   src/dym_hook.c. Hook/Highest, Hook/Budgets and Hook/Ticks have the proofs, and Hook/Session one from
--   the client to a tick. Hook/Sections has the critical sections of src/robflex_api.c
--   (robflex_set_cycles_for_tick, robflex_clear_time_budget,
--   robflex_set_time_for_throttle, robflex_set_as_latency_flick, robflex_add_runcycle,
--   robflex_switch_context, robflex_chained_from_latency), and Hook/Sections/Chain robflex_shot_on_latency;
--   the signals that arrive in a section come in front of its body or behind it.
-- - EventChange: `_parse_int`, `_handle_line` and `main` of the shell; each print is a constructor.
--   EventChange/Lines and EventChange/Loop have the proofs.
-- - Float: what the scripts use of floats, as an interface whose laws are those of the order without
--   NaN. Float/Sorting is `sorted`.
-- - HpfBench: Env (`get_xsched_env`), Launch (the processes of `run_bench`, with the exceptions of mkstemp
--   and Popen; Launch/Shape has the proof), Wait (its waiting loop and signals), Results (its reading of
--   the CSV files), Stats (`stats`), Run (`run_bench` and `main` made of these).
-- - Trace: Monitor (the eBPF handlers and the printed lines), Monitor/Tasks (the tasks of `main`), Files
--   (`readlines`), Parse (`parse_log_line` and `load_logs` of plot_compare.py), Parse/Plot (those of
--   plot.py), Parse/Logs and Parse/LogFile (a whole log), Segments (`build_segments`), Merged
--   (`draw_timeline_merged`), Timeline (`draw_timeline` of plot.py).
-- - Binding: src/python/pmu_tick_api.py. Binding/Loading has `_load_lib`, Binding/Prototypes and
--   Binding/Types the declarations of `ffi.cdef`, and Binding/Expected what each function is to call, with
--   the proof in Binding/Made; the library and CFFI are parameters.
-- - CpuBench: benchmark/cpu-benchmark/cpu-benchmark.py, the shares of the workers.
-- - Examples: the theorems at concrete inputs.
--
-- Bounds and fuel. Integers are Python's, without bound. In C a `uint64_t` wraps at 2^64, written out
-- by Prelude/Word64 with the conversions to and from `long long`; sums of `long long` are not cut,
-- since their overflow is undefined. The words of the event bits are lists of 16 numbers with the
-- operations of Prelude/Bits. The loop that closes a critical section runs on fuel, and two rounds are
-- enough if no signal comes after the store of 0. The waiting loop of `run_bench` runs on fuel; enough
-- of it is the number of the round at which the clock passes the limit, and one more. Everything else
-- is structural recursion. `int(n * 0.99)` is 99 n / 100, which is exact below 2^46 samples.
--
-- Not modelled. `%` and `str.format` are parameters that give a text, a TypeError or another exception.
-- `lower` is exact on what the scripts look for. An interrupt of the shell is one between two lines.
-- Files are read as decoded text, and errors of decoding them are left out. A picture is its
-- rectangles, ticks and arrows. Of the daemon, the setup of the socket and the shared memory, the load
-- monitor, the xserver process and the arguments are left out, and the messages on its standard error.
-- Of the C library, the table in the build with khash, the configuration file, and the setup of
-- counters and signals are left out; the clock, the busy degree and the averages in floats are
-- parameters of a tick. The saved copy of `robflex_switch_context` is left out, and the signals in the
-- loop that closes a section and in the statements behind it. The copies of other projects (cpuinfo.py,
-- khash.h) and the workloads are left out.
mod Prelude
pub mod Json
pub mod Client
pub mod Events
pub mod Hook
pub mod Contexts
pub mod Daemon
pub mod EventChange
pub mod Float
pub mod HpfBench
pub mod Trace
pub mod Binding
pub mod CpuBench
mod Examples
pub mod CClient
