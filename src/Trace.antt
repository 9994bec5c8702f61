-- ===== src/Trace.antt =====
-- benchmark/thread_switch_ebpf: the monitor that writes the log of thread switches on CPU 0, and the
-- scripts that read it.
pub mod Monitor
pub mod Files
pub mod Parse
pub mod Segments
pub mod Merged
pub mod Timeline
