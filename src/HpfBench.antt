-- ===== src/HpfBench.antt =====
-- benchmark/xsched_hpf_shmm/run_bench.py: one high-priority and many low-priority CUDA processes, and the
-- latencies that they report.
pub mod Env
pub mod Results
pub mod Stats
pub mod Wait
pub mod Launch
pub mod Run
