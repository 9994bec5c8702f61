-- ===== src/Examples.antt =====
-- The theorems at concrete inputs, by the part of the program.
mod Messages
mod Shell
mod Numbers
mod Bench
mod Trace
mod Library
mod Daemon
mod Contexts
mod Hook
mod Waker
mod CClient
