-- ===== src/Bpf.antt =====
-- The user-space side of the BPF programs: src/bpf/. libbpf is a parameter: what its calls answer are
-- arguments of the operations.
pub mod Loader
pub mod Collector
pub mod Bridge
pub mod Session
mod Tests
