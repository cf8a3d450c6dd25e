-- ===== src/Cache.antt =====
-- Package cache: values kept until they expire, and locks on them (cache/).
pub mod Lock
pub mod Memory
