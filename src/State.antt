-- ===== src/State.antt =====
-- internal/state: the containers that the detectors keep their data in.
pub mod RingBuffer
pub mod ShardedMap
