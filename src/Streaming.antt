-- ===== src/Streaming.antt =====
-- streaming/: the wire protocol, its checksum and the ring buffer between two threads.
pub mod Crc32
pub mod Protocol
pub mod Ringbuf
