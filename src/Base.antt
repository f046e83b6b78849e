-- ===== src/Base.antt =====
-- base/: buffers, readers and writers, events, text, the small utilities.
pub mod Buffer
pub mod Bytes
pub mod Reader
pub mod Writer
pub mod Codec
pub mod CaseMap
pub mod Singleton
pub mod Events
pub mod Tuples
pub mod Format
pub mod Log
pub mod Exceptions
pub mod Application
mod Tests
