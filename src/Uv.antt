-- ===== src/Uv.antt =====
-- uv/: the wrapper of libuv.
pub mod Callbacks
pub mod Apply
pub mod Stream
pub mod Signal
pub mod Tcp
pub mod Reading
pub mod Pool
pub mod Loop
mod Tests
