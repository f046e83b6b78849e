-- ===== src/Net/Http.antt =====
-- net/http.h, net/http.cpp: requests, responses and the context of one connection.
pub mod Status
pub mod Response
pub mod Request
pub mod Context
pub mod Life
pub mod Exchange
pub mod Session
mod Tests
