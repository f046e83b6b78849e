-- ===== src/Net/Server/Many.antt =====
-- net/tcp_server.cpp: the clients of one server, whose callbacks the event loop calls in any order.
-- A client is known by its address; a deleted client's address may serve a later one.
pub mod Serving
pub mod Messages
mod Tests
use libra_core.Common.{Bool, Exec}
use libra_core.Base.Bytes.{Endian}
use libra_core.Net.Packet.{ReaderPacket}
use libra_core.Net.Server.{World, on_connection}
use libra_core.Net.Server.Events.{Event, step}

-- What the loop calls for one address: the callback of `listen`, by what libuv answers it, for a
-- client that `new` puts there, or a callback of that client.
pub data Incident : Type 0 where
  connects : Bool → Bool → Bool → Bool → Incident
  reports : Event → Incident

module _ {U : Type 0} (e : Endian) (on_packet : ReaderPacket → Exec (World U) (Unit {0}))
    (on_over : Exec (World U) (Unit {0})) where
  pub one : Incident → Exec (World U) (Unit {0})
  one (connects failed accepted peer started) =
      on_connection e on_packet on_over failed accepted peer started
  one (reports ev) = step e on_packet on_over ev
