-- ===== src/Net/Server/Dangling.antt =====
-- net/tcp_server.h, net/tcp_server.cpp: a connection's start, and uses of a deleted `Client`.
use libra_core.Common.{◌≡◌, refl, Bool, true, false, none, Exec, ◌>>◌, done, fault}
use libra_core.Base.Buffer.{Buffer, dynamic_buffer}
use libra_core.Base.Bytes.{Endian}
use libra_core.Net.Packet.{ReaderPacket}
use libra_core.Net.Server.{
  Client, World, recv_capacity, on_read, on_written, on_connection, new_client,
}
use libra_core.Net.Server.Lifetime.{
  Users, gone, members, with_this-here, except_error-dead, except_error-gone,
}

module _ {U : Type 0} (e : Endian) (on_packet : ReaderPacket → Exec (World U) (Unit {0}))
    (on_over : Exec (World U) (Unit {0})) (f : ReaderPacket → U → U) (g : U → U)
    (users : Users on_packet on_over f g) where
  -- A client that is there, with callbacks that act on the program's state alone, has a write under
  -- way when its peer goes away: libuv fails that write as the socket closes, and the callback of the
  -- write uses the client that the end of the stream has deleted, which is a fault.
  on_written-gone :
      (buf : Buffer) (c : Client U)
      → c.alive ≡ true
      → ((do on_read e on_packet on_over none; on_written e on_packet on_over true) (buf, c)).0
        ≡ fault
  unfolding on_read on_written
  on_written-gone buf c h = rw (
    with_this-here buf c h,
    except_error-gone e on_packet on_over f g users buf (record c { reading = false }) h,
    except_error-dead e on_packet on_over buf (gone g (record c { reading = false })) refl,
  )

  -- The callback of `listen`, where the program's callbacks act on its own state alone. An error or a refused `accept` changes nothing. Else, where the peer's
  -- name is known, the new client is in service, with a whole and empty buffer and both callbacks
  -- set. Where it is not, the constructor deletes the object that the caller then uses.
  pub on_connection_lem :
      (started : Bool) (buf : Buffer) (c : Client U)
      → ((accepted peer : Bool)
          → on_connection e on_packet on_over true accepted peer started (buf, c)
            ≡ (done tt, (buf, c)))
        × ((peer : Bool)
            → on_connection e on_packet on_over false false peer started (buf, c)
              ≡ (done tt, (buf, c)))
        × (on_connection e on_packet on_over false true true started (buf, c) ≡ (
          done tt,
          (
            dynamic_buffer recv_capacity,
            record {
              alive = true;
              closing = false;
              reading = started;
              packet_processor = true;
              over_cb = true;
              user = c.user;
            },
          ),
        ))
        × ((on_connection e on_packet on_over false true false started (buf, c)).0 ≡ fault)
  unfolding on_connection new_client
  on_connection_lem started buf c = (
    λ accepted peer. refl,
    λ peer. refl,
    refl,
    rw
        (except_error-gone e on_packet on_over f g users (dynamic_buffer recv_capacity)
          (members true false false false false c.user) refl)
        refl,
  )
