-- ===== src/Net/Server.antt =====
-- net/tcp_server.h, net/tcp_server.cpp. One connection: the `Client` object that serves it and what
-- libuv holds for it. A use of a member after `delete this` is a fault. What libuv answers is an
-- argument of the call; the user's callbacks are parameters, which may act on all of this.
pub mod Reads
pub mod Lifetime
pub mod Dangling
pub mod Events
pub mod Listening
pub mod Messages
pub mod Many
mod Tests
use libra_core.Common.{
  ℕ, Bool, true, false, List, Option, none, some, Exec, ◌>>=◌, ◌>>◌, pure, raise, done, fault,
  accept_failed, not, if◌then◌else◌, try_catch,
}
use libra_core.Base.Buffer.{Buffer, dynamic_buffer, append, remove}
use libra_core.Base.Bytes.{Endian}
use libra_core.Net.Packet.{ReaderPacket}
use libra_core.Net.Decoder.{on_buffer, handle}

-- `recv_buffer_(64*1024)`
abbrev pub recv_capacity : ℕ
recv_capacity = 0x10000

-- `alive`: the object exists. `closing`: its socket was closed. `reading`: libuv reports what
-- arrives. Then whether the two callbacks are set, and the state of the program that uses them.
pub record Client (U : Type 0) : Type 0 where
  pub alive : Bool
  pub closing : Bool
  pub reading : Bool
  pub packet_processor : Bool
  pub over_cb : Bool
  pub user : U

-- The receive buffer and the rest.
abbrev pub World : Type 0 → Type 0
World U = Buffer × Client U

module _ {U : Type 0} where
  -- The use of a member.
  unfoldable pub with_this : Exec (World U) (Unit {0})
  with_this (buf, c) = if c.alive then (done tt, (buf, c)) else (fault, (buf, c))

  -- `socket_->close()`, which does nothing to a socket that is closing.
  close_socket : Exec (World U) (Unit {0})
  close_socket (buf, c) = (done tt, (buf, record c { closing = true; reading = false }))

  -- The destructor of the buffer deletes its array by `delete`, which is taken for `delete[]` here.
  delete_this : Exec (World U) (Unit {0})
  delete_this (buf, c) = (done tt, (buf, record c { alive = false }))

  read_stop : Exec (World U) (Unit {0})
  read_stop (buf, c) = (done tt, (buf, record c { reading = false }))

  -- `set_hanlde_packet_cb`, `set_over_cb`.
  set_packet_cb : Exec (World U) (Unit {0})
  unfolding with_this
  set_packet_cb =
      with_this >> λ (w : World U). (done tt, (w.0, record (w.1) { packet_processor = true }))

  set_over_cb : Exec (World U) (Unit {0})
  unfolding with_this
  set_over_cb = with_this >> λ (w : World U). (done tt, (w.0, record (w.1) { over_cb = true }))

  pub over_read_data : ℕ → Exec (World U) (Unit {0})
  unfolding with_this on_buffer
  over_read_data size = do with_this; on_buffer (remove 0 size); pure tt

  -- `normal()`, by what `is_active` answers.
  pub normal : Bool → Exec (World U) Bool
  unfolding with_this
  normal active = do with_this; pure active

-- The members as the constructor sets them.
new_client : {U : Type 0} → Bool → Client U → World U
new_client reads c = (
  dynamic_buffer recv_capacity,
  record {
    alive = true;
    closing = false;
    reading = reads;
    packet_processor = false;
    over_cb = false;
    user = c.user;
  },
)

module _ {U : Type 0} (e : Endian) (on_packet : ReaderPacket → Exec (World U) (Unit {0}))
    (on_over : Exec (World U) (Unit {0})) where
  -- `over_cb_(this)`, whose exceptions are logged.
  call_over : Exec (World U) (Unit {0})
  call_over (buf, c) =
      if c.over_cb then try_catch on_over (pure tt) (buf, c) else (done tt, (buf, c))

  pub except_error : Exec (World U) (Unit {0})
  unfolding with_this close_socket call_over delete_this
  except_error = do with_this; close_socket; call_over; with_this; delete_this

  call_packet : ReaderPacket → Exec (World U) (Unit {0})
  call_packet p (buf, c) =
      if c.packet_processor then try_catch (on_packet p) (pure tt) (buf, c) else (done tt, (buf, c))

  pub process : ReaderPacket → Exec (World U) (Unit {0})
  unfolding with_this call_packet
  process p = do with_this; call_packet p

  -- The callback of `read_start`: the end of the stream or an error, or what has arrived.
  pub on_read : Option (List ℕ) → Exec (World U) (Unit {0})
  unfolding read_stop on_buffer
  on_read none = do with_this; read_stop; except_error
  on_read (some bytes) =
      try_catch (do with_this; on_buffer (append bytes); handle (λ c. c.alive) e (some process))
        except_error

  -- `send`, by what `is_active` and `write` answer; and the callback of its write.
  pub send : Bool → Bool → Exec (World U) (Unit {0})
  send active written = do
    with_this
    if not active then pure tt else if written then pure tt else except_error

  pub on_written : Bool → Exec (World U) (Unit {0})
  on_written failed = if failed then except_error else pure tt

  -- The constructor, by what `accept` and `peername` answer, and whether `read_start` starts.
  pub construct : Bool → Bool → Bool → Exec (World U) (Unit {0})
  unfolding new_client
  construct accepted peer started (buf, c) =
      if not accepted
      then raise accept_failed (buf, c)
      else if peer
      then (done tt, new_client started c)
      else except_error (new_client false c)

  -- The callback of `listen` in `TCPServer::start`. An exception leaves `client` null: it comes from
  -- the constructor.
  pub on_connection : Bool → Bool → Bool → Bool → Exec (World U) (Unit {0})
  unfolding construct set_packet_cb set_over_cb
  on_connection failed accepted peer started =
      if failed
      then pure tt
      else try_catch (do construct accepted peer started; set_packet_cb; set_over_cb) (pure tt)
