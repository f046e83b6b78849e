-- ===== src/Net/Server/Lifetime.antt =====
-- net/tcp_server.cpp: how long a `Client` lives.
use libra_core.Common.{
  ◌≡◌, refl, Bool, true, false, Exec, try_catch, pure, done, fault, if◌then◌else◌,
}
use libra_core.Base.Buffer.{Buffer}
use libra_core.Base.Bytes.{Endian}
use libra_core.Net.Packet.{ReaderPacket}
use libra_core.Net.Server.{Client, World, with_this, except_error, process}

-- User callbacks that act on their own state alone, whether they return or throw.
pub record Users {U : Type 0} (on_packet : ReaderPacket → Exec (World U) (Unit {0}))
    (on_over : Exec (World U) (Unit {0})) (f : ReaderPacket → U → U) (g : U → U) : Type 0 where
  pub packet_acts :
      (p : ReaderPacket) (buf : Buffer) (c : Client U)
      → c.alive ≡ true
      → try_catch (on_packet p) (pure tt) (buf, c)
        ≡ (done tt, (buf, record c { user = f p c.user }))
  pub over_acts :
      (buf : Buffer) (c : Client U)
      → c.alive ≡ true
      → try_catch on_over (pure tt) (buf, c) ≡ (done tt, (buf, record c { user = g c.user }))

abbrev pub members : {U : Type 0} → Bool → Bool → Bool → Bool → Bool → U → Client U
members a cl r p o u = record {
  alive = a;
  closing = cl;
  reading = r;
  packet_processor = p;
  over_cb = o;
  user = u;
}

-- The client that has been told of its end, closed and deleted.
abbrev pub gone : {U : Type 0} → (U → U) → Client U → Client U
gone g c = record {
  alive = false;
  closing = true;
  reading = false;
  packet_processor = c.packet_processor;
  over_cb = c.over_cb;
  user = if c.over_cb then g c.user else c.user;
}

-- What a packet does.
abbrev pub served : {U : Type 0} → (ReaderPacket → U → U) → ReaderPacket → Client U → Client U
served f p c = if c.packet_processor then record c { user = f p c.user } else c

pub with_this-here :
    {U : Type 0} (buf : Buffer) (c : Client U)
    → c.alive ≡ true
    → with_this (buf, c) ≡ (done tt, (buf, c))
unfolding with_this
with_this-here buf c h = rw h

-- Nothing may be asked of a deleted client.
pub except_error-dead :
    {U : Type 0} (e : Endian) (on_packet : ReaderPacket → Exec (World U) (Unit {0}))
    (on_over : Exec (World U) (Unit {0})) (buf : Buffer) (c : Client U)
    → c.alive ≡ false
    → except_error e on_packet on_over (buf, c) ≡ (fault, (buf, c))
unfolding except_error
except_error-dead e on_packet on_over buf c h = rw h

module _ {U : Type 0} (e : Endian) (on_packet : ReaderPacket → Exec (World U) (Unit {0}))
    (on_over : Exec (World U) (Unit {0})) (f : ReaderPacket → U → U) (g : U → U)
    (users : Users on_packet on_over f g) where
  open users use {packet_acts, over_acts}

  -- By the members' values.
  except_error_by :
      (buf : Buffer) (a cl r p o : Bool) (u : U)
      → a ≡ true
      → except_error e on_packet on_over (buf, members a cl r p o u)
        ≡ (done tt, (buf, gone g (members a cl r p o u)))
  unfolding except_error
  except_error_by buf true cl r p true u h =
      rw (over_acts buf (members true true false p true u) refl)
  except_error_by buf true cl r p false u h = refl
  except_error_by buf false cl r p o u h = cc

  -- Where the client is there and the program's callbacks act on the program's state alone,
  -- `except_error` returns, and the client is closed, deleted, and has told the program of its end if
  -- that callback is set, whether this returns or throws.
  pub except_error-gone :
      (buf : Buffer) (c : Client U)
      → c.alive ≡ true
      → except_error e on_packet on_over (buf, c) ≡ (done tt, (buf, gone g c))
  except_error-gone buf c here =
      except_error_by buf c.alive c.closing c.reading c.packet_processor c.over_cb c.user here

  process_by :
      (p : ReaderPacket) (buf : Buffer) (a cl r k o : Bool) (u : U)
      → a ≡ true
      → process e on_packet on_over p (buf, members a cl r k o u)
        ≡ (done tt, (buf, served f p (members a cl r k o u)))
  unfolding process
  process_by p buf true cl r true o u h = packet_acts p buf (members true cl r true o u) refl
  process_by p buf true cl r false o u h = refl
  process_by p buf false cl r k o u h = cc

  pub process-acts :
      (p : ReaderPacket) (buf : Buffer) (c : Client U)
      → c.alive ≡ true
      → process e on_packet on_over p (buf, c) ≡ (done tt, (buf, served f p c))
  process-acts p buf c h =
      process_by p buf c.alive c.closing c.reading c.packet_processor c.over_cb c.user h
