-- ===== src/Net/Server/Listening/Serving.antt =====
-- net/tcp_server.h, net/tcp_server.cpp: from the start of a server to its end.
use libra_core.Common.{
  ℕ, ◌≡◌, refl, Bool, true, false, ◌&&◌, Option, some, none, List, [], ◌∷◌, ◌>>◌, done, throw, Text,
  ℤ, Exception, replicate, pos, Bool-cases, inl, inr,
}
use libra_core.Base.Bytes.{Endian}
use libra_core.Net.Address.{Ipv4, from_host}
use libra_core.Uv.Callbacks.{Slot, new_lut, store, invoke, slot_of, callback_of}
use libra_core.Uv.Tcp.{bind_to, is_zero, new_tcp}
use libra_core.Uv.Stream.{
  Handle, new_handle, close, closed, listen, listening, happens, request, on_lut, call_slot,
  start_close, error_function,
}
use libra_core.Net.Server.Listening.{new_server, start_server, end_server, no_callback}

-- A new socket with what its slot for listening holds.
abbrev socket_with : Option Slot → Handle
socket_with l = record {
  exists = true;
  closing = false;
  lut = none ∷ l ∷ replicate 5 none;
  pending = 0;
  called = [];
}

abbrev listen_slot : ℕ → Option Slot
listen_slot f = some (record { callback_t = error_function; callback = f; user_data = none })

-- The destructor of a server that has not been told of a connection closes its socket and deletes its
-- handle.
abbrev pub Ends : Handle → Type 0
Ends h =
    (do end_server; closed) h
    ≡ (done tt, record h { exists = false; closing = true; lut = []; called = no_callback ∷ [] })

-- A server whose socket libuv has made. `start` throws where the text is no IPv4 address; else it
-- answers whether libuv lets the socket bind and then listen, and a connection to a socket that was
-- bound calls the server's callback. In every case the server's destructor closes the socket, and its handle is
-- then deleted.
pub start_server-serves :
    (pton4 pton6 : Text → Option (List ℕ)) (e : Endian) (tcp_bind : Ipv4 → ℤ) (ip : Text)
    (port callback : ℕ) (listens : Bool)
    → (new : Handle) × (new_server (pos 0) ≡ done new)
      × ((a : Ipv4)
          → from_host pton4 pton6 e ip port ≡ done a
          → (h : Handle) × (start_server pton4 pton6 e tcp_bind ip port callback listens new
              ≡ (done (is_zero (tcp_bind a) && listens), h))
            × (is_zero (tcp_bind a) ≡ true
                → happens listening h ≡ (done tt, record h { called = callback ∷ [] }))
            × Ends h)
      × ((x : Exception)
          → from_host pton4 pton6 e ip port ≡ throw x
          → (start_server pton4 pton6 e tcp_bind ip port callback listens new ≡ (throw x, new))
            × Ends new)
unfolding new_server new_tcp is_zero start_server end_server bind_to listen request on_lut store
    new_handle new_lut happens call_slot invoke callback_of slot_of close start_close closed
start_server-serves pton4 pton6 e tcp_bind ip port callback listens = (
  socket_with none,
  refl,
  λ a known. elim (Bool-cases (is_zero (tcp_bind a))) [
    | inl bound ↦ (socket_with (listen_slot callback), rw (known, bound) refl, λ b. refl, refl)
    | inr refused ↦ (socket_with none, rw (known, refused) refl, λ b. absurd cc, refl)
  ],
  λ x bad. (rw bad refl, refl),
)
