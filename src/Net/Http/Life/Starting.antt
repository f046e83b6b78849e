-- ===== src/Net/Http/Life/Starting.antt =====
-- net/http.cpp, net/http.h: the server's socket.
use libra_core.Common.{
  ℕ, ◌+◌, ◌≡◌, refl, Bool, true, false, ◌&&◌, Option, List, [], ◌∷◌, done, throw, length, arith,
  Text, ℤ, Exception, some, none, replicate,
}
use libra_core.Base.Bytes.{Endian}
use libra_core.Net.Address.{Ipv4, from_host}
use libra_core.Uv.Callbacks.{new_lut, store, invoke, slot_of, callback_of, Slot}
use libra_core.Uv.Tcp.{bind_to, is_zero}
use libra_core.Uv.Stream.{
  Handle, new_handle, close, closed, listen, listening, happens, request, on_lut, call_slot,
  start_close, void_function,
}
use libra_core.Net.Http.Life.{
  start_listening, keep_server, create_server, on_connection, no_callback, Served, error_function,
}

-- The closing of a socket that is deleted when it ends.
abbrev pub IsGoing : Handle → Type 0
IsGoing h =
    (h.closing ≡ true)
    × (closed h ≡ (done tt, record h { exists = false; lut = []; called = no_callback ∷ [] }))

-- A new socket with what its slots for closing and listening hold.
abbrev socket_with : Bool → Option Slot → Option Slot → Handle
socket_with going c l = record {
  exists = true;
  closing = going;
  lut = c ∷ l ∷ replicate 5 none;
  pending = 0;
  called = [];
}

abbrev close_slot : Option Slot
close_slot = some (record { callback_t = void_function; callback = no_callback; user_data = none })

abbrev listen_slot : ℕ → Option Slot
listen_slot f = some (record { callback_t = error_function; callback = f; user_data = none })

-- `create_server` answers a server exactly when the text is an IPv4 address and libuv lets its socket
-- bind and listen; then the socket is open, and a connection calls the server's callback. Where libuv
-- refuses, it answers none, and where the text is no such address, it throws; in both cases the socket
-- is being closed, and its closing deletes the handle. A connection without an error adds one client,
-- one with an error none.
pub create_server-listens :
    (pton4 pton6 : Text → Option (List ℕ)) (e : Endian) (tcp_bind : Ipv4 → ℤ) (ip : Text)
    (port callback : ℕ) (listens started : Bool) (clients : List Served)
    → ((a : Ipv4)
        → from_host pton4 pton6 e ip port ≡ done a
        → (h : Handle) × (create_server pton4 pton6 e tcp_bind ip port callback listens new_handle
            ≡ (done (is_zero (tcp_bind a) && listens), h))
          × (is_zero (tcp_bind a) && listens ≡ true
              → (h.closing ≡ false)
                × (happens listening h ≡ (done tt, record h { called = callback ∷ [] })))
          × (is_zero (tcp_bind a) && listens ≡ false → IsGoing h))
      × ((x : Exception)
          → from_host pton4 pton6 e ip port ≡ throw x
          → (h : Handle) × (create_server pton4 pton6 e tcp_bind ip port callback listens new_handle
              ≡ (throw x, h))
            × IsGoing h)
      × (length (on_connection false started clients) ≡ length clients + 1)
      × (on_connection true started clients ≡ clients)
unfolding create_server start_listening bind_to keep_server listen request on_lut store new_handle
    new_lut happens call_slot invoke callback_of slot_of close start_close closed on_connection
create_server-listens pton4 pton6 e tcp_bind ip port callback listens started clients = (
  λ a known. served a known (is_zero (tcp_bind a)) listens refl,
  λ x bad. (socket_with true close_slot none, rw bad refl, (refl, refl)),
  omega arith,
  refl,
)
  where
    served :
        (a : Ipv4)
        → from_host pton4 pton6 e ip port ≡ done a
        → (bound listens : Bool) → is_zero (tcp_bind a) ≡ bound
        → (h : Handle) × (create_server pton4 pton6 e tcp_bind ip port callback listens new_handle
            ≡ (done (bound && listens), h))
          × (bound && listens ≡ true
              → (h.closing ≡ false)
                × (happens listening h ≡ (done tt, record h { called = callback ∷ [] })))
          × (bound && listens ≡ false → IsGoing h)
    served a known true true ok = (
      socket_with false none (listen_slot callback),
      rw (known, ok) refl,
      λ h. (refl, refl),
      λ h. cc,
    )
    served a known true false ok = (
      socket_with true close_slot (listen_slot callback),
      rw (known, ok) refl,
      λ h. cc,
      λ h. (refl, refl),
    )
    served a known false listens ok =
        (socket_with true close_slot none, rw (known, ok) refl, λ h. cc, λ h. (refl, refl))
