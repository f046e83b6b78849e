-- ===== src/Uv/Tcp.antt =====
-- uv/tcp.h, uv/tcp.cpp: TCP sockets, and the calls of a stream that pass on what libuv answers. What libuv answers is an argument; an answer other than 0 is an error.
pub mod Connecting
use libra_core.Common.{
  ℕ, Bool, true, false, List, Option, Outcome, Exec, ◌>>=◌, ◌>>◌, lift, done, throw, Text, ◌==◌,
  if◌then◌else◌, fault,
}
use libra_core.Common.{ℤ, pos, negsuc, uv_error}
use libra_core.Base.Bytes.{Endian}
use libra_core.Net.Address.{Ipv4, from_host, from_sockaddr}
use libra_core.Uv.Stream.{Handle, new_handle, request, connecting}

unfoldable pub is_zero : ℤ → Bool
is_zero (pos n) = n == 0
is_zero (negsuc n) = false

-- The constructor, by what `uv_tcp_init` answers.
unfoldable pub new_tcp : ℤ → Outcome Handle
unfolding is_zero new_handle
new_tcp ret = if is_zero ret then done new_handle else throw (uv_error ret)

abbrev flag_of : Bool → ℕ
flag_of enable = if enable then 1 else 0

-- A call that hands the handle to libuv and passes on its answer: there has to be a handle.
unfoldable pub passes : {A : Type 0} → A → Exec Handle A
passes answer h = if h.exists then (done answer, h) else (fault, h)

-- The options, by libuv's setter.
unfoldable pub nodelay : (ℕ → ℤ) → Bool → Exec Handle Bool
unfolding is_zero passes
nodelay set_option enable = passes (is_zero (set_option (flag_of enable)))

unfoldable pub keepalive : (ℕ → ℕ → ℤ) → Bool → ℕ → Exec Handle Bool
unfolding is_zero passes
keepalive set_option enable delay = passes (is_zero (set_option (flag_of enable) delay))

unfoldable pub simultanious_accepts : (ℕ → ℤ) → Bool → Exec Handle Bool
unfolding is_zero passes
simultanious_accepts set_option enable = passes (is_zero (set_option (flag_of enable)))

-- `peername` and `sockname`, by libuv's answer and the address and the length that it writes.
unfoldable pub name_by : ℤ → Ipv4 → ℕ → Outcome Ipv4
unfolding is_zero from_sockaddr
name_by ret addr len = if is_zero ret then from_sockaddr addr len else throw (uv_error ret)

unfoldable pub peername : ℤ → Ipv4 → ℕ → Exec Handle Ipv4
unfolding name_by passes
peername ret addr len = do passes tt; lift (name_by ret addr len)

unfoldable pub sockname : ℤ → Ipv4 → ℕ → Exec Handle Ipv4
unfolding name_by passes
sockname ret addr len = do passes tt; lift (name_by ret addr len)

-- `Stream::accept`, with the handle of the client.
unfoldable pub accept : ℤ → Handle → Exec Handle Bool
unfolding is_zero passes
accept ret client = do lift (passes tt client).0; passes (is_zero ret)

unfoldable pub read_stop : ℤ → Exec Handle Bool
unfolding is_zero passes
read_stop ret = passes (is_zero ret)

unfoldable pub set_blocking : (ℤ → ℤ) → ℤ → Exec Handle Bool
unfolding is_zero passes
set_blocking set_option blocking = passes (is_zero (set_option blocking))

-- `Timer::stop`
unfoldable pub timer_stop : Exec Handle (Unit {0})
unfolding passes
timer_stop = passes tt

module _ (pton4 pton6 : Text → Option (List ℕ)) (e : Endian) where
  -- `connect`: the callback is stored, then the address is made, and libuv is asked with it.
  unfoldable pub connect_to : (Ipv4 → ℤ) → Text → ℕ → ℕ → Exec Handle Bool
  unfolding from_host request is_zero passes
  connect_to tcp_connect host port callback = do
    request connecting callback true
    address ← lift (from_host pton4 pton6 e host port)
    passes (is_zero (tcp_connect address))

  unfoldable pub bind_to : (Ipv4 → ℤ) → Text → ℕ → Exec Handle Bool
  unfolding from_host is_zero passes
  bind_to tcp_bind host port = do
    address ← lift (from_host pton4 pton6 e host port)
    passes (is_zero (tcp_bind address))
