-- ===== src/Net/Server/Listening.antt =====
-- net/tcp_server.h, net/tcp_server.cpp: the class `TCPServer`, by the handle of its socket. What
-- libuv answers is an argument.
pub mod Serving
use libra_core.Common.{
  ℕ, Bool, not, Option, List, Exec, ◌>>=◌, ◌>>◌, pure, if◌then◌else◌, Text, ℤ, Outcome, false,
}
use libra_core.Base.Bytes.{Endian}
use libra_core.Net.Address.{Ipv4}
use libra_core.Uv.Stream.{Handle, listen, close}
use libra_core.Uv.Tcp.{new_tcp, bind_to}

-- The callback `[](){}` of the closing.
abbrev pub no_callback : ℕ
no_callback = 0

-- The constructor, by what `uv_tcp_init` answers.
unfoldable pub new_server : ℤ → Outcome Handle
unfolding new_tcp
new_server ret = new_tcp ret

-- `start`: what `callback` is called with a connection is `on_connection` of the server's clients.
unfoldable pub start_server :
    (Text → Option (List ℕ))
    → (Text → Option (List ℕ))
    → Endian
    → (Ipv4 → ℤ)
    → Text
    → ℕ
    → ℕ
    → Bool
    → Exec Handle Bool
unfolding bind_to listen
start_server pton4 pton6 e tcp_bind ip port callback listens = do
  bound ← bind_to pton4 pton6 e tcp_bind ip port
  if not bound then pure false else listen callback listens

-- `~TCPServer`
unfoldable pub end_server : Exec Handle (Unit {0})
unfolding close
end_server = close no_callback
