-- ===== src/Net/Http/Life.antt =====
-- net/http.cpp: the lives of a `client_context`, its request and its response, and of the socket that
-- serves them; then `Http::start` and `create_server`. What libuv answers is an argument of the call.
pub mod Freeing
pub mod Starting
mod Tests
use libra_core.Common.{
  ℕ, ◌+◌, Bool, true, false, not, List, Exec, ◌>>=◌, ◌>>◌, pure, done, fault, if◌then◌else◌, ◌∷◌,
}
use libra_core.Common.{Option, Outcome, Text, raise, throw, ℤ}
use libra_core.Base.Bytes.{Endian}
use libra_core.Net.Address.{Ipv4}
use libra_core.Uv.Tcp.{bind_to}
use libra_core.Uv.Stream.{
  Handle, new_handle, close, listen, read_start, write, call_slot, end_write, error_function,
  uv_cid_write,
}

-- Which of the objects exist, whether the response's `client_` still holds the context, and how often
-- the context's destructor has run.
pub record Life : Type 0 where
  pub context : Bool
  pub request : Bool
  pub response : Bool
  pub callback_lut : Bool
  pub client : Bool
  pub freed : ℕ

-- The objects, and the handle of `socket_`.
abbrev pub Served : Type 0
Served = Life × Handle

-- The callbacks that the handle keeps: of the reads, of a response's write, of the closing.
abbrev pub reads_callback : ℕ
reads_callback = 20

abbrev pub sent_callback : ℕ
sent_callback = 30

abbrev pub no_callback : ℕ
no_callback = 0

unfoldable pub on_socket : {A : Type 0} → Exec Handle A → Exec Served A
on_socket m (l, h) = let (r, h') = m h in (r, (l, h'))

-- The constructor, which does not look at what `accept` answers.
unfoldable pub new_context : Served
unfolding new_handle
new_context = (
  record {
    context = true;
    request = false;
    response = false;
    callback_lut = true;
    client = false;
    freed = 0;
  },
  new_handle,
)

unfoldable pub new_messages : Exec Served (Unit {0})
new_messages (l, h) = (done tt, (record l { request = true; response = true; client = true }, h))

-- `parse`, which does not look at what `read_start` answers. Its parser and the callbacks that it sets
-- are in Net/Http/Context.
unfoldable pub parse : Bool → Exec Served Bool
unfolding on_socket new_messages read_start
parse started = do new_messages; on_socket (read_start reads_callback started); pure true

-- The use of a member of the response.
unfoldable pub with_response : Exec Served (Unit {0})
with_response (l, h) = if l.response then (done tt, (l, h)) else (fault, (l, h))

-- The write of `response::end`.
unfoldable pub send : Bool → Exec Served Bool
unfolding with_response on_socket write
send accepted = do with_response; on_socket (write sent_callback accepted)

-- `~client_context`
unfoldable pub destroy : Exec Served (Unit {0})
unfolding on_socket close
destroy (l, h) =
    if l.context
    then on_socket (close no_callback) (
      record {
        context = false;
        request = false;
        response = false;
        callback_lut = false;
        client = l.client;
        freed = l.freed + 1;
      },
      h,
    )
    else (fault, (l, h))

-- `client_.reset()`
unfoldable pub reset_client : Exec Served (Unit {0})
unfolding destroy
reset_client (l, h) =
    if l.client then destroy (record l { client = false }, h) else (done tt, (l, h))

-- libuv reports a write of the response: the callback runs, then the request of the write is deleted.
unfoldable pub write_reported : Exec Served (Unit {0})
unfolding on_socket call_slot with_response reset_client end_write
write_reported = do
  on_socket (call_slot error_function uv_cid_write)
  with_response
  reset_client
  on_socket end_write

-- The callback of `listen`: a client is made and parses, unless there was an error.
unfoldable pub on_connection : Bool → Bool → List Served → List Served
unfolding parse new_context
on_connection failed started clients =
    if failed then clients else (parse started new_context).1 ∷ clients

-- The server goes where it did not start_listening, and its destructor closes the socket.
unfoldable pub keep_server : Outcome Bool × Handle → Outcome Bool × Handle
unfolding close
keep_server (done true, h) = (done true, h)
keep_server (done false, h) = (do close no_callback; pure false) h
keep_server (throw x, h) = (do close no_callback; raise x) h
keep_server (fault, h) = (fault, h)

module _ (pton4 pton6 : Text → Option (List ℕ)) (e : Endian) (tcp_bind : Ipv4 → ℤ) where
  -- `Http::start`, by what libuv answers to `bind` and `listen`.
  unfoldable pub start_listening : Text → ℕ → ℕ → Bool → Exec Handle Bool
  unfolding bind_to listen
  start_listening ip port callback listens = do
    bound ← bind_to pton4 pton6 e tcp_bind ip port
    if not bound then pure false else listen callback listens

  -- `create_server`: whether it answers a server.
  unfoldable pub create_server : Text → ℕ → ℕ → Bool → Exec Handle Bool
  unfolding start_listening keep_server
  create_server ip port callback listens h =
      keep_server (start_listening ip port callback listens h)
