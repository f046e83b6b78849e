-- ===== src/Net/Http/Session.antt =====
-- net/http.cpp: a connection of the HTTP server from its first read to the end of its handle: the
-- parser's callbacks of Net/Http/Context with the objects of Net/Http/Life.
pub mod Reads
pub mod Frees
pub mod Many
mod Tests
use libra_core.Common.{
  ◌-◌, Bool, true, not, ◌&&◌, ltb, List, [], ◌∷◌, Exec, ◌>>◌, pure, done, if◌then◌else◌, replicate,
  Text, Outcome, throw, fault,
}
use libra_core.Net.Http.Request.{UrlHandle, Request}
use libra_core.Net.Http.Response.{Wire, new_response}
use libra_core.Net.Http.Context.{Http, Parser, Read, on_read, new_context}
use libra_core.Net.Http.Context.Once.{sent_count}
use libra_core.Net.Http.Life
use libra_core.Net.Http.Life.{Served, parse, write_reported, on_socket}
use libra_core.Net.Http.Life.Freeing.{sends}
use libra_core.Uv.Stream.{closed}

-- What libuv reports of the socket: a read, the end of a write of the response, the end of the
-- closing.
pub data SocketEvent : Type 0 where
  arrives : Read → SocketEvent
  written : SocketEvent
  is_closed : SocketEvent

-- The context and the response, and which objects exist, with the handle.
abbrev pub Session : Type 0 → Type 0
Session P = Http P × Served

unfoldable pub start_session : (p : Parser) → Bool → Session p.State
unfolding new_context new_response
start_session p started =
    ((new_context p.start, (new_response, [])), (parse started Life.new_context).1)

-- The writes come first.
abbrev pub then_outcome : Outcome (Unit {0}) → Outcome (Unit {0}) → Outcome (Unit {0})
then_outcome (done u) o = o
then_outcome (throw x) o = throw x
then_outcome fault o = fault

module _ (p : Parser) (parse_url : Text → Bool → Bool × UrlHandle)
    (respond : Exec (Request × Wire) (Unit {0})) where
  -- The callback of a read; each text that the program's callback sends is a write of the response.
  unfoldable pub read_session : Read → Exec (Session p.State) (Unit {0})
  unfolding on_read
  read_session r (s, l) =
      let (o, s') = on_read p parse_url respond r s in
      let (o', l') = sends (replicate (sent_count s' - sent_count s) true) l in
      (then_outcome o' o, (s', l'))

  -- libuv reports what is under way: reads until the closing, a write that it has taken, and the end
  -- of the closing.
  unfoldable pub take_event : SocketEvent → Exec (Session p.State) (Unit {0})
  unfolding read_session
  take_event (arrives r) (s, (l, h)) =
      if h.exists && not h.closing then read_session r (s, (l, h)) else (done tt, (s, (l, h)))
  take_event written (s, (l, h)) =
      if ltb 0 h.pending
      then (let (o, l') = write_reported (l, h) in (o, (s, l')))
      else (done tt, (s, (l, h)))
  take_event is_closed (s, (l, h)) =
      if h.exists && h.closing
      then (let (o, l') = on_socket closed (l, h) in (o, (s, l')))
      else (done tt, (s, (l, h)))

  unfoldable pub live : List SocketEvent → Exec (Session p.State) (Unit {0})
  unfolding take_event
  live [] = pure tt
  live (x ∷ xs) = do take_event x; live xs
