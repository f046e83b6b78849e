-- ===== src/Net/Http/Context.antt =====
-- net/http.cpp: the class `client_context`: what the parser's notices do, and the callback of the
-- socket's reads. The parser is a parameter.
pub mod Headers
pub mod Message
pub mod Lookup
pub mod Once
pub mod Failing
use libra_core.Common.{
  ℕ, ◌≡◌, Bool, true, false, not, List, [], ◌∷◌, ◌++◌, Exec, ◌>>=◌, ◌>>◌, lift, pure, done, fault,
  ◌==◌, if◌then◌else◌, Text,
}
use libra_core.Common.{pos}
use libra_core.Base.CaseMap.{insert}
use libra_core.Net.Http.Response.{Wire, set_status}
use libra_core.Net.Http.Request.{UrlHandle, from_buf, Request, new_request}

pub data Notice : Type 0 where
  on_url on_header_field on_header_value on_body : Text → Notice
  on_headers_complete on_message_complete : Notice

-- `http_parser`: its state as it starts; what it makes of bytes; whether it is in an error, in which
-- it takes none; and its state once a callback has answered other than 0.
pub record Parser : Type 1 where
  pub State : Type 0
  pub start : State
  pub feed : State → Text → List Notice × State
  pub in_error : State → Bool
  pub refuse : State → State
  pub refuse-in_error : (p : State) → in_error (refuse p) ≡ true

pub record Context (P : Type 0) : Type 0 where
  pub parser : P
  pub was_header_value : Bool
  pub last_header_field : Text
  pub last_header_value : Text
  pub request : Request

-- The context, the response, and what its socket has taken.
abbrev pub Http : Type 0 → Type 0
Http P = Context P × Wire

-- What a read brings: bytes, or a null buffer and the negative length `-n`.
pub data Read : Type 0 where
  bytes : Text → Read
  failed : ℕ → Read

unfoldable pub new_context : {P : Type 0} → P → Context P
unfolding new_request
new_context p = record {
  parser = p;
  was_header_value = true;
  last_header_field = [];
  last_header_value = [];
  request = new_request;
}

abbrev pub empty : Text → Bool
empty [] = true
empty (c ∷ s) = false

-- `request_->headers_[last_header_field_] = last_header_value_`
unfoldable pub put_header : {P : Type 0} → Context P → Context P
unfolding insert
put_header c = record c {
  request = record (c.request) {
    headers = insert c.last_header_field c.last_header_value c.request.headers;
  };
}

unfoldable pub take_field : {P : Type 0} → Text → Context P → Context P
unfolding put_header
take_field at c =
    if c.was_header_value
    then record (if empty c.last_header_field
        then c
        else record (put_header c) { last_header_value = [] }) {
          last_header_field = at;
          was_header_value = false;
        }
    else record c { last_header_field = c.last_header_field ++ at }

unfoldable pub take_value : {P : Type 0} → Text → Context P → Context P
take_value at c =
    if not c.was_header_value
    then record c { last_header_value = at; was_header_value = true }
    else record c { last_header_value = c.last_header_value ++ at }

unfoldable pub end_headers : {P : Type 0} → Context P → Context P
unfolding put_header
end_headers c = if empty c.last_header_field then c else put_header c

unfoldable pub take_body : {P : Type 0} → Text → Context P → Context P
take_body at c = record c { request = record (c.request) { body = at } }

module _ {P : Type 0} (parse_url : Text → Bool → Bool × UrlHandle)
    (respond : Exec (Request × Wire) (Unit {0})) where
  -- A change of the context alone.
  unfoldable pub change : (Context P → Context P) → Exec (Http P) ℕ
  change f (c, w) = (done 0, (f c, w))

  unfoldable pub take_url : Text → Exec (Http P) ℕ
  unfolding from_buf
  take_url at (c, w) =
      let (r, u) = from_buf parse_url at false c.request.url in
      (do lift r; pure 0) (record c { request = record (c.request) { url = u } }, w)

  -- The program's callback, with the request and the response.
  unfoldable pub complete : Exec (Http P) ℕ
  complete (c, w) =
      let (r, (q, w')) = respond (c.request, w) in
      (do lift r; pure 1) (record c { request = q }, w')

  -- What the callbacks answer the parser.
  unfoldable pub notify : Notice → Exec (Http P) ℕ
  unfolding change take_url complete take_field take_value end_headers take_body
  notify (on_url at) = take_url at
  notify (on_header_field at) = change (take_field at)
  notify (on_header_value at) = change (take_value at)
  notify on_headers_complete = change end_headers
  notify (on_body at) = change (take_body at)
  notify on_message_complete = complete

  unfoldable pub refused : (P → P) → Exec (Http P) (Unit {0})
  refused refuse (c, w) = (done tt, (record c { parser = refuse c.parser }, w))

  -- The parser calls them in turn, and stops where one answers other than 0.
  unfoldable pub notify_all : (P → P) → List Notice → Exec (Http P) (Unit {0})
  unfolding notify refused
  notify_all refuse [] = pure tt
  notify_all refuse (n ∷ ns) =
      let rest = notify_all refuse ns in
      do answer ← notify n; if answer == 0 then rest else refused refuse

-- `http_parser_execute`, then the callback of `read_start`. A null buffer with a length is read.
unfoldable pub execute :
    (p : Parser)
    → (Text → Bool → Bool × UrlHandle)
    → Exec (Request × Wire) (Unit {0})
    → Text
    → Exec (Http p.State) (Unit {0})
unfolding notify_all
execute p parse_url respond at (c, w) =
    if p.in_error c.parser
    then (done tt, (c, w))
    else notify_all parse_url respond p.refuse (p.feed c.parser at).0
        (record c { parser = (p.feed c.parser at).1 }, w)

unfoldable pub on_read :
    (p : Parser)
    → (Text → Bool → Bool × UrlHandle)
    → Exec (Request × Wire) (Unit {0})
    → Read
    → Exec (Http p.State) (Unit {0})
unfolding execute set_status
on_read p parse_url respond (bytes at) = execute p parse_url respond at
on_read p parse_url respond (failed n) = λ (s : Http p.State).
    if n == 1
    then (done tt, (s.0, (set_status (pos 500) (s.1).0, (s.1).1)))
    else if p.in_error (s.0).parser
    then (done tt, s)
    else (fault, s)
