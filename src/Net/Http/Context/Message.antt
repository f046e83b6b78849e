-- ===== src/Net/Http/Context/Message.antt =====
-- net/http.cpp: one request, from its bytes to the program's callback, and what comes after it.
use libra_core.Common.{
  ℕ, ◌≡◌, ◌≢◌, refl, ◌∙◌, Bool, true, false, List, [], ◌∷◌, ◌++◌, map, Exec, done, fault, All, Text,
  ==_apart,
}
use libra_core.Common.{pos}
use libra_core.Net.Http.Response.{Wire, set_status, Response}
use libra_core.Net.Http.Request.{UrlHandle, from_buf, Request, new_request, new_url}
use libra_core.Net.Http.Context.{
  Notice, Context, notify_all, change, on_url, on_body, on_message_complete, on_headers_complete,
  take_body, take_url, complete, refused, Parser, on_read, execute, new_context, bytes, failed,
}
use libra_core.Net.Http.Context.Headers.{
  Header, all_notices, gathered, context, with_headers, IsHeader, headers-gathered,
}

abbrev pub last_of : Text → List Text → Text
last_of b [] = b
last_of b (c ∷ cs) = last_of c cs

-- What the parser tells of one request.
abbrev pub message_notices : Text → List Header → List Text → List Notice
message_notices url hs pieces =
    on_url url
    ∷ (all_notices hs ++ (on_headers_complete ∷ (map on_body pieces ++ (on_message_complete ∷ []))))

abbrev pub request_of : Text → UrlHandle → List Header → List Text → Request
request_of url u hs pieces = record {
  url = record { handle = u; buf = url };
  headers = gathered [] hs;
  body = last_of [] pieces;
  default_value = [];
}

module _ {P : Type 0} (parse_url : Text → Bool → Bool × UrlHandle)
    (respond : Exec (Request × Wire) (Unit {0})) (refuse : P → P) where
  body_pieces :
      (bs : List Text) (ns : List Notice) (p : P) (f v : Text) (r : Request) (w : Wire)
      → notify_all parse_url respond refuse (map on_body bs ++ ns) (context p true f v r, w)
        ≡ notify_all parse_url respond refuse ns
            (context p true f v (record r { body = last_of r.body bs }), w)
  unfolding notify_all change take_body
  body_pieces [] ns p f v r w = refl
  body_pieces (b ∷ bs) ns p f v r w = body_pieces bs ns p f v (record r { body = b }) w

  first_url :
      (url : Text) (u : UrlHandle) (ns : List Notice) (p : P) (r : Request) (w : Wire)
      → parse_url url false ≡ (true, u)
      → notify_all parse_url respond refuse (on_url url ∷ ns) (context p true [] [] r, w)
        ≡ notify_all parse_url respond refuse ns
            (context p true [] [] (record r { url = record { handle = u; buf = url } }), w)
  unfolding notify_all take_url from_buf
  first_url url u ns p r w h = rw h refl

  last_notice :
      (p : P) (f v : Text) (r r' : Request) (w w' : Wire)
      → respond (r, w) ≡ (done tt, (r', w'))
      → notify_all parse_url respond refuse (on_message_complete ∷ []) (context p true f v r, w)
        ≡ (done tt, (context (refuse p) true f v r', w'))
  unfolding notify_all complete refused
  last_notice p f v r r' w w' h = rw h refl

  message_run :
      (url : Text) (u : UrlHandle) (hs : List Header) (pieces : List Text) (p : P) (r' : Request)
      (w w' : Wire)
      → parse_url url false ≡ (true, u)
      → All IsHeader hs
      → respond (request_of url u hs pieces, w) ≡ (done tt, (r', w'))
      → (f v : Text) × (notify_all parse_url respond refuse
            (message_notices url hs pieces)
            (context p true [] [] new_request, w)
          ≡ (done tt, (context (refuse p) true f v r', w')))
  unfolding new_request new_url
  message_run url u hs pieces p r' w w' h a answer =
      let r1 = record new_request { url = record { handle = u; buf = url } } in
      let (f, v, run) =
        headers-gathered parse_url respond refuse hs
          (map on_body pieces ++ (on_message_complete ∷ [])) p [] [] r1 w a in
      (
        f,
        v,
        first_url url u
              (all_notices hs
                ++ (on_headers_complete ∷ (map on_body pieces ++ (on_message_complete ∷ []))))
              p new_request w h
            ∙ run
            ∙ body_pieces pieces (on_message_complete ∷ []) p f v (with_headers (gathered [] hs) r1)
                w
            ∙ last_notice p f v (request_of url u hs pieces) r' w w' answer,
      )

module _ (p : Parser) (parse_url : Text → Bool → Bool × UrlHandle)
    (respond : Exec (Request × Wire) (Unit {0})) where
  -- A read of a whole request on a new connection, cut into any pieces by the parser: the program's
  -- callback is called once, with the request's URL, all its headers, and the last piece of its body
  -- (of a body in one piece that is all of it). After that no bytes and no end of the stream do
  -- anything: a second request on the connection is never heard.
  pub on_read-request :
      (url : Text) (u : UrlHandle) (hs : List Header) (pieces : List Text) (at : Text)
      (s s' : p.State) (r' : Request) (w w' : Wire)
      → p.in_error s ≡ false
      → p.feed s at ≡ (message_notices url hs pieces, s')
      → parse_url url false ≡ (true, u)
      → All IsHeader hs
      → respond (request_of url u hs pieces, w) ≡ (done tt, (r', w'))
      → (c : Context p.State) × (on_read p parse_url respond (bytes at) (new_context s, w)
          ≡ (done tt, (c, w')))
        × (c.request ≡ r')
        × ((more : Text) → on_read p parse_url respond (bytes more) (c, w') ≡ (done tt, (c, w')))
        × ((n : ℕ) → n ≢ 1 → on_read p parse_url respond (failed n) (c, w') ≡ (done tt, (c, w')))
  unfolding on_read execute new_context
  on_read-request url u hs pieces at s s' r' w w' takes fed h a answer =
      let (f, v, run) =
        message_run parse_url respond p.refuse url u hs pieces s' r' w w' h a answer in
      (
        context (p.refuse s') true f v r',
        rw (takes, fed) run,
        refl,
        λ more. rw (p.refuse-in_error s') refl,
        λ n other. rw (==_apart n 1 other, p.refuse-in_error s') refl,
      )

  -- A read that fails while the parser takes bytes: with the length -1 the response's status is set,
  -- and nothing is sent; with any other, as the end of a stream has in libuv, the parser gets a null
  -- buffer to read.
  pub on_read-failed :
      (n : ℕ) (c : Context p.State) (r : Response) (sent : List Text)
      → p.in_error c.parser ≡ false
      → (on_read p parse_url respond (failed 1) (c, (r, sent))
          ≡ (done tt, (c, (record r { status = pos 500 }, sent))))
        × (n ≢ 1 → on_read p parse_url respond (failed n) (c, (r, sent)) ≡ (fault, (c, (r, sent))))
  unfolding on_read set_status
  on_read-failed n c r sent takes = (refl, λ other. rw (==_apart n 1 other, takes) refl)
