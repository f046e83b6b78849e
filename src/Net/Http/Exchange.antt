-- ===== src/Net/Http/Exchange.antt =====
-- net/http.cpp as a whole: from the bytes of a request to what its client reads of the answer.
use libra_core.Common.{
  ◌≡◌, refl, ap, ◌∙◌, Bool, true, false, List, [], ◌∷◌, some, arith, Outcome, Exec, done, throw,
  fault, All, Text, codes, ℤ, length, ◌<◌, ◌^◌,
}
use libra_core.Base.CaseMap.{find, insert}
use libra_core.Net.Http.Status.{get_status_text}
use libra_core.Net.Http.Response.{
  Response, Wire, new_response, set_status, set_header, set_length, end, status_line, response_text,
}
use libra_core.Net.Http.Response.Reply.{IsPlain, IsKey, IsSendable, parse_response}
use libra_core.Net.Http.Response.Sending.{
  length_key, stated, end-reply, insert-IsSendable, plain→IsPlain,
}
use libra_core.Net.Http.Request.{UrlHandle, Request}
use libra_core.Net.Http.Context.{Context, Parser, on_read, new_context, bytes}
use libra_core.Net.Http.Context.Headers.{Header, IsHeader}
use libra_core.Net.Http.Context.Message.{request_of, message_notices, on_read-request}

-- What a program answers to a request: its status, the headers that it sets, and the body.
pub record Answer : Type 0 where
  pub status : ℤ
  pub headers : List (Text × Text)
  pub body : Text

abbrev pub set_headers : List (Text × Text) → Response → Response
set_headers [] r = r
set_headers ((k, v) ∷ hs) r = set_headers hs (set_header k v r)

-- The response before its end.
abbrev pub prepared : Answer → Response → Response
prepared a r = set_status a.status (set_headers a.headers r)

-- The text of an answer.
abbrev pub reply_text : Answer → Text → Text
reply_text a reason = response_text (set_length a.body (prepared a new_response)) reason a.body

abbrev finished : Request → Outcome Bool × Wire → Outcome (Unit {0}) × (Request × Wire)
finished q (done b, w) = (done tt, (q, w))
finished q (throw e, w) = (throw e, (q, w))
finished q (fault, w) = (fault, (q, w))

-- The program's callback: it sets the headers and the status of its answer, and ends the response,
-- whose write libuv takes.
abbrev pub respond_by : (Request → Answer) → Exec (Request × Wire) (Unit {0})
respond_by answer (q, w) = finished q (end true (answer q).body (prepared (answer q) w.0, w.1))

abbrev pub IsAnswer : Answer → Text → Type 0
IsAnswer a reason =
    (get_status_text a.status ≡ done reason) × All (λ h. IsKey h.0 × IsPlain h.1) a.headers

set_headers-IsSendable :
    (hs : List (Text × Text)) (r : Response)
    → All (λ h. IsKey h.0 × IsPlain h.1) hs
    → IsSendable r.headers
    → IsSendable (set_headers hs r).headers
unfolding set_header
set_headers-IsSendable [] r h s = s
set_headers-IsSendable ((k, v) ∷ hs) r h s =
    set_headers-IsSendable hs (set_header k v r) h.1 (insert-IsSendable k v r.headers h.0.0 h.0.1 s)

new_response-IsSendable : IsSendable new_response.headers
unfolding new_response insert
new_response-IsSendable = ((omega arith, plain→IsPlain (codes "text/html") refl), tt)

prepared-IsSendable :
    (a : Answer) (reason : Text) → IsAnswer a reason → IsSendable (prepared a new_response).headers
unfolding set_status
prepared-IsSendable a reason h =
    set_headers-IsSendable a.headers new_response h.1 new_response-IsSendable

prepared-status : (a : Answer) (r : Response) → (prepared a r).status ≡ a.status
unfolding set_status
prepared-status a r = refl

-- A new connection whose parser takes bytes and makes one request of them, with a URL that is parsed
-- and headers that have names; a program that answers requests by its callback, for this one with a
-- supported status, headers that can be sent, and a text of less than 2 GiB. Then the program is called once, with the request;
-- exactly one text is sent; and a client reads of it the status line, the headers with the length,
-- and the body that the program has answered to that request.
pub on_read-answer :
    (p : Parser) (parse_url : Text → Bool → Bool × UrlHandle) (answer : Request → Answer)
    (url : Text) (u : UrlHandle) (hs : List Header) (pieces : List Text) (at reason : Text)
    (s s' : p.State)
    → p.in_error s ≡ false
    → p.feed s at ≡ (message_notices url hs pieces, s')
    → parse_url url false ≡ (true, u)
    → All IsHeader hs
    → IsAnswer (answer (request_of url u hs pieces)) reason
    → length (reply_text (answer (request_of url u hs pieces)) reason) < 2 ^ 31
    → let a : Answer = answer (request_of url u hs pieces) in
      let r : Response = set_length a.body (prepared a new_response) in
      (c : Context p.State) × (text : Text) × (on_read p parse_url
          (respond_by answer)
          (bytes at)
          (new_context s, (new_response, []))
        ≡ (done tt, (c, (r, text ∷ []))))
      × (c.request ≡ request_of url u hs pieces)
      × (parse_response text ≡ some (status_line a.status reason, (r.headers, a.body)))
      × (find length_key r.headers
          ≡ some (stated (find length_key (prepared a new_response).headers) a.body))
      × ((more : Text)
          → on_read p parse_url (respond_by answer) (bytes more) (c, (r, text ∷ []))
            ≡ (done tt, (c, (r, text ∷ []))))
on_read-answer p parse_url answer url u hs pieces at reason s s' takes fed h names ok small =
    let q : Request = request_of url u hs pieces in
    let a : Answer = answer q in
    let (ends, sized, _, _) =
      end-reply a.body (prepared a new_response) [] (prepared-IsSendable a reason ok) in
    let (text, run, back) =
      ends reason (ap get_status_text (prepared-status a new_response) ∙ ok.0) small in
    let (c, read, heard, after, _) =
      on_read-request p parse_url (respond_by answer) url u hs pieces at s s' q (new_response, [])
        (set_length a.body (prepared a new_response), text ∷ []) takes fed h names
        (ap (finished q) run) in
    (
      c,
      text,
      read,
      heard,
      back
          ∙ ap
              (λ st. some (
                status_line st reason,
                ((set_length a.body (prepared a new_response)).headers, a.body),
              ))
              (prepared-status a new_response),
      sized,
      after,
    )
