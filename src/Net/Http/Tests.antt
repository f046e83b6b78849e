-- ===== src/Net/Http/Tests.antt =====
-- net/http.h, net/http.cpp: the theorems at one request and response.
use libra_core.Base.CaseMap.{ci_less, nocase_compare}
use libra_core.Base.Format.{digits, print_int, decimal}
use libra_core.Net.Http.Exchange.{Answer, prepared, respond_by, on_read-answer}
use libra_core.Net.Http.Response.{
  new_response, response_text, add_length, set_header, set_status, header_lines,
}
use libra_core.Net.Http.Status.{text_in}
use libra_core.Common.{
  ℕ, ◌≡◌, ◌≢◌, refl, Bool, true, false, some, none, List, [], ◌∷◌, ◌++◌, arith, Exec, done, throw,
  fault, Text, codes, length-append, ◌≤◌, ◌<◌, ◌==◌, url_parse, length, ◌^◌,
}
use libra_core.Common.{pos, unsupported_status}
use libra_core.Base.CaseMap.{tolower, find, insert}
use libra_core.Base.CaseMap.Order.{fold}
use libra_core.Net.Http.Status.{get_status_text}
use libra_core.Net.Http.Response.{Wire, Response, end, set_length, status_line}
use libra_core.Net.Http.Response.Reply.{parse_response, number_of}
use libra_core.Net.Http.Response.Sending.{length_key, stated, end-reply}
use libra_core.Net.Http.Request.{
  UrlHandle, UrlObj, from_buf, Request, new_request, new_url, schema, host, port, path, query,
  fragment, text_eq, get_header, get_header_into, value_or, found_value,
}
use libra_core.Net.Http.Request.Url.{
  relative, absolute, relative_text, relative-parts, absolute-parts,
}
use libra_core.Net.Http.Context.{
  Context, notify_all, on_headers_complete, Parser, on_read, new_context, bytes, failed, Read, Http,
  on_url,
}
use libra_core.Net.Http.Context.Headers.{
  Header, all_notices, gathered, context, with_headers, headers-gathered,
}
use libra_core.Net.Http.Context.Message.{request_of, message_notices, on_read-request}
use libra_core.Net.Http.Context.Failing.{with_url, on_read-fails}
use libra_core.Net.Http.Context.Once.{AnswersOnce, sent_count, reads, reads-once}
use libra_core.Net.Http.Context.Lookup.{get_header-request_of}

abbrev page : Response
page = record {
  client = true;
  headers = (codes "Content-Type", codes "text/html") ∷ [];
  status = pos 200;
}

end-reply_example :
    ((reason : Text)
      → get_status_text (pos 200) ≡ done reason
      → length (response_text (set_length (codes "hello") page) reason (codes "hello")) < 2 ^ 31
      → (text : Text) × (end true (codes "hello") (page, [])
          ≡ (done true, (set_length (codes "hello") page, text ∷ [])))
        × (parse_response text
            ≡ some (
              status_line (pos 200) reason,
              ((set_length (codes "hello") page).headers, codes "hello"),
            )))
    × (find length_key (set_length (codes "hello") page).headers
        ≡ some (stated (find length_key page.headers) (codes "hello")))
    × (number_of 0 (stated none (codes "hello")) ≡ 5)
    × (get_status_text (pos 200) ≡ throw unsupported_status
        → end true (codes "hello") (page, [])
          ≡ (throw unsupported_status, (set_length (codes "hello") page, [])))
end-reply_example = end-reply (codes "hello") page [] (omega arith)

-- A parser that finds the parts of each text that the tests give it.
abbrev parse_relative : Text → Bool → Bool × UrlHandle
parse_relative s connects = (true, relative (codes "/a") (codes "b=1"))

relative-parts_example :
    (u' : UrlObj) × (from_buf parse_relative
        (relative_text (codes "/a") (codes "b=1"))
        false
        new_url
      ≡ (done tt, u'))
    × (schema u' ≡ done (codes "HTTP"))
    × (host u' ≡ done (codes "localhost"))
    × (port u' ≡ done 0)
    × (path u' ≡ done (codes "/a"))
    × (query u' ≡ done (codes "b=1"))
    × (fragment u' ≡ done [])
relative-parts_example = relative-parts parse_relative (codes "/a") (codes "b=1") new_url refl

abbrev parse_absolute : Text → Bool → Bool × UrlHandle
parse_absolute s connects =
    (true, absolute (codes "http") (codes "h") (codes "81") 81 (codes "/a") (codes "b") (codes "c"))

absolute-parts_example :
    (u' : UrlObj) × (from_buf parse_absolute (codes "http://h:81/a?b#c") false new_url
      ≡ (done tt, u'))
    × (schema u' ≡ done (codes "http"))
    × (host u' ≡ done (codes "h"))
    × (port u' ≡ done 81)
    × (path u' ≡ done (codes "/a"))
    × (query u' ≡ done (codes "b"))
    × (fragment u' ≡ done (codes "c"))
absolute-parts_example =
    absolute-parts parse_absolute (codes "http") (codes "h") (codes "81") (codes "/a") (codes "b")
      (codes "c") 81 new_url refl

-- A header in pieces, and the same field again.
abbrev cut_headers : List Header
cut_headers =
    record {
      field_first = codes "Ho";
      field_more = codes "st" ∷ [];
      value_first = codes "a";
      value_more = codes "b" ∷ [];
    }
    ∷ record {
      field_first = codes "HOST";
      field_more = [];
      value_first = codes "c";
      value_more = [];
    }
    ∷ []

-- A parser of one text, `true` once it has refused.
abbrev one_message : Parser
one_message = record {
  State = Bool;
  start = false;
  feed = λ s at. (message_notices (codes "/a?b=1") cut_headers (codes "x" ∷ codes "y" ∷ []), s);
  in_error = λ s. s;
  refuse = λ s. true;
  refuse-in_error = λ s. refl;
}

-- A program that answers with an empty page.
abbrev answer : Exec (Request × Wire) (Unit {0})
answer (q, (r, sent)) = (done tt, (q, (r, sent ++ ([] ∷ []))))

abbrev heard : Request
heard =
    request_of (codes "/a?b=1") (relative (codes "/a") (codes "b=1")) cut_headers
      (codes "x" ∷ codes "y" ∷ [])

on_read-request_example :
    (c : Context Bool) × (on_read one_message parse_relative answer
        (bytes (codes "GET"))
        (new_context false, (page, []))
      ≡ (done tt, (c, (page, [] ∷ []))))
    × (c.request ≡ heard)
    × ((more : Text)
        → on_read one_message parse_relative answer (bytes more) (c, (page, [] ∷ []))
          ≡ (done tt, (c, (page, [] ∷ []))))
    × ((n : ℕ)
        → n ≢ 1
        → on_read one_message parse_relative answer (failed n) (c, (page, [] ∷ []))
          ≡ (done tt, (c, (page, [] ∷ []))))
on_read-request_example =
    on_read-request one_message parse_relative answer (codes "/a?b=1")
      (relative (codes "/a") (codes "b=1")) cut_headers (codes "x" ∷ codes "y" ∷ []) (codes "GET")
      false false heard (page, []) (page, [] ∷ []) refl refl refl (omega arith) refl

-- A URL in two pieces, of which the second is no URL by itself.
abbrev cut_url : Parser
cut_url = record {
  State = Bool;
  start = false;
  feed = λ s at. (on_url (codes "/a") ∷ on_url (codes "b") ∷ on_headers_complete ∷ [], s);
  in_error = λ s. s;
  refuse = λ s. true;
  refuse-in_error = λ s. refl;
}

abbrev starts_with_slash : Text → Bool → Bool × UrlHandle
starts_with_slash [] connects = (false, relative [] [])
starts_with_slash (x ∷ s) connects = (x == b'/', relative (x ∷ s) [])

abbrev open_context : Context Bool
open_context = context false true [] [] new_request

on_read-fails_example :
    (on_read cut_url starts_with_slash answer (bytes (codes "GET")) (open_context, (page, [])) ≡ (
      throw url_parse,
      (
        with_url starts_with_slash
            (codes "b")
            (with_url starts_with_slash (codes "/a") open_context),
        (page, []),
      ),
    ))
    × (on_read cut_url starts_with_slash answer (failed 1) (open_context, (page, []))
        ≡ (done tt, (open_context, (record page { status = pos 500 }, []))))
    × (on_read cut_url starts_with_slash answer (failed 4095) (open_context, (page, []))
        ≡ (fault, (open_context, (page, []))))
on_read-fails_example =
    on_read-fails cut_url starts_with_slash answer (codes "/a" ∷ []) (codes "b") (codes "GET")
      (on_headers_complete ∷ []) false 4095 open_context page [] refl refl (refl, tt) refl
      (omega arith)

get_header-request_of_example :
    (get_header (codes "hOST") heard ≡ codes "c")
    × (get_header_into (codes "hOST") [] heard ≡ (true, codes "c"))
unfolding value_or found_value text_eq fold tolower
get_header-request_of_example =
    get_header-request_of (codes "hOST") [] (codes "/a?b=1") (relative (codes "/a") (codes "b=1"))
      cut_headers (codes "x" ∷ codes "y" ∷ [])

headers-gathered_example :
    (f' v' : Text) × (notify_all parse_relative answer
        (λ s. true)
        (all_notices cut_headers ++ (on_headers_complete ∷ []))
        (context false true [] [] new_request, (page, []))
      ≡ notify_all parse_relative answer
          (λ s. true)
          []
          (
            context false true f' v' (with_headers (gathered [] cut_headers) new_request),
            (page, []),
          ))
unfolding new_request
headers-gathered_example =
    headers-gathered parse_relative answer (λ s. true) cut_headers [] false [] [] new_request
      (page, []) (omega arith)

-- A program that answers with the body of the request, and a header of its own.
abbrev echo : Request → Answer
echo q = record { status = pos 200; headers = (codes "X-Echo", codes "on") ∷ []; body = q.body }

abbrev echoed : Response
echoed = set_length (codes "y") (prepared (echo heard) new_response)

on_read-answer_example :
    (c : Context Bool) × (text : Text) × (on_read one_message parse_relative
        (respond_by echo)
        (bytes (codes "GET"))
        (new_context false, (new_response, []))
      ≡ (done tt, (c, (echoed, text ∷ []))))
    × (c.request ≡ heard)
    × (parse_response text ≡ some (status_line (pos 200) (codes "OK"), (echoed.headers, codes "y")))
    × (find length_key echoed.headers
        ≡ some (stated (find length_key (prepared (echo heard) new_response).headers) (codes "y")))
    × ((more : Text)
        → on_read one_message parse_relative (respond_by echo) (bytes more) (c, (echoed, text ∷ []))
          ≡ (done tt, (c, (echoed, text ∷ []))))
on_read-answer_example =
    on_read-answer one_message parse_relative echo (codes "/a?b=1")
      (relative (codes "/a") (codes "b=1")) cut_headers (codes "x" ∷ codes "y" ∷ []) (codes "GET")
      (codes "OK") false false refl refl refl (omega arith)
      (unfold get_status_text text_in in refl, (omega arith, tt))
      (unfold response_text set_length add_length set_header new_response set_status insert
          header_lines status_line find ci_less nocase_compare tolower print_int decimal digits in
        omega arith)

answer-AnswersOnce : AnswersOnce answer
answer-AnswersOnce q w = omega (arith, length-append w.1 ([] ∷ []))

-- A request, a failed read, and another request.
abbrev three_reads : List Read
three_reads = bytes (codes "GET") ∷ failed 4095 ∷ bytes (codes "GET") ∷ []

abbrev fresh : Http Bool
fresh = (new_context false, (page, []))

reads-once_example :
    (sent_count (reads one_message parse_relative answer three_reads fresh).1 ≤ 1)
    × ((reads one_message parse_relative answer three_reads fresh).0 ≡ done tt
        → 0 < sent_count (reads one_message parse_relative answer three_reads fresh).1
        → (later : List Read)
        → sent_count
            (reads one_message parse_relative answer later
              (reads one_message parse_relative answer three_reads fresh).1).1
          ≡ sent_count (reads one_message parse_relative answer three_reads fresh).1)
reads-once_example =
    reads-once one_message parse_relative answer answer-AnswersOnce three_reads fresh
