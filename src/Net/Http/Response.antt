-- ===== src/Net/Http/Response.antt =====
-- net/http.cpp: the class `response`, and what it writes to its socket.
pub mod Reply
pub mod Sending
use libra_core.Common.{
  ℕ, ◌%◌, ◌^◌, ltb, take, fault, Bool, true, false, Option, some, none, List, [], ◌∷◌, ◌++◌, Exec,
  ◌>>=◌, ◌>>◌, lift, done, length, if◌then◌else◌, Text, codes,
}
use libra_core.Common.{ℤ, pos}
use libra_core.Base.CaseMap.{CaseMap, find, insert}
use libra_core.Base.Format.{decimal, print_int}
use libra_core.Net.Http.Status.{get_status_text}

pub record Response : Type 0 where
  pub client : Bool
  pub headers : CaseMap
  pub status : ℤ

abbrev pub crlf : Text
crlf = 13 ∷ 10 ∷ []

unfoldable pub new_response : Response
unfolding insert
new_response = record {
  client = true;
  headers = insert (codes "Content-Type") (codes "text/html") [];
  status = pos 200;
}

unfoldable pub set_status : ℤ → Response → Response
set_status code r = record r { status = code }

unfoldable pub set_header : Text → Text → Response → Response
set_header key value r = record r { headers = insert key value r.headers }

-- The length of the body, where the headers do not say it.
unfoldable pub add_length : Option Text → Text → Response → Response
unfolding set_header decimal
add_length none body r = set_header (codes "Content-Length") (decimal (length body)) r
add_length (some v) body r = r

unfoldable pub set_length : Text → Response → Response
unfolding find add_length
set_length body r = add_length (find (codes "Content-Length") r.headers) body r

unfoldable pub header_lines : CaseMap → Text
header_lines [] = []
header_lines ((k, v) ∷ m) = k ++ (codes ": " ++ (v ++ (crlf ++ header_lines m)))

unfoldable pub status_line : ℤ → Text → Text
unfolding print_int
status_line status reason = codes "HTTP/1.1 " ++ (print_int status ++ (codes " " ++ reason))

unfoldable pub response_text : Response → Text → Text → Text
unfolding status_line header_lines
response_text r reason body =
    status_line r.status reason ++ (crlf ++ (header_lines r.headers ++ (crlf ++ body)))

-- A response and the texts that its socket has taken.
abbrev pub Wire : Type 0
Wire = Response × List Text

-- `write(str.c_str(), static_cast<int>(str.length()), ...)`: a length that turns negative is read as
-- a `size_t` past the end of the text.
unfoldable pub write_text : Bool → Text → Exec Wire Bool
write_text false text w = (done false, w)
write_text true text (r, sent) =
    let len : ℕ = length text % 2 ^ 32 in
    if ltb len (2 ^ 31) then (done true, (r, sent ++ (take len text ∷ []))) else (fault, (r, sent))

-- `end`, by what `write` answers.
unfoldable pub end : Bool → Text → Exec Wire Bool
unfolding set_length get_status_text response_text write_text
end written body (r, sent) =
    (do
      reason ← lift (get_status_text r.status)
      λ w. write_text written (response_text w.0 reason body) w)
      (set_length body r, sent)

-- The callback of the write.
unfoldable pub on_sent : Response → Response
on_sent r = record r { client = false }
