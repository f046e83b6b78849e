-- ===== src/Net/Http/Request.antt =====
-- net/http.h, net/http.cpp: the classes `url_obj` and `request`. `http_parser_parse_url` is a
-- parameter: whether it takes the text, and what it says of its fields.
pub mod Url
use libra_core.Common.{
  ℕ, Bool, true, false, Option, some, none, [], ◌∷◌, Outcome, Exec, done, throw, fault, length,
  take, drop, ltb, ◌==◌, if◌then◌else◌, Text, codes, out_of_range, url_parse,
}
use libra_core.Base.CaseMap.{CaseMap, find}

pub data UrlField : Type 0 where
  uf_schema uf_host uf_port uf_path uf_query uf_fragment : UrlField

-- `http_parser_url`: which fields are set, where each starts, how long it is; and the port.
pub record UrlHandle : Type 0 where
  pub field_set : UrlField → Bool
  pub off : UrlField → ℕ
  pub len : UrlField → ℕ
  pub port_number : ℕ

pub record UrlObj : Type 0 where
  pub handle : UrlHandle
  pub buf : Text

-- `std::string::substr`, and `==`.
unfoldable pub substr : Text → ℕ → ℕ → Outcome Text
substr s start n = if ltb (length s) start then throw out_of_range else done (take n (drop start s))

unfoldable pub text_eq : Text → Text → Bool
text_eq [] [] = true
text_eq [] (d ∷ t) = false
text_eq (c ∷ s) [] = false
text_eq (c ∷ s) (d ∷ t) = let rest = text_eq s t in if c == d then rest else false

unfoldable pub has : UrlField → UrlObj → Bool
has f u = u.handle.field_set f

unfoldable pub field : UrlField → UrlObj → Outcome Text
unfolding substr
field f u = substr u.buf (u.handle.off f) (u.handle.len f)

unfoldable pub schema : UrlObj → Outcome Text
unfolding has field
schema u = if has uf_schema u then field uf_schema u else done (codes "HTTP")

unfoldable pub host : UrlObj → Outcome Text
unfolding has field
host u = if has uf_schema u then field uf_host u else done (codes "localhost")

-- The port by the schema.
unfoldable pub port_of : Outcome Text → Outcome ℕ
unfolding text_eq
port_of (done s) = done (if text_eq s (codes "HTTP") then 80 else 443)
port_of (throw x) = throw x
port_of fault = fault

unfoldable pub port : UrlObj → Outcome ℕ
unfolding has schema port_of
port u = if has uf_path u then done u.handle.port_number else port_of (schema u)

unfoldable pub path : UrlObj → Outcome Text
unfolding has field
path u = if has uf_path u then field uf_path u else done (codes "/")

unfoldable pub query : UrlObj → Outcome Text
unfolding has field
query u = if has uf_query u then field uf_query u else done []

unfoldable pub fragment : UrlObj → Outcome Text
unfolding has field
fragment u = if has uf_query u then field uf_fragment u else done []

unfoldable pub from_buf : (Text → Bool → Bool × UrlHandle) → Text → Bool → Exec UrlObj (Unit {0})
from_buf parse_url buf is_connect u =
    let (ok, h) = parse_url buf is_connect in
    if ok
    then (done tt, record { handle = h; buf = buf })
    else (throw url_parse, record { handle = h; buf = buf })

pub record Request : Type 0 where
  pub url : UrlObj
  pub headers : CaseMap
  pub body : Text
  pub default_value : Text

-- A handle whose members are zero.
unfoldable pub new_url : UrlObj
new_url = record {
  handle = record { field_set = λ f. false; off = λ f. 0; len = λ f. 0; port_number = 0 };
  buf = [];
}

unfoldable pub new_request : Request
unfolding new_url
new_request = record { url = new_url; headers = []; body = []; default_value = [] }

unfoldable pub value_or : Text → Option Text → Text
value_or d none = d
value_or d (some v) = v

unfoldable pub get_header : Text → Request → Text
unfolding find value_or
get_header key r = value_or r.default_value (find key r.headers)

-- The overload with a reference: whether there is such a header, and what the reference then holds.
unfoldable pub found_value : Text → Option Text → Bool × Text
found_value value none = (false, value)
found_value value (some v) = (true, v)

unfoldable pub get_header_into : Text → Text → Request → Bool × Text
unfolding find found_value
get_header_into key value r = found_value value (find key r.headers)
