-- ===== src/Net/Http/Context/Headers.antt =====
-- net/http.cpp: the headers that a request gets, however the parser cuts them.
use libra_core.Common.{
  ◌<◌, ◌≡◌, refl, ap, ◌∙◌, Bool, true, false, List, [], ◌∷◌, ◌++◌, map, append_assoc, arith, Exec,
  length, All, Text,
}
use libra_core.Base.CaseMap.{CaseMap, insert}
use libra_core.Net.Http.Response.{Wire}
use libra_core.Net.Http.Request.{UrlHandle, Request}
use libra_core.Net.Http.Context.{
  Notice, Context, notify_all, change, take_field, take_value, put_header, on_header_field,
  on_header_value, on_headers_complete, end_headers,
}

-- One header: the pieces of its field and of its value.
pub record Header : Type 0 where
  pub field_first : Text
  pub field_more : List Text
  pub value_first : Text
  pub value_more : List Text

abbrev pub join : Text → List Text → Text
join s [] = s
join s (t ∷ ts) = join (s ++ t) ts

abbrev pub key_of : Header → Text
key_of h = join h.field_first h.field_more

abbrev pub value_of : Header → Text
value_of h = join h.value_first h.value_more

abbrev pub notices_of : Header → List Notice
notices_of h =
    on_header_field h.field_first
    ∷ (map on_header_field h.field_more
        ++ (on_header_value h.value_first ∷ map on_header_value h.value_more))

abbrev pub all_notices : List Header → List Notice
all_notices [] = []
all_notices (h ∷ hs) = notices_of h ++ all_notices hs

-- The headers in turn, in a map.
abbrev pub gathered : CaseMap → List Header → CaseMap
gathered m [] = m
gathered m (h ∷ hs) = gathered (insert (key_of h) (value_of h) m) hs

-- The context by its members.
abbrev pub context : {P : Type 0} → P → Bool → Text → Text → Request → Context P
context p was f v r = record {
  parser = p;
  was_header_value = was;
  last_header_field = f;
  last_header_value = v;
  request = r;
}

abbrev pub with_headers : CaseMap → Request → Request
with_headers m r = record r { headers = m }

-- The headers with the one that is not put yet.
abbrev pub settled : Text → Text → CaseMap → CaseMap
settled [] v m = m
settled (c ∷ f) v m = insert (c ∷ f) v m

abbrev pub IsHeader : Header → Type 0
IsHeader h = 0 < length (key_of h)

module _ {P : Type 0} (parse_url : Text → Bool → Bool × UrlHandle)
    (respond : Exec (Request × Wire) (Unit {0})) (refuse : P → P) where
  field_pieces :
      (ts : List Text) (ns : List Notice) (p : P) (f v : Text) (r : Request) (w : Wire)
      → notify_all parse_url respond refuse
          (map on_header_field ts ++ ns)
          (context p false f v r, w)
        ≡ notify_all parse_url respond refuse ns (context p false (join f ts) v r, w)
  unfolding notify_all change take_field
  field_pieces [] ns p f v r w = refl
  field_pieces (t ∷ ts) ns p f v r w = field_pieces ts ns p (f ++ t) v r w

  value_pieces :
      (ts : List Text) (ns : List Notice) (p : P) (f v : Text) (r : Request) (w : Wire)
      → notify_all parse_url respond refuse (map on_header_value ts ++ ns) (context p true f v r, w)
        ≡ notify_all parse_url respond refuse ns (context p true f (join v ts) r, w)
  unfolding notify_all change take_value
  value_pieces [] ns p f v r w = refl
  value_pieces (t ∷ ts) ns p f v r w = value_pieces ts ns p f (v ++ t) r w

  -- A new field puts the header before it.
  new_field :
      (t : Text) (ns : List Notice) (p : P) (f v : Text) (r : Request) (w : Wire)
      → (v' : Text) × (notify_all parse_url respond refuse
            (on_header_field t ∷ ns)
            (context p true f v r, w)
          ≡ notify_all parse_url respond refuse ns
              (context p false t v' (with_headers (settled f v r.headers) r), w))
  unfolding notify_all change take_field put_header
  new_field t ns p [] v r w = (v, refl)
  new_field t ns p (c ∷ f) v r w = ([], refl)

  first_value :
      (t : Text) (ns : List Notice) (p : P) (k u : Text) (r : Request) (w : Wire)
      → notify_all parse_url respond refuse (on_header_value t ∷ ns) (context p false k u r, w)
        ≡ notify_all parse_url respond refuse ns (context p true k t r, w)
  unfolding notify_all change take_value
  first_value t ns p k u r w = refl

  one_header :
      (h : Header) (ns : List Notice) (p : P) (f v : Text) (r : Request) (w : Wire)
      → notify_all parse_url respond refuse (notices_of h ++ ns) (context p true f v r, w)
        ≡ notify_all parse_url respond refuse ns
            (context p true (key_of h) (value_of h) (with_headers (settled f v r.headers) r), w)
  one_header h ns p f v r w =
      let next =
        map on_header_field h.field_more
        ++ (on_header_value h.value_first ∷ map on_header_value h.value_more) in
      let (v', run) = new_field h.field_first (next ++ ns) p f v r w in
      let r' = with_headers (settled f v r.headers) r in
      run
      ∙ ap (λ l. notify_all parse_url respond refuse l (context p false h.field_first v' r', w))
          (append_assoc (map on_header_field h.field_more)
            (on_header_value h.value_first ∷ map on_header_value h.value_more) ns)
      ∙ field_pieces h.field_more
          (on_header_value h.value_first ∷ (map on_header_value h.value_more ++ ns)) p h.field_first
          v' r' w
      ∙ first_value h.value_first (map on_header_value h.value_more ++ ns) p (key_of h) v' r' w
      ∙ value_pieces h.value_more ns p (key_of h) h.value_first r' w

  last_header :
      (ns : List Notice) (p : P) (f v : Text) (r : Request) (w : Wire)
      → notify_all parse_url respond refuse (on_headers_complete ∷ ns) (context p true f v r, w)
        ≡ notify_all parse_url respond refuse ns
            (context p true f v (with_headers (settled f v r.headers) r), w)
  unfolding notify_all change end_headers put_header
  last_header ns p [] v r w = refl
  last_header ns p (c ∷ f) v r w = refl

  -- From any context between headers: when the parser has told of headers, each with a field that is
  -- not empty, and of their end, the request has them all, in turn, with the one that was not put
  -- before. It does not matter in how many pieces each field and each value comes.
  pub headers-gathered :
      (hs : List Header) (ns : List Notice) (p : P) (f v : Text) (r : Request) (w : Wire)
      → All IsHeader hs
      → (f' v' : Text) × (notify_all parse_url respond refuse
            (all_notices hs ++ (on_headers_complete ∷ ns))
            (context p true f v r, w)
          ≡ notify_all parse_url respond refuse ns
              (context p true f' v' (with_headers (gathered (settled f v r.headers) hs) r), w))
  headers-gathered [] ns p f v r w a = (f, v, last_header ns p f v r w)
  headers-gathered (h ∷ hs) ns p f v r w a =
      let r' = with_headers (settled f v r.headers) r in
      let (f', v', run) = headers-gathered hs ns p (key_of h) (value_of h) r' w a.1 in
      (
        f',
        v',
        ap (λ l. notify_all parse_url respond refuse l (context p true f v r, w))
              (append_assoc (notices_of h) (all_notices hs) (on_headers_complete ∷ ns))
            ∙ one_header h (all_notices hs ++ (on_headers_complete ∷ ns)) p f v r w
            ∙ run
            ∙ ap
                (λ m.
                  notify_all parse_url respond refuse ns
                    (context p true f' v' (with_headers (gathered m hs) r), w))
                (settled-insert (key_of h) (value_of h) (settled f v r.headers) a.0),
      )
    where
      settled-insert : (k u : Text) (m : CaseMap) → 0 < length k → settled k u m ≡ insert k u m
      settled-insert [] u m n = absurd (omega arith)
      settled-insert (c ∷ k) u m n = refl
