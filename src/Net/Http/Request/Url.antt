-- ===== src/Net/Http/Request/Url.antt =====
-- net/http.h: the parts of a request's URL.
use libra_core.Common.{
  ℕ, ◌+◌, ◌≡◌, refl, sym, ◌∙◌, inl, inr, Bool, true, false, [], ◌++◌, arith, done, length,
  length-append, ltb, lt→ltb, le→ltb, ltb→lt, ltb-false→le, Bool-cases, Text, codes,
  take-append_self, drop-drop, take_all, drop-append_self,
}
use libra_core.Net.Http.Request.{
  uf_schema, uf_host, uf_port, uf_path, uf_query, uf_fragment, UrlHandle, UrlObj, substr, schema,
  host, port, path, query, fragment, from_buf, field,
}

-- What the parser says of a path with a query.
abbrev pub relative : Text → Text → UrlHandle
relative p q = record {
  field_set = λ f. elim f [ uf_path ↦ true | uf_query ↦ true | _ ↦ false ];
  off = λ f. elim f [ uf_query ↦ length p + (1 + 0) | _ ↦ 0 ];
  len = λ f. elim f [ uf_path ↦ length p | uf_query ↦ length q | _ ↦ 0 ];
  port_number = 0;
}

-- And of a whole URL with a port, `digits`, of value `n`.
abbrev pub absolute : Text → Text → Text → ℕ → Text → Text → Text → UrlHandle
absolute s h ds n p q fr = record {
  field_set = λ f. true;
  off = λ f. elim f [
    | uf_schema ↦ 0
    | uf_host ↦ length s + (3 + 0)
    | uf_port ↦ length s + (3 + (length h + (1 + 0)))
    | uf_path ↦ length s + (3 + (length h + (1 + (length ds + 0))))
    | uf_query ↦ length s + (3 + (length h + (1 + (length ds + (length p + (1 + 0))))))
    | uf_fragment ↦
        length s + (3 + (length h + (1 + (length ds + (length p + (1 + (length q + (1 + 0))))))))
  ];
  len = λ f. elim f [
    | uf_schema ↦ length s
    | uf_host ↦ length h
    | uf_port ↦ length ds
    | uf_path ↦ length p
    | uf_query ↦ length q
    | uf_fragment ↦ length fr
  ];
  port_number = n;
}

substr-shift : (a s : Text) (n k : ℕ) → substr (a ++ s) (length a + n) k ≡ substr s n k
unfolding substr
substr-shift a s n k = elim (Bool-cases (ltb (length s) n)) [
  | inl short ↦
      rw
        (
          short,
          lt→ltb (length (a ++ s)) (length a + n)
              (omega (arith, length-append a s, ltb→lt (length s) n short)),
        )
        refl
  | inr long ↦
      rw
        (
          long,
          le→ltb (length (a ++ s)) (length a + n)
              (omega (arith, length-append a s, ltb-false→le (length s) n long)),
          sym (drop-drop n (length a) (a ++ s)),
          drop-append_self a s,
        )
        refl
]

substr-front : (part after : Text) → substr (part ++ after) 0 (length part) ≡ done part
unfolding substr
substr-front part after =
    rw (le→ltb (length (part ++ after)) 0 (omega arith), take-append_self part after) refl

substr-whole : (part : Text) → substr part 0 (length part) ≡ done part
unfolding substr
substr-whole part =
    rw (le→ltb (length part) 0 (omega arith), take_all (length part) part (omega arith)) refl

substr-none : (s : Text) → substr s 0 0 ≡ done []
unfolding substr
substr-none s = rw (le→ltb (length s) 0 (omega arith)) refl

abbrev pub relative_text : Text → Text → Text
relative_text p q = p ++ (codes "?" ++ q)

abbrev pub absolute_text : Text → Text → Text → Text → Text → Text → Text
absolute_text s h ds p q fr =
    s
    ++ (codes "://" ++ (h ++ (codes ":" ++ (ds ++ (p ++ (codes "?" ++ (q ++ (codes "#" ++ fr))))))))

-- A path with a query, as request lines have it: the two parts are given back, the schema and the
-- host are the default ones, the fragment is empty. The port is the parser's, which is zero, and not
-- that of the schema.
pub relative-parts :
    (parse_url : Text → Bool → Bool × UrlHandle) (p q : Text) (u : UrlObj)
    → parse_url (relative_text p q) false ≡ (true, relative p q)
    → (u' : UrlObj) × (from_buf parse_url (relative_text p q) false u ≡ (done tt, u'))
      × (schema u' ≡ done (codes "HTTP"))
      × (host u' ≡ done (codes "localhost"))
      × (port u' ≡ done 0)
      × (path u' ≡ done p)
      × (query u' ≡ done q)
      × (fragment u' ≡ done [])
unfolding from_buf schema host port path query fragment field
relative-parts parse_url p q u h = (
  record { handle = relative p q; buf = relative_text p q },
  rw h refl,
  refl,
  refl,
  refl,
  substr-front p (codes "?" ++ q),
  substr-shift p (codes "?" ++ q) (1 + 0) (length q)
      ∙ substr-shift (codes "?") q 0 (length q)
      ∙ substr-whole q,
  substr-none (relative_text p q),
)

-- A whole URL: every part is given back, and the port.
pub absolute-parts :
    (parse_url : Text → Bool → Bool × UrlHandle) (s h ds p q fr : Text) (n : ℕ) (u : UrlObj)
    → parse_url (absolute_text s h ds p q fr) false ≡ (true, absolute s h ds n p q fr)
    → (u' : UrlObj) × (from_buf parse_url (absolute_text s h ds p q fr) false u ≡ (done tt, u'))
      × (schema u' ≡ done s)
      × (host u' ≡ done h)
      × (port u' ≡ done n)
      × (path u' ≡ done p)
      × (query u' ≡ done q)
      × (fragment u' ≡ done fr)
unfolding from_buf schema host port path query fragment field
absolute-parts parse_url s h ds p q fr n u e = (
  record { handle = absolute s h ds n p q fr; buf = absolute_text s h ds p q fr },
  rw e refl,
  substr-front s after_schema,
  to_host 0 (length h) ∙ substr-front h after_host,
  refl,
  to_path 0 (length p) ∙ substr-front p after_path,
  to_query 0 (length q) ∙ substr-front q after_query,
  to_query (length q + (1 + 0)) (length fr)
      ∙ substr-shift q after_query (1 + 0) (length fr)
      ∙ substr-shift (codes "#") fr 0 (length fr)
      ∙ substr-whole fr,
)
  where
    after_query : Text
    after_query = codes "#" ++ fr

    after_path : Text
    after_path = codes "?" ++ (q ++ after_query)

    after_host : Text
    after_host = codes ":" ++ (ds ++ (p ++ after_path))

    after_schema : Text
    after_schema = codes "://" ++ (h ++ after_host)

    to_host :
        (m k : ℕ)
        → substr (absolute_text s h ds p q fr) (length s + (3 + m)) k ≡ substr (h ++ after_host) m k
    to_host m k =
        substr-shift s after_schema (3 + m) k ∙ substr-shift (codes "://") (h ++ after_host) m k

    to_path :
        (m k : ℕ)
        → substr
            (absolute_text s h ds p q fr)
            (length s + (3 + (length h + (1 + (length ds + m)))))
            k
          ≡ substr (p ++ after_path) m k
    to_path m k =
        to_host (length h + (1 + (length ds + m))) k
        ∙ substr-shift h after_host (1 + (length ds + m)) k
        ∙ substr-shift (codes ":") (ds ++ (p ++ after_path)) (length ds + m) k
        ∙ substr-shift ds (p ++ after_path) m k

    to_query :
        (m k : ℕ)
        → substr
            (absolute_text s h ds p q fr)
            (length s + (3 + (length h + (1 + (length ds + (length p + (1 + m)))))))
            k
          ≡ substr (q ++ after_query) m k
    to_query m k =
        to_path (length p + (1 + m)) k
        ∙ substr-shift p after_path (1 + m) k
        ∙ substr-shift (codes "?") (q ++ after_query) m k
