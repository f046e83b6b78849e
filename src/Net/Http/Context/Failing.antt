-- ===== src/Net/Http/Context/Failing.antt =====
-- net/http.cpp: how a read of a connection fails, and what becomes of a URL that comes in pieces.
use libra_core.Common.{
  ℕ, ◌≡◌, ◌≢◌, refl, ◌∙◌, Bool, true, false, List, [], ◌∷◌, ◌++◌, map, Exec, done, throw, fault,
  All, Text, url_parse, pos,
}
use libra_core.Net.Http.Request.{UrlHandle, Request, from_buf}
use libra_core.Net.Http.Response.{Response, Wire}
use libra_core.Net.Http.Context.{
  Context, Notice, on_url, Parser, bytes, failed, notify_all, notify, take_url, execute, on_read,
}
use libra_core.Net.Http.Context.Message.{on_read-failed}

module _ (parse_url : Text → Bool → Bool × UrlHandle) where
  -- The URL is that of one piece, whatever was there.
  abbrev pub with_url : {P : Type 0} → Text → Context P → Context P
  with_url at c = record c {
    request = record (c.request) { url = record { handle = (parse_url at false).1; buf = at } };
  }

  -- The pieces one by one.
  abbrev pub with_pieces : {P : Type 0} → List Text → Context P → Context P
  with_pieces [] c = c
  with_pieces (at ∷ ats) c = with_pieces ats (with_url at c)

module _ {P : Type 0} (parse_url : Text → Bool → Bool × UrlHandle)
    (respond : Exec (Request × Wire) (Unit {0})) (refuse : P → P) where
  url-taken :
      (at : Text) (ns : List Notice) (c : Context P) (w : Wire)
      → (parse_url at false).0 ≡ true
      → notify_all parse_url respond refuse (on_url at ∷ ns) (c, w)
        ≡ notify_all parse_url respond refuse ns (with_url parse_url at c, w)
  unfolding notify_all notify take_url from_buf
  url-taken at ns c w parsed = rw parsed refl

  url-throws :
      (at : Text) (ns : List Notice) (c : Context P) (w : Wire)
      → (parse_url at false).0 ≡ false
      → notify_all parse_url respond refuse (on_url at ∷ ns) (c, w)
        ≡ (throw url_parse, (with_url parse_url at c, w))
  unfolding notify_all notify take_url from_buf
  url-throws at ns c w wrong = rw wrong refl

  urls-taken :
      (ats : List Text) (ns : List Notice) (c : Context P) (w : Wire)
      → All (λ at. (parse_url at false).0 ≡ true) ats
      → notify_all parse_url respond refuse (map on_url ats ++ ns) (c, w)
        ≡ notify_all parse_url respond refuse ns (with_pieces parse_url ats c, w)
  urls-taken [] ns c w parsed = refl
  urls-taken (at ∷ ats) ns c w parsed =
      url-taken at (map on_url ats ++ ns) c w parsed.0
      ∙ urls-taken ats ns (with_url parse_url at c) w parsed.1

-- A read while the parser takes bytes fails in three ways. Where the parser tells of a URL, whole or
-- in pieces, each piece takes the place of the one before and is parsed by itself; the first that
-- does not parse is thrown out of the read, and what the parser tells of after it is not heard. A
-- failed read with the length -1 sets the response's status and sends nothing. With any other length,
-- as the end of a stream has in libuv, the parser gets a null buffer to read.
pub on_read-fails :
    (p : Parser) (parse_url : Text → Bool → Bool × UrlHandle)
    (respond : Exec (Request × Wire) (Unit {0})) (ats : List Text) (bad at : Text)
    (ns : List Notice) (s' : p.State) (n : ℕ) (c : Context p.State) (r : Response)
    (sent : List Text)
    → p.in_error c.parser ≡ false
    → p.feed c.parser at ≡ (map on_url ats ++ (on_url bad ∷ ns), s')
    → All (λ piece. (parse_url piece false).0 ≡ true) ats
    → (parse_url bad false).0 ≡ false
    → n ≢ 1
    → (on_read p parse_url respond (bytes at) (c, (r, sent)) ≡ (
      throw url_parse,
      (with_url parse_url bad (with_pieces parse_url ats (record c { parser = s' })), (r, sent)),
    ))
      × (on_read p parse_url respond (failed 1) (c, (r, sent))
          ≡ (done tt, (c, (record r { status = pos 500 }, sent))))
      × (on_read p parse_url respond (failed n) (c, (r, sent)) ≡ (fault, (c, (r, sent))))
unfolding on_read execute
on_read-fails p parse_url respond ats bad at ns s' n c r sent takes fed parsed wrong other =
    let (lost, ended) = on_read-failed p parse_url respond n c r sent takes in
    (
      rw (takes, fed)
          (urls-taken parse_url respond p.refuse ats (on_url bad ∷ ns) (record c { parser = s' })
              (r, sent) parsed
            ∙ url-throws parse_url respond p.refuse bad ns
                (with_pieces parse_url ats (record c { parser = s' })) (r, sent) wrong),
      lost,
      ended other,
    )
