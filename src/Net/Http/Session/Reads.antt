-- ===== src/Net/Http/Session/Reads.antt =====
-- net/http.cpp: the reads of a connection do nothing undefined, and send nothing once it has answered.
use libra_core.Common.{
  ℕ, ◌≡◌, ◌≢◌, refl, Bool, true, false, List, [], ◌∷◌, Outcome, Exec, ◌>>=◌, ◌>>◌, pure, done,
  throw, fault, lift, Text, inl, inr, ◌==◌, Bool-cases, if◌then◌else◌, pos, ◌⊎◌, arith,
}
use libra_core.Net.Http.Request.{UrlHandle, Request, from_buf}
use libra_core.Net.Http.Response.{Wire, set_status}
use libra_core.Net.Http.Context.{
  Http, Notice, on_url, on_header_field, on_header_value, on_body, on_headers_complete,
  on_message_complete, Parser, Read, bytes, failed, change, take_url, complete, notify, refused,
  notify_all, execute, on_read,
}
use libra_core.Net.Http.Context.Once.{sent_count, IsOver}
use libra_core.Net.Http.Session.{SocketEvent, arrives, written, is_closed}

-- The program's callback does nothing undefined.
abbrev pub IsDefined : Exec (Request × Wire) (Unit {0}) → Type 0
IsDefined respond = (q : Request) (w : Wire) → (respond (q, w)).0 ≢ fault

-- No read fails with a length other than -1, the end of the stream included, before an answer was sent.
abbrev pub IsTame : {S : Type 0} → SocketEvent → Http S → Type 0
IsTame (arrives (bytes at)) s = Unit
IsTame (arrives (failed n)) s = (n ≡ 1) ⊎ (sent_count s ≡ 1)
IsTame written s = Unit
IsTame is_closed s = Unit

module _ (p : Parser) (parse_url : Text → Bool → Bool × UrlHandle)
    (respond : Exec (Request × Wire) (Unit {0})) where
  url-ne-fault :
      (at : Text) (s : Http p.State) (rest : ℕ → Exec (Http p.State) (Unit {0}))
      → ((k : ℕ) (s' : Http p.State) → (rest k s').0 ≢ fault)
      → ((do take_url {P = p.State} parse_url respond at >>= rest) s).0 ≢ fault
  unfolding take_url from_buf
  url-ne-fault at (c, w) rest h = elim (Bool-cases (parse_url at false).0) [
    | inl parsed ↦ rw parsed (h _ _)
    | inr wrong ↦ rw wrong (λ e. cc)
  ]

  go_on-ne-fault :
      (b : Bool) (s : Http p.State) (rest : Exec (Http p.State) (Unit {0}))
      → (rest s).0 ≢ fault
      → ((if b then rest else refused parse_url respond p.refuse) s).0 ≢ fault
  unfolding refused
  go_on-ne-fault true s rest h = h
  go_on-ne-fault false s rest h = λ e. cc

  complete-ne-fault :
      (o : Outcome (Unit {0})) (s : Http p.State) (rest : Exec (Http p.State) (Unit {0}))
      → o ≢ fault
      → ((do k ← (do lift o; pure 1); if k == 0 then rest else refused parse_url respond p.refuse)
          s).0
        ≢ fault
  unfolding refused
  complete-ne-fault (done tt) s rest h = λ e. cc
  complete-ne-fault (throw x) s rest h = λ e. cc
  complete-ne-fault fault s rest h = λ e. h refl

  notify_all-ne-fault :
      IsDefined respond
      → (ns : List Notice) (s : Http p.State)
      → (notify_all parse_url respond p.refuse ns s).0 ≢ fault
  unfolding notify_all notify change complete refused
  notify_all-ne-fault defined [] s = λ e. cc
  notify_all-ne-fault defined (on_url at ∷ ns) s =
      url-ne-fault at s
        (λ k.
          if k == 0
          then notify_all parse_url respond p.refuse ns
          else refused parse_url respond p.refuse)
        (λ k s'.
          go_on-ne-fault (k == 0) s' (notify_all parse_url respond p.refuse ns)
            (notify_all-ne-fault defined ns s'))
  notify_all-ne-fault defined (on_header_field at ∷ ns) s = notify_all-ne-fault defined ns _
  notify_all-ne-fault defined (on_header_value at ∷ ns) s = notify_all-ne-fault defined ns _
  notify_all-ne-fault defined (on_body at ∷ ns) s = notify_all-ne-fault defined ns _
  notify_all-ne-fault defined (on_headers_complete ∷ ns) s = notify_all-ne-fault defined ns _
  notify_all-ne-fault defined (on_message_complete ∷ ns) s =
      complete-ne-fault _ _ (notify_all parse_url respond p.refuse ns) (defined s.0.request s.1)

  pub on_read-ne-fault :
      IsDefined respond
      → (r : Read) (s : Http p.State) → IsTame (arrives r) s
      → sent_count s ≡ 0
      → (on_read p parse_url respond r s).0 ≢ fault
  unfolding on_read execute set_status
  on_read-ne-fault defined (bytes at) s tame none_sent = elim (Bool-cases (p.in_error s.0.parser)) [
    | inl over ↦ rw over (λ e. cc)
    | inr takes ↦ rw takes (
        notify_all-ne-fault defined (p.feed s.0.parser at).0
          (record (s.0) { parser = (p.feed s.0.parser at).1 }, s.1))
  ]
  on_read-ne-fault defined (failed n) s (inl lost) none_sent = rw lost (λ e. cc)
  on_read-ne-fault defined (failed n) s (inr one) none_sent = absurd (omega (arith, one, none_sent))

  -- Once the parser takes no more, a read sends nothing and changes that no more.
  pub on_read-IsOver :
      (r : Read) (s : Http p.State)
      → IsOver p parse_url respond s
      → (s' : Http p.State) × (on_read p parse_url respond r s ≡ (done tt, s'))
        × (sent_count s' ≡ sent_count s)
        × IsOver p parse_url respond s'
  unfolding on_read execute set_status IsOver
  on_read-IsOver (bytes at) s over = (s, rw over refl, refl, over)
  on_read-IsOver (failed n) s over = elim (Bool-cases (n == 1)) [
    | inl lost ↦ ((s.0, (set_status (pos 500) (s.1).0, (s.1).1)), rw lost refl, refl, over)
    | inr other ↦ (s, rw (other, over) refl, refl, over)
  ]
