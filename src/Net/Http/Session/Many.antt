-- ===== src/Net/Http/Session/Many.antt =====
-- net/http.cpp: the connections of an HTTP server, whose callbacks the loop calls in any order.
use libra_core.Common.{
  ℕ, ◌≡◌, ◌≢◌, refl, ap, ◌∙◌, List, [], ◌∷◌, Outcome, Exec, done, throw, fault, Text, Bool, subst,
  sym,
}
use libra_core.Uv.Loop.{many, many-keeps, Along}
use libra_core.Net.Http.Request.{UrlHandle, Request}
use libra_core.Net.Http.Response.{Wire}
use libra_core.Net.Http.Context.{Http, Parser}
use libra_core.Net.Http.Context.Once.{sent_count, AnswersOnce}
use libra_core.Net.Http.Life.Freeing.{parse_lem}
use libra_core.Net.Http.Session.{
  SocketEvent, written, is_closed, Session, start_session, take_event, live, Served,
}
use libra_core.Net.Http.Session.Reads.{IsDefined, IsTame}
use libra_core.Net.Http.Session.Frees.{
  Phase, unanswered, over, sent_in, objects, TakesNoMore, Steps, take_event-Steps, ends-over,
}

-- How far a connection is, by what was sent and which of its objects exist.
abbrev pub IsAt : {S : Type 0} → Phase → Http S × Served → Type 0
IsAt ph (s, l) = (sent_count s ≡ sent_in ph) × (l ≡ objects ph)

module _ (p : Parser) (parse_url : Text → Bool → Bool × UrlHandle)
    (respond : Exec (Request × Wire) (Unit {0})) where
  abbrev Running : Session p.State → Type 0
  Running (s, l) = (ph : Phase) × IsAt ph (s, l) × TakesNoMore p parse_url respond ph (done tt) s

  running :
      (o : Outcome (Unit {0}) × Session p.State)
      → Steps p parse_url respond o
      → (o.0 ≢ fault) × ((ph : Phase) × IsAt ph o.1) × (o.0 ≡ done tt → Running o.1)
  unfolding Steps
  running (done u, (s, l)) (ph, (defined, n, same, last)) =
      (defined, (ph, (n, same)), λ e. (ph, (n, same), last))
  running (throw x, (s, l)) (ph, (defined, n, same, last)) =
      (defined, (ph, (n, same)), λ e. absurd cc)
  running (fault, (s, l)) (ph, (defined, n, same, last)) = absurd (defined refl)

  event-Running :
      AnswersOnce respond
      → IsDefined respond
      → (x : SocketEvent) (w : Session p.State) → IsTame x w.0
      → Running w
      → ((take_event p parse_url respond x w).0 ≢ fault)
        × ((ph : Phase) × IsAt ph (take_event p parse_url respond x w).1)
        × ((take_event p parse_url respond x w).0 ≡ done tt
            → Running (take_event p parse_url respond x w).1)
  event-Running once defined x (s, l) tame (ph, (n, same), last) =
      subst
        (λ z.
          ((take_event p parse_url respond x (s, z)).0 ≢ fault)
          × ((q : Phase) × IsAt q (take_event p parse_url respond x (s, z)).1)
          × ((take_event p parse_url respond x (s, z)).0 ≡ done tt
              → Running (take_event p parse_url respond x (s, z)).1))
        (sym same)
        (running (take_event p parse_url respond x (s, objects ph))
          (take_event-Steps p parse_url respond once defined x ph s tame n last))

  answered-ends :
      (w : Session p.State) (ph : Phase)
      → IsAt ph w
      → sent_in ph ≡ 1
      → live p parse_url respond (written ∷ is_closed ∷ []) w ≡ (done tt, (w.0, objects over))
  answered-ends (s, l) ph (n, same) one =
      ap (λ z. live p parse_url respond (written ∷ is_closed ∷ []) (s, z)) same
      ∙ ends-over p parse_url respond ph s one

  -- All connections from their start.
  abbrev pub connections :
      (ℕ → Bool) → List (ℕ × SocketEvent) → Outcome (Unit {0}) × (ℕ → Session p.State)
  connections started xs =
      many (take_event p parse_url respond) xs (λ j. start_session p (started j))

  -- Any number of connections from their start, for any parser, with a program whose callback acts on
  -- the request and the response alone, sends at most one text and does nothing undefined, and whose
  -- writes libuv takes; and whatever libuv reports of their sockets, in any order, but that no read
  -- fails with a length other than -1 before its connection was answered, as an end of the stream does.
  -- Then no callback uses what is freed or does anything undefined, beside the reading of the text by
  -- a write under way, which is not modelled, and beside an exception of the program or of a URL, which
  -- leaves through the C code of the parser and of libuv and ends the loop. Of every connection: where
  -- nothing was sent, all objects exist and the socket is open. Else exactly one text was sent, and all
  -- objects exist until its write is reported; then the context, the request, the response and the
  -- table are freed, each once, and the socket is being closed or its handle deleted. An answered
  -- connection gets there: the reports of its write and of its closing, as far as they are still to
  -- come, free everything and delete the handle.
  pub connections-Free :
      (started : ℕ → Bool) (xs : List (ℕ × SocketEvent))
      → AnswersOnce respond
      → IsDefined respond
      → Along
          (take_event p parse_url respond)
          (λ x w. IsTame x w.0)
          xs
          (λ j. start_session p (started j))
      → ((connections started xs).0 ≢ fault)
        × ((j : ℕ)
            → (ph : Phase) × IsAt ph ((connections started xs).1 j)
              × (sent_in ph ≡ 1
                  → live p parse_url respond
                      (written ∷ is_closed ∷ [])
                      ((connections started xs).1 j)
                    ≡ (done tt, (((connections started xs).1 j).0, objects over))))
  unfolding start_session
  connections-Free started xs once defined tame =
      let (no_fault, each) =
        many-keeps (take_event p parse_url respond) (λ x w. IsTame x w.0) Running
          (λ w. (ph : Phase) × IsAt ph w) (λ w (ph, at, last). (ph, at))
          (event-Running once defined) xs (λ j. start_session p (started j)) tame
          (λ j. (unanswered, (refl, ap (λ o. o.1) (parse_lem (started j))), tt)) in
      (no_fault, λ j. let (ph, at) = each j in (ph, at, answered-ends _ ph at))
