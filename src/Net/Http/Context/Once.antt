-- ===== src/Net/Http/Context/Once.antt =====
-- net/http.cpp: how often a connection calls the program, whatever the parser makes of the bytes.
use libra_core.Common.{
  ℕ, ◌+◌, ◌≤◌, ◌≡◌, refl, Bool, true, List, [], ◌∷◌, Outcome, Exec, ◌>>=◌, ◌>>◌, pure, done, throw,
  fault, length, lift, if◌then◌else◌, arith, Text, inl, inr, ◌⊎◌, ◌==◌, Bool-cases, proceed, ◌<◌,
  subst,
}
use libra_core.Net.Http.Request.{UrlHandle, Request}
use libra_core.Net.Http.Response.{Wire, set_status}
use libra_core.Net.Http.Context.{
  Http, Notice, on_url, on_header_field, on_header_value, on_body, on_headers_complete,
  on_message_complete, Parser, Read, bytes, failed, change, take_url, complete, notify, refused,
  notify_all, execute, on_read,
}

-- How many texts were sent.
abbrev pub sent_count : {P : Type 0} → Http P → ℕ
sent_count s = length s.1.1

-- A call of the program sends at most one text.
abbrev pub AnswersOnce : Exec (Request × Wire) (Unit {0}) → Type 0
AnswersOnce respond = (q : Request) (w : Wire) → length (respond (q, w)).1.1.1 ≤ length w.1 + 1

module _ (p : Parser) (parse_url : Text → Bool → Bool × UrlHandle)
    (respond : Exec (Request × Wire) (Unit {0})) where
  -- The reads of a connection, until one throws.
  pub reads : List Read → Exec (Http p.State) (Unit {0})
  reads [] = pure tt
  reads (r ∷ rs) = do on_read p parse_url respond r; reads rs

  -- Nothing was sent, or one text, after which the parser takes no more.
  unfoldable pub Once : ℕ → Outcome (Unit {0}) × Http p.State → Type 0
  Once n (r, s) =
      (sent_count s ≡ n) ⊎ ((sent_count s ≤ n + 1) × (r ≡ done tt → p.in_error s.0.parser ≡ true))

  -- What the parser does with the answer of a callback.
  abbrev go_on : Exec (Http p.State) (Unit {0}) → ℕ → Exec (Http p.State) (Unit {0})
  go_on rest k = if k == 0 then rest else refused parse_url respond p.refuse

  url-Once :
      (o : Outcome (Unit {0})) (s : Http p.State) (rest : Exec (Http p.State) (Unit {0}))
      → Once (sent_count s) (rest s)
      → Once (sent_count s) ((do (do lift o; pure 0) >>= go_on rest) s)
  unfolding Once
  url-Once (done tt) s rest h = h
  url-Once (throw x) s rest h = inl refl
  url-Once fault s rest h = inl refl

  complete-Once :
      (n : ℕ) (o : Outcome (Unit {0})) (s : Http p.State) (rest : Exec (Http p.State) (Unit {0}))
      → sent_count s ≤ n + 1
      → Once n ((do (do lift o; pure 1) >>= go_on rest) s)
  unfolding Once refused
  complete-Once n (done tt) s rest h = inr (h, λ e. p.refuse-in_error s.0.parser)
  complete-Once n (throw x) s rest h = inr (h, λ e. cc)
  complete-Once n fault s rest h = inr (h, λ e. cc)

  notify_all-Once :
      AnswersOnce respond
      → (ns : List Notice) (s : Http p.State)
      → Once (sent_count s) (notify_all parse_url respond p.refuse ns s)
  unfolding notify_all Once notify change take_url complete refused
  notify_all-Once once [] s = inl refl
  notify_all-Once once (on_url at ∷ ns) s =
      url-Once _ _ (notify_all parse_url respond p.refuse ns) (notify_all-Once once ns _)
  notify_all-Once once (on_header_field at ∷ ns) s = notify_all-Once once ns _
  notify_all-Once once (on_header_value at ∷ ns) s = notify_all-Once once ns _
  notify_all-Once once (on_body at ∷ ns) s = notify_all-Once once ns _
  notify_all-Once once (on_headers_complete ∷ ns) s = notify_all-Once once ns _
  notify_all-Once once (on_message_complete ∷ ns) s =
      complete-Once _ _ _ (notify_all parse_url respond p.refuse ns) (once s.0.request s.1)

  pub on_read-Once :
      AnswersOnce respond
      → (r : Read) (s : Http p.State) → Once (sent_count s) (on_read p parse_url respond r s)
  unfolding on_read execute Once set_status
  on_read-Once once (bytes at) s = elim (Bool-cases (p.in_error s.0.parser)) [
    | inl over ↦ rw over (inl refl)
    | inr takes ↦ rw takes (
        notify_all-Once once (p.feed s.0.parser at).0
          (record (s.0) { parser = (p.feed s.0.parser at).1 }, s.1))
  ]
  on_read-Once once (failed n) s = elim (Bool-cases (n == 1)) [
    | inl lost ↦ rw lost (inl refl)
    | inr other ↦ elim (Bool-cases (p.in_error s.0.parser)) [
      | inl over ↦ rw (other, over) (inl refl)
      | inr takes ↦ rw (other, takes) (inl refl)
    ]
  ]

  unfoldable pub IsOver : Http p.State → Type 0
  IsOver s = p.in_error s.0.parser ≡ true

  -- Once the parser is in an error, no read sends anything.
  reads-IsOver :
      (rs : List Read) (s : Http p.State)
      → IsOver s
      → (sent_count (reads rs s).1 ≡ sent_count s) × IsOver (reads rs s).1
  unfolding on_read execute set_status reads IsOver
  reads-IsOver [] s over = (refl, over)
  reads-IsOver (bytes at ∷ rs) s over = rw over (reads-IsOver rs s over)
  reads-IsOver (failed n ∷ rs) s over = elim (Bool-cases (n == 1)) [
    | inl lost ↦ rw lost (reads-IsOver rs _ over)
    | inr other ↦ rw (other, over) (reads-IsOver rs s over)
  ]

  then-Once :
      (n : ℕ) (rs : List Read) (o : Outcome (Unit {0}) × Http p.State)
      → Once n o
      → ((s : Http p.State) → Once (sent_count s) (reads rs s))
      → Once n (proceed (λ _. reads rs) o)
  unfolding Once IsOver
  then-Once n rs (done tt, s) (inl same) h = subst (λ k. Once k (reads rs s)) same (h s)
  then-Once n rs (done tt, s) (inr (le, over)) h =
      let (kept, still) = reads-IsOver rs s (over refl) in inr (omega (arith, le, kept), λ e. still)
  then-Once n rs (throw x, s) o h = o
  then-Once n rs (fault, s) o h = o

  reads-Once :
      AnswersOnce respond → (rs : List Read) (s : Http p.State) → Once (sent_count s) (reads rs s)
  unfolding reads Once
  reads-Once once [] s = inl refl
  reads-Once once (r ∷ rs) s =
      then-Once (sent_count s) rs (on_read p parse_url respond r s) (on_read-Once once r s)
        (reads-Once once rs)

  -- Whatever the parser makes of the bytes, and whatever reads a connection brings, failed ones
  -- included, a program whose call sends at most one text sends at most one in all of them; and where
  -- the reads before have returned and one was sent, no later read sends anything.
  pub reads-once :
      AnswersOnce respond
      → (rs : List Read) (s : Http p.State)
      → (sent_count (reads rs s).1 ≤ sent_count s + 1)
        × ((reads rs s).0 ≡ done tt
            → sent_count s < sent_count (reads rs s).1
            → (later : List Read)
            → sent_count (reads later (reads rs s).1).1 ≡ sent_count (reads rs s).1)
  unfolding Once IsOver
  reads-once once rs s = elim (reads-Once once rs s) [
    | inl same ↦ (omega (arith, same), λ e more later. absurd (omega (arith, same, more)))
    | inr (le, over) ↦ (le, λ e more later. (reads-IsOver later (reads rs s).1 (over e)).0)
  ]
