-- ===== src/Net/Http/Session/Frees.antt =====
-- net/http.cpp: what a connection of the HTTP server frees, whatever its parser makes of the bytes.
use libra_core.Common.{
  ℕ, ◌-◌, ◌≡◌, ◌≢◌, refl, sym, ap, ◌∙◌, subst, Bool, true, false, none, [], ◌∷◌, Outcome, Exec,
  done, fault, replicate, arith, Text, inl, inr,
}
use native.Mathlib.Decide.{ℕ_discrete}
use libra_core.Uv.Stream.Slots.{handle_of}
use libra_core.Net.Http.Request.{UrlHandle, Request}
use libra_core.Net.Http.Response.{Wire}
use libra_core.Net.Http.Context.{Http, Parser, Read, on_read}
use libra_core.Net.Http.Context.Once.{sent_count, AnswersOnce, Once, IsOver, on_read-Once}
use libra_core.Net.Http.Life.{Served, sent_callback, no_callback}
use libra_core.Net.Http.Life.Freeing.{
  all_exist, all_freed, closing_handle, table, sent_handle, sends, sent_frees, closed_last,
  sends_one,
}
use libra_core.Net.Http.Session.{
  SocketEvent, arrives, written, is_closed, Session, read_session, take_event, live, then_outcome,
}
use libra_core.Net.Http.Session.Reads.{IsDefined, IsTame, on_read-ne-fault, on_read-IsOver}

-- How far a connection is: nothing was sent; an answer was sent; its write was reported; the handle
-- is closed.
pub data Phase : Type 0 where
  unanswered answered freed over : Phase

abbrev pub objects : Phase → Served
objects unanswered = (all_exist, handle_of true false (table none none) 0 [])
objects answered = (all_exist, sent_handle 1)
objects freed = (all_freed, closing_handle 0)
objects over = (all_freed, handle_of false true [] 0 (sent_callback ∷ no_callback ∷ []))

abbrev pub sent_in : Phase → ℕ
sent_in unanswered = 0
sent_in answered = 1
sent_in freed = 1
sent_in over = 1

module _ (p : Parser) (parse_url : Text → Bool → Bool × UrlHandle)
    (respond : Exec (Request × Wire) (Unit {0})) where
  -- After an answer the parser takes no more, unless the program's callback has thrown.
  abbrev pub TakesNoMore : Phase → Outcome (Unit {0}) → Http p.State → Type 0
  TakesNoMore answered r s = r ≡ done tt → IsOver p parse_url respond s
  TakesNoMore ph r s = Unit

  abbrev pub At : Phase → Outcome (Unit {0}) × Session p.State → Type 0
  At ph (r, (s, l)) =
      (r ≢ fault) × (sent_count s ≡ sent_in ph) × (l ≡ objects ph) × TakesNoMore ph r s

  unfoldable pub Steps : Outcome (Unit {0}) × Session p.State → Type 0
  Steps o = (ph : Phase) × At ph o

  sends_none :
      (k : ℕ)
      → k ≡ 0
      → sends (replicate (k - 0) true) (objects unanswered) ≡ (done tt, objects unanswered)
  sends_none k e = ap (λ n. sends (replicate (n - 0) true) (objects unanswered)) e

  sends_some :
      (k : ℕ)
      → k ≡ 1
      → sends (replicate (k - 0) true) (objects unanswered) ≡ (done tt, objects answered)
  sends_some k e = ap (λ n. sends (replicate (n - 0) true) (objects unanswered)) e ∙ sends_one

  sent_by :
      (o : Outcome (Unit {0}) × Http p.State)
      → o.0 ≢ fault
      → Once p parse_url respond 0 o
      → Steps (
          let (o', l') = sends (replicate (sent_count o.1 - 0) true) (objects unanswered) in
          (then_outcome o' o.0, (o.1, l')))
  unfolding Once Steps IsOver
  sent_by (r, s) defined (inl same) =
      subst (λ x. Steps (then_outcome x.0 r, (s, x.1))) (sym (sends_none (sent_count s) same))
        (unanswered, (defined, same, refl, tt))
  sent_by (r, s) defined (inr (le, last)) = elim (ℕ_discrete (sent_count s) 0) [
    | yes same ↦
        subst (λ x. Steps (then_outcome x.0 r, (s, x.1))) (sym (sends_none (sent_count s) same))
          (unanswered, (defined, same, refl, tt))
    | no some_text ↦
        let one : sent_count s ≡ 1 = omega (arith, le, some_text) in
        subst (λ x. Steps (then_outcome x.0 r, (s, x.1))) (sym (sends_some (sent_count s) one))
          (answered, (defined, one, refl, last))
  ]

  -- Each report of libuv, at each phase.
  arrives-Steps :
      AnswersOnce respond
      → IsDefined respond
      → (r : Read) (s : Http p.State) → IsTame (arrives r) s
      → sent_count s ≡ 0
      → Steps (read_session p parse_url respond r (s, objects unanswered))
  unfolding read_session
  arrives-Steps once defined r s tame none_sent =
      subst
        (λ n. Steps (
          let (o', l') =
            sends (replicate (sent_count (on_read p parse_url respond r s).1 - n) true)
              (objects unanswered) in
          (
            then_outcome o' (on_read p parse_url respond r s).0,
            ((on_read p parse_url respond r s).1, l'),
          )))
        (sym none_sent)
        (sent_by (on_read p parse_url respond r s)
          (on_read-ne-fault p parse_url respond defined r s tame none_sent)
          (subst (λ n. Once p parse_url respond n (on_read p parse_url respond r s)) none_sent
            (on_read-Once p parse_url respond once r s)))

  arrives_again :
      (r : Read) (s : Http p.State)
      → sent_count s ≡ 1
      → IsOver p parse_url respond s
      → Steps (read_session p parse_url respond r (s, objects answered))
  unfolding read_session Steps
  arrives_again r s one last =
      let (s', run, same, still) = on_read-IsOver p parse_url respond r s last in
      rw (run, same, one) (answered, (λ e. cc, refl, refl, λ e. still))

  pub take_event-Steps :
      AnswersOnce respond
      → IsDefined respond
      → (x : SocketEvent) (ph : Phase) (s : Http p.State) → IsTame x s
      → sent_count s ≡ sent_in ph
      → TakesNoMore ph (done tt) s
      → Steps (take_event p parse_url respond x (s, objects ph))
  unfolding take_event Steps
  take_event-Steps once defined (arrives r) unanswered s tame n last =
      arrives-Steps once defined r s tame n
  take_event-Steps once defined (arrives r) answered s tame n last = arrives_again r s n (last refl)
  take_event-Steps once defined (arrives r) freed s tame n last = (freed, (λ e. cc, n, refl, tt))
  take_event-Steps once defined (arrives r) over s tame n last = (over, (λ e. cc, n, refl, tt))
  take_event-Steps once defined written unanswered s tame n last =
      (unanswered, (λ e. cc, n, refl, tt))
  take_event-Steps once defined written answered s tame n last =
      rw (sent_frees 1) (freed, (λ e. cc, n, refl, tt))
  take_event-Steps once defined written freed s tame n last = (freed, (λ e. cc, n, refl, tt))
  take_event-Steps once defined written over s tame n last = (over, (λ e. cc, n, refl, tt))
  take_event-Steps once defined is_closed unanswered s tame n last =
      (unanswered, (λ e. cc, n, refl, tt))
  take_event-Steps once defined is_closed answered s tame n last =
      (answered, (λ e. cc, n, refl, last))
  take_event-Steps once defined is_closed freed s tame n last =
      rw (closed_last 0) (over, (λ e. cc, n, refl, tt))
  take_event-Steps once defined is_closed over s tame n last = (over, (λ e. cc, n, refl, tt))

  -- The end of an answered connection.
  pub ends-over :
      (ph : Phase) (s : Http p.State)
      → sent_in ph ≡ 1
      → live p parse_url respond (written ∷ is_closed ∷ []) (s, objects ph)
        ≡ (done tt, (s, objects over))
  unfolding live take_event
  ends-over unanswered s n = absurd (omega (arith, n))
  ends-over answered s n = rw (sent_frees 1, closed_last 0) refl
  ends-over freed s n = rw (closed_last 0) refl
  ends-over over s n = refl
