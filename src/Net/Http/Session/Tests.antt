-- ===== src/Net/Http/Session/Tests.antt =====
-- net/http.cpp: two connections of a server.
use libra_core.Common.{
  ◌≡◌, ◌≢◌, refl, Bool, true, false, List, [], ◌∷◌, ◌++◌, Outcome, Exec, done, fault, arith, Text,
  codes, length-append, ℕ, inl, inr,
}
use libra_core.Net.Http.Life
use native.Mathlib.Decide.{ℕ_discrete}
use libra_core.Uv.Loop.{Along}
use libra_core.Net.Http.Request.{UrlHandle, Request}
use libra_core.Net.Http.Request.Url.{relative}
use libra_core.Net.Http.Response.{Wire}
use libra_core.Net.Http.Context.{Parser, on_message_complete, bytes, failed, on_read}
use libra_core.Net.Http.Context.Once.{AnswersOnce}
use libra_core.Net.Http.Session.{
  SocketEvent, arrives, written, is_closed, Session, live, start_session, take_event, read_session,
}
use libra_core.Net.Http.Session.Many.{IsAt, connections, connections-Free}
use libra_core.Net.Http.Session.Reads.{IsDefined, IsTame}
use libra_core.Net.Http.Session.Frees.{Phase, over, sent_in, objects}

-- A parser to which any bytes are a message, `true` once it has refused.
abbrev any_message : Parser
any_message = record {
  State = Bool;
  start = false;
  feed = λ s at. (on_message_complete ∷ [], s);
  in_error = λ s. s;
  refuse = λ s. true;
  refuse-in_error = λ s. refl;
}

abbrev no_url : Text → Bool → Bool × UrlHandle
no_url s connects = (false, relative [] [])

-- A program that answers with an empty text.
abbrev reply : Exec (Request × Wire) (Unit {0})
reply (q, (r, sent)) = (done tt, (q, (r, sent ++ ([] ∷ []))))

reply-AnswersOnce : AnswersOnce reply
reply-AnswersOnce q w = omega (arith, length-append w.1 ([] ∷ []))

reply-IsDefined : IsDefined reply
reply-IsDefined q w = λ e. cc

-- Two connections: the first is answered, its stream ends, and its write is reported.
abbrev two_connections : List (ℕ × SocketEvent)
two_connections =
    (0, arrives (bytes (codes "GET")))
    ∷ (1, arrives (failed 1))
    ∷ (0, arrives (failed 4095))
    ∷ (0, written)
    ∷ (1, arrives (bytes (codes "GET")))
    ∷ []

abbrev after_events : Outcome (Unit {0}) × (ℕ → Session Bool)
after_events = connections any_message no_url reply (λ j. true) two_connections

two-IsTame :
    Along
      (take_event any_message no_url reply)
      (λ x w. IsTame x w.0)
      two_connections
      (λ j. start_session any_message true)
unfolding start_session take_event read_session on_read ℕ_discrete Life.parse Life.new_context
two-IsTame = (tt, (inl refl, (inr refl, (tt, (tt, tt)))))

connections-Free_example :
    (after_events.0 ≢ fault)
    × ((j : ℕ)
        → (ph : Phase) × IsAt ph (after_events.1 j)
          × (sent_in ph ≡ 1
              → live any_message no_url reply (written ∷ is_closed ∷ []) (after_events.1 j)
                ≡ (done tt, ((after_events.1 j).0, objects over))))
connections-Free_example =
    connections-Free any_message no_url reply (λ j. true) two_connections reply-AnswersOnce
      reply-IsDefined two-IsTame
