-- ===== src/Net/Server/Many/Tests.antt =====
-- net/tcp_server.cpp: two clients, one of which sends a packet.
use native.Mathlib.Decide.{ℕ_discrete}
use libra_core.Common.{
  ℕ, ◌≡◌, refl, true, false, List, [], ◌∷◌, map, arith, done, take, drop, codes, Outcome, inl, All,
  ◌≢◌, sym, ◌∙◌, subst,
}
use libra_core.Base.Buffer.{content, dynamic_buffer}
use libra_core.Base.Bytes.{little, big, int16}
use libra_core.Base.Codec.{number, text, numbers, texts}
use libra_core.Net.Packet.Frame.{encode_frame}
use libra_core.Net.Server.{
  delete_this, World, recv_capacity, on_connection, construct, set_packet_cb, set_over_cb,
  with_this, new_client, delete_this,
}
use libra_core.Net.Server.Lifetime.{members}
use libra_core.Net.Server.Reads.{Arrival, IsReady}
use libra_core.Net.Server.Events.{arrives, sends}
use libra_core.Net.Server.Messages.{
  Message, Schema, frame_of, packets_of, bytes_of, Inbox, holding, on_message, on_end,
}
use mathlib.Core.Logic.{if_neg}
use libra_core.Net.Server.Many.{Incident, connects, reports, one}
use libra_core.Uv.Loop.{only, many}
use libra_core.Net.Server.Many.Serving.{IsNamed, InTime}
use libra_core.Net.Server.Many.Messages.{read_of, many-messages}

-- A message of two fields, and what a command's fields are.
abbrev order : Message
order = record { code = 7; fields = number int16 500 ∷ text (codes "hi") ∷ [] }

abbrev two_kinds : Schema
two_kinds code = numbers int16 ∷ texts ∷ []

-- Its packet in two reads.
abbrev cut_order : List Arrival
cut_order =
    record {
      bytes = take 4 (encode_frame (frame_of order));
      frames = [];
      rest = take 4 (encode_frame (frame_of order));
    }
    ∷ record {
      bytes = drop 4 (encode_frame (frame_of order));
      frames = frame_of order ∷ [];
      rest = [];
    }
    ∷ []

-- The reads of the first client, among which a second connects, sends six bytes that are no packet,
-- and a third connection fails.
abbrev mixed : List (ℕ × Incident)
mixed =
    (0, connects false true true true)
    ∷ (1, connects false true true true)
    ∷ (0, reports (arrives (take 4 (encode_frame (frame_of order)))))
    ∷ (1, reports (arrives (codes "GET / ")))
    ∷ (2, connects true false false false)
    ∷ (0, reports (arrives (drop 4 (encode_frame (frame_of order)))))
    ∷ []

abbrev nobody : ℕ → World Inbox
nobody i = (dynamic_buffer recv_capacity, members false true false true true (holding 0 []))

abbrev mixed_many : (ℕ → World Inbox) → Outcome (Unit {0}) × (ℕ → World Inbox)
mixed_many = many (one little (on_message little two_kinds) on_end) mixed

mixed-IsNamed : All (λ x. IsNamed x.1) mixed
mixed-IsNamed = (λ f a. refl, (λ f a. refl, (tt, (tt, (λ f a. cc, (tt, tt))))))

-- A client whose send fails, a second that sends no packet, and a third at the first one's address.
abbrev busy : List (ℕ × Incident)
busy =
    (1, connects false true true true)
    ∷ (2, connects false true true true)
    ∷ (1, reports (sends true false))
    ∷ (2, reports (arrives (codes "GET / ")))
    ∷ (1, connects false true true true)
    ∷ []

abbrev busy_many : (ℕ → World Inbox) → Outcome (Unit {0}) × (ℕ → World Inbox)
busy_many = many (one little (on_message little two_kinds) on_end) busy

only-none : (j : ℕ) (xs : List (ℕ × Incident)) → All (λ x. x.0 ≢ j) xs → only j xs ≡ []
only-none j [] others = refl
only-none j ((i, x) ∷ xs) (other, others) =
    if_neg (ℕ_discrete i j) other _ _ ∙ only-none j xs others

abbrev AtTheirTimes : List Incident → World Inbox → Type 0
AtTheirTimes = InTime little (on_message little two_kinds) on_end

-- Addresses 1 and 2, and any other.
in_time_by :
    (xs : List (ℕ × Incident)) (j : ℕ)
    → AtTheirTimes (only 1 xs) (nobody 1)
    → AtTheirTimes (only 2 xs) (nobody 2)
    → (1 ≢ j → 2 ≢ j → All (λ x. x.0 ≢ j) xs)
    → AtTheirTimes (only j xs) (nobody j)
in_time_by xs j first second others = elim (ℕ_discrete 1 j) [
  | yes same ↦ subst (λ k. AtTheirTimes (only k xs) (nobody k)) same first
  | no not_first ↦ elim (ℕ_discrete 2 j) [
    | yes same ↦ subst (λ k. AtTheirTimes (only k xs) (nobody k)) same second
    | no not_second ↦
        subst (λ l. AtTheirTimes l (nobody j)) (sym (only-none j xs (others not_first not_second)))
          tt
  ]
]

mixed_in_time : (j : ℕ) → 0 ≢ j → AtTheirTimes (only j mixed) (nobody j)
unfolding ℕ_discrete one on_connection construct set_packet_cb set_over_cb with_this new_client
mixed_in_time j zero_not =
    in_time_by mixed j (refl, (refl, tt)) (refl, tt)
      (λ a b. (zero_not, (a, (zero_not, (a, (b, (zero_not, tt)))))))

only-mixed : only 0 mixed ≡ connects false true true true ∷ map read_of cut_order
unfolding ℕ_discrete
only-mixed = refl

many-messages_example :
    (bytes_of cut_order ≡ packets_of big (order ∷ []))
    × ((ws' : ℕ → World Inbox) × (mixed_many nobody ≡ (done tt, ws'))
        × ((ws' 0).1.user ≡ holding 0 (done order ∷ []))
        × (content (ws' 0).0 ≡ [])
        × IsReady (ws' 0).1)
many-messages_example =
    many-messages little big two_kinds mixed nobody 0 true (order ∷ []) cut_order mixed-IsNamed
      mixed_in_time (λ j. inl refl) refl only-mixed
      ((omega arith, omega arith, omega arith, refl), tt)
      (
        refl,
        tt,
        omega arith,
        (frame_of order, drop 4 (encode_frame (frame_of order)), omega arith, refl, omega arith),
        omega arith,
        (
          refl,
          (omega arith, tt),
          omega arith,
          (frame_of order, encode_frame (frame_of order), omega arith, refl, omega arith),
          omega arith,
          tt,
        ),
      )
      refl refl
