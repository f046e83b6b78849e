-- ===== src/Net/Server/Many/Messages.antt =====
-- net/packet.cpp, net/decoder.cpp, net/tcp_server.cpp: a peer's messages among the other clients'.
use native.Mathlib.Decide.{ℕ_discrete}
use libra_core.Common.{
  ◌≢◌, ℕ, ◌≡◌, refl, sym, ap, ◌∙◌, subst, true, false, List, [], ◌∷◌, ◌++◌, map, Exec, done, All,
  proceed, Bool, arith,
}
use libra_core.Base.Buffer.{Buffer, IsValid, content, dynamic_buffer}
use libra_core.Base.Buffer.Parts.{dynamic_buffer-IsValid, dynamic_buffer-capacity}
use libra_core.Base.Bytes.{Endian}
use libra_core.Net.Packet.{ReaderPacket}
use libra_core.Net.Decoder.Frames.{hand_over}
use libra_core.Net.Server.{Client, World, recv_capacity}
use libra_core.Net.Server.Lifetime.{Users, served, members}
use libra_core.Net.Server.Dangling.{on_connection_lem}
use libra_core.Net.Server.Reads.{
  Arrival, IsCut, frames_of, left_after, reads, IsReady, on_read-frames, hand_over-IsReady,
}
use libra_core.Net.Server.Messages.{
  Message, Schema, IsMessage, frame_of, packets_of, Inbox, holding, collect, count_end, on_message,
  on_end, on_message-Users, bytes_of, reads-messages,
}
use libra_core.Net.Server.Events.{arrives, step}
use libra_core.Net.Server.Many.{Incident, connects, reports, one}
use libra_core.Uv.Loop.{alone, only, many}
use libra_core.Net.Server.Many.Serving.{InOrder, IsNamed, many-InOrder, InTime}

abbrev pub read_of : Arrival → Incident
read_of a = reports (arrives a.bytes)

module _ {U : Type 0} (e : Endian) (on_packet : ReaderPacket → Exec (World U) (Unit {0}))
    (on_over : Exec (World U) (Unit {0})) (f : ReaderPacket → U → U) (g : U → U)
    (users : Users on_packet on_over f g) where
  -- Reads that keep their client come while it is there.
  alone-reads :
      (arrivals : List Arrival) (left : List ℕ) (buf : Buffer) (c : Client U)
      → IsValid buf
      → buf.capacity ≡ recv_capacity
      → IsReady c
      → content buf ≡ left
      → IsCut left arrivals
      → InTime e on_packet on_over (map read_of arrivals) (buf, c)
        × (alone (one e on_packet on_over) (map read_of arrivals) (buf, c)
            ≡ reads e on_packet on_over arrivals (buf, c))
  unfolding alone one reads step
  alone-reads [] left buf c v size ready at_start cut = (tt, refl)
  alone-reads (a ∷ as') left buf c v size ready at_start cut =
      let (buf1, run1, left1, v1, size1) =
        on_read-frames e on_packet on_over f g users a left buf c v size ready at_start
          (cut.0, cut.1, cut.2, cut.3, cut.4, tt) in
      let (times, rest) =
        alone-reads as' a.rest buf1 (hand_over (served f) c a.frames) v1 size1
          (hand_over-IsReady f c a.frames ready).0 left1 cut.5 in
      (
        (ready.0, subst (λ o. InTime e on_packet on_over (map read_of as') o.1) (sym run1) times),
        ap (proceed (λ _. alone (one e on_packet on_over) (map read_of as'))) run1
            ∙ rest
            ∙ sym (ap (proceed (λ _. reads e on_packet on_over as')) run1),
      )

-- A client that `new` puts where there is none.
abbrev newcomer : {U : Type 0} → Bool → U → Client U
newcomer go u = members true false go true true u

connects-first :
    {U : Type 0} (e : Endian) (on_packet : ReaderPacket → Exec (World U) (Unit {0}))
    (on_over : Exec (World U) (Unit {0})) (f : ReaderPacket → U → U) (g : U → U)
    (users : Users on_packet on_over f g) (go : Bool) (w : World U)
    → (w.1).alive ≡ false
    → one e on_packet on_over (connects false true true go) w
      ≡ (done tt, (dynamic_buffer recv_capacity, newcomer go (w.1).user))
unfolding one
connects-first e on_packet on_over f g users go (buf, c) absent =
    (on_connection_lem e on_packet on_over f g users go buf c).2

-- At every address there is no client, or one in service, and every connection that is taken has a
-- peer with a name. At one address there is none, until a peer connects, of either byte order, whose
-- packets the network cuts into reads that complete no more than five frames and do not overfill the
-- buffer; the program reads packets by the kinds of fields of each command, and does nothing else.
-- At the other addresses connections come where no client is, and callbacks while their client is
-- there, in whatever order, with bytes of any kind and ends. Then the loop goes on; the reads at the
-- one address bring exactly the bytes of the peer's packets, and the program has read exactly the
-- peer's messages there, in order and unchanged, and was told of no end.
pub many-messages :
    (here there : Endian) (schema : Schema) (xs : List (ℕ × Incident)) (ws : ℕ → World Inbox)
    (j : ℕ) (go : Bool) (ms : List Message) (arrivals : List Arrival)
    → All (λ x. IsNamed x.1) xs
    → ((i : ℕ) → j ≢ i → InTime here (on_message here schema) on_end (only i xs) (ws i))
    → ((i : ℕ) → InOrder (λ u. u.ends) (ws i))
    → (ws j).1.alive ≡ false
    → only j xs ≡ connects false true true go ∷ map read_of arrivals
    → All (IsMessage schema) ms
    → IsCut [] arrivals
    → frames_of arrivals ≡ map frame_of ms
    → left_after [] arrivals ≡ []
    → (bytes_of arrivals ≡ packets_of there ms)
      × ((ws' : ℕ → World Inbox) × (many (one here (on_message here schema) on_end) xs ws
            ≡ (done tt, ws'))
          × ((ws' j).1.user ≡ holding (ws j).1.user.ends ((ws j).1.user.messages ++ map done ms))
          × (content (ws' j).0 ≡ [])
          × IsReady (ws' j).1)
unfolding alone
many-messages here there schema xs ws j go ms arrivals named times order absent mine h cut whole
      over =
    let (ws', run, each) =
      many-InOrder here (on_message here schema) on_end (collect here schema) count_end
        (on_message-Users here schema) (λ u. u.ends) (λ p u. refl) (λ u. refl) xs ws named in_time
        order in
    let (sent, (buf', c', runs, user, left, ready)) =
      reads-messages here there schema ms arrivals (dynamic_buffer recv_capacity)
        (newcomer go (ws j).1.user) fresh-IsValid fresh_size (refl, refl) fresh-content h cut whole
        over in
    let same : (done tt, ws' j) ≡ (done tt, (buf', c')) =
      sym (each j).0
      ∙ ap (λ l. alone (one here (on_message here schema) on_end) l (ws j)) mine
      ∙ ap (proceed (λ _. alone (one here (on_message here schema) on_end) (map read_of arrivals)))
          (connects-first here (on_message here schema) on_end (collect here schema) count_end
            (on_message-Users here schema) go (ws j) absent)
      ∙ read_alone.1
      ∙ runs in
    let at_j : ws' j ≡ (buf', c') = ap (λ o. o.1) same in
    (
      sent,
      (
        ws',
        run,
        ap (λ w. w.1.user) at_j ∙ user,
        ap (λ w. content w.0) at_j ∙ left,
        subst (λ w. IsReady w.1) (sym at_j) ready,
      ),
    )
  where
    fresh-IsValid : IsValid (dynamic_buffer recv_capacity)
    fresh-IsValid = dynamic_buffer-IsValid recv_capacity (omega arith)

    fresh_size : (dynamic_buffer recv_capacity).capacity ≡ recv_capacity
    fresh_size = dynamic_buffer-capacity recv_capacity

    fresh-content : content (dynamic_buffer recv_capacity) ≡ []
    fresh-content = unfold dynamic_buffer in refl

    read_alone :
        InTime here
          (on_message here schema)
          on_end
          (map read_of arrivals)
          (dynamic_buffer recv_capacity, newcomer go (ws j).1.user)
        × (alone
              (one here (on_message here schema) on_end)
              (map read_of arrivals)
              (dynamic_buffer recv_capacity, newcomer go (ws j).1.user)
            ≡ reads here
                (on_message here schema)
                on_end
                arrivals
                (dynamic_buffer recv_capacity, newcomer go (ws j).1.user))
    read_alone =
        alone-reads here (on_message here schema) on_end (collect here schema) count_end
          (on_message-Users here schema) arrivals [] (dynamic_buffer recv_capacity)
          (newcomer go (ws j).1.user) fresh-IsValid fresh_size (refl, refl) fresh-content cut

    mine_in_time :
        InTime here
          (on_message here schema)
          on_end
          (connects false true true go ∷ map read_of arrivals)
          (ws j)
    mine_in_time = (
      absent,
      subst (λ o. InTime here (on_message here schema) on_end (map read_of arrivals) o.1)
          (sym (
            connects-first here (on_message here schema) on_end (collect here schema) count_end
              (on_message-Users here schema) go (ws j) absent))
          read_alone.0,
    )

    in_time : (i : ℕ) → InTime here (on_message here schema) on_end (only i xs) (ws i)
    in_time i = elim (ℕ_discrete j i) [
      | yes same ↦
          subst (λ k. InTime here (on_message here schema) on_end (only k xs) (ws k)) same
            (subst (λ l. InTime here (on_message here schema) on_end l (ws j)) (sym mine)
              mine_in_time)
      | no other ↦ times i other
    ]
