-- ===== src/Net/Server/Tests.antt =====
-- net/: the theorems on a connection, at one client and user.
use libra_core.Common.{
  ℕ, ◌+◌, ◌≡◌, refl, Bool, true, false, List, [], ◌∷◌, ◌++◌, Exec, done, fault, take, drop, codes,
}
use libra_core.Base.Buffer.{Buffer, content, dynamic_buffer}
use libra_core.Base.Bytes.{little}
use libra_core.Net.Packet.{ReaderPacket}
use libra_core.Net.Packet.Frame.{Frame, encode_frame}
use libra_core.Net.Server.{Client, World, recv_capacity, on_connection}
use libra_core.Net.Server.Lifetime.{Users, members}
use libra_core.Net.Server.Reads.{Arrival}
use libra_core.Net.Server.Dangling.{on_connection_lem}

-- What a program may keep: how often it was told of an end, and the packets that it was given.
abbrev Journal : Type 0
Journal = ℕ × List (List ℕ)

abbrev note : ReaderPacket → Journal → Journal
note p u = (u.0, content p.buffer ∷ u.1)

abbrev count : Journal → Journal
count u = (u.0 + 1, u.1)

abbrev on_packet : ReaderPacket → Exec (World Journal) (Unit {0})
on_packet p w = (done tt, (w.0, record (w.1) { user = note p (w.1).user }))

abbrev on_over : Exec (World Journal) (Unit {0})
on_over w = (done tt, (w.0, record (w.1) { user = count (w.1).user }))

journal-Users : Users on_packet on_over note count
journal-Users = record { packet_acts = λ p buf c h. refl; over_acts = λ buf c h. refl }

abbrev client : Client Journal
client = members true false true true true (0, [])

abbrev fresh : Buffer
fresh = dynamic_buffer recv_capacity

abbrev hello : Frame
hello = record { code = 2; body = codes "hello" }

-- `hello` in two reads, the second with the front of another.
abbrev two_reads : List Arrival
two_reads =
    record { bytes = take 4 (encode_frame hello); frames = []; rest = take 4 (encode_frame hello) }
    ∷ record {
      bytes = drop 4 (encode_frame hello) ++ (b'L' ∷ []);
      frames = hello ∷ [];
      rest = b'L' ∷ [];
    }
    ∷ []

on_connection_lem_example :
    ((accepted peer : Bool)
      → on_connection little on_packet on_over true accepted peer true (fresh, client)
        ≡ (done tt, (fresh, client)))
    × ((peer : Bool)
        → on_connection little on_packet on_over false false peer true (fresh, client)
          ≡ (done tt, (fresh, client)))
    × (on_connection little on_packet on_over false true true true (fresh, client)
        ≡ (done tt, (fresh, members true false true true true (0, []))))
    × ((on_connection little on_packet on_over false true false true (fresh, client)).0 ≡ fault)
on_connection_lem_example =
    on_connection_lem little on_packet on_over note count journal-Users true fresh client
