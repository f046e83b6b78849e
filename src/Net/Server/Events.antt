-- ===== src/Net/Server/Events.antt =====
-- net/tcp_server.cpp: a connection from its first event to its end.
use libra_core.Common.{
  overwrite, ℕ, ◌+◌, ◌≤◌, ◌≡◌, refl, subst, ◌⊎◌, inl, inr, Bool, true, false, some, none, List, [],
  ◌∷◌, arith, Outcome, Exec, ◌>>◌, caught, pure, done, throw, fault, length, ltb, ltb→lt,
  ltb-false→le, Bool-cases, if◌then◌else◌,
}
use libra_core.Base.Buffer.{Buffer, IsValid}
use libra_core.Base.Buffer.Content.{append-room, append-full, written-IsValid}
use libra_core.Base.Bytes.{Endian}
use libra_core.Net.Packet.{ReaderPacket}
use libra_core.Net.Decoder.{handle, on_buffer}
use libra_core.Net.Decoder.Frames.{Behaves}
use libra_core.Net.Decoder.Safety.{IsSafe, handle-IsSafe}
use libra_core.Net.Server.{
  Client, World, recv_capacity, except_error, process, on_read, send, on_written,
}
use libra_core.Net.Server.Lifetime.{Users, with_this-here, served, except_error-gone, process-acts}

-- What libuv reports of a connection, and what the program sends on it: `arrives` and `ends` are
-- reads, `sends` a call of `send` with what `is_active` and `write` answer, `sent` the callback of
-- a write, with whether it failed.
pub data Event : Type 0 where
  arrives : List ℕ → Event
  ends : Event
  sends : Bool → Bool → Event
  sent : Bool → Event

module _ {U : Type 0} (e : Endian) (on_packet : ReaderPacket → Exec (World U) (Unit {0}))
    (on_over : Exec (World U) (Unit {0})) where
  unfoldable pub step : Event → Exec (World U) (Unit {0})
  step (arrives bytes) = on_read e on_packet on_over (some bytes)
  step ends = on_read e on_packet on_over none
  step (sends active written) = send e on_packet on_over active written
  step (sent failed) = on_written e on_packet on_over failed

  -- The events that come while the object is there.
  pub serve : List Event → Exec (World U) (Unit {0})
  serve [] = pure tt
  serve (ev ∷ evs) =
      let rest = serve evs in
      λ (w : World U). if (w.1).alive then (step ev >> rest) w else (done tt, w)

-- In service, with the user told `n` times of an end; and at its end.
abbrev pub IsServing : {U : Type 0} → (U → ℕ) → ℕ → Client U → Type 0
IsServing told n c = (c.alive ≡ true) × (c.closing ≡ false) × (c.over_cb ≡ true) × (told c.user ≡ n)

abbrev pub IsGone : {U : Type 0} → (U → ℕ) → ℕ → Client U → Type 0
IsGone told n c = (c.alive ≡ false) × (c.closing ≡ true) × (told c.user ≡ n + 1)

abbrev pub GoesOn : {U : Type 0} → (U → ℕ) → ℕ → Outcome (Unit {0}) × World U → Type 0
GoesOn told n (r, (buf, c)) =
    (r ≡ done tt)
    × ((IsServing told n c × IsValid buf × (buf.capacity ≡ recv_capacity)) ⊎ IsGone told n c)

abbrev added : Buffer → List ℕ → Buffer
added buf bytes = record buf {
  memory = overwrite buf.ptr bytes buf.memory;
  ptr = buf.ptr + length bytes;
}

module _ {U : Type 0} (e : Endian) (on_packet : ReaderPacket → Exec (World U) (Unit {0}))
    (on_over : Exec (World U) (Unit {0})) (f : ReaderPacket → U → U) (g : U → U)
    (users : Users on_packet on_over f g) (told : U → ℕ)
    (packets_tell_not : (p : ReaderPacket) (u : U) → told (f p u) ≡ told u)
    (over_tells : (u : U) → told (g u) ≡ told u + 1) where
  process-Behaves :
      (n : ℕ) → Behaves (λ c. c.alive) (process e on_packet on_over) (served f) (IsServing told n)
  process-Behaves n = record {
    sees = λ c h. h.0;
    stays = λ p c h. served-IsServing p c h;
    acts = λ p buf c h. process-acts e on_packet on_over f g users p buf c h.0;
  }
    where
      served-IsServing :
          (p : ReaderPacket) (c : Client U) → IsServing told n c → IsServing told n (served f p c)
      served-IsServing p c h = elim (Bool-cases c.packet_processor) [
        | inl set ↦ ground (arith, packets_tell_not p c.user)
        | inr unset ↦ ground arith
      ]

  ended :
      (n : ℕ) (buf : Buffer) (c : Client U)
      → IsServing told n c
      → GoesOn told n (except_error e on_packet on_over (buf, c))
  ended n buf c h =
      rw (except_error-gone e on_packet on_over f g users buf c h.0)
        (refl, inr (refl, refl, ground (arith, over_tells c.user)))

  ends-GoesOn :
      (n : ℕ) (buf : Buffer) (c : Client U)
      → IsServing told n c
      → GoesOn told n (on_read e on_packet on_over none (buf, c))
  unfolding on_read
  ends-GoesOn n buf c h =
      rw (with_this-here buf c h.0) (ended n buf (record c { reading = false }) h)

  -- `on_read` goes by what `handle` did.
  after_handle :
      (n : ℕ) (r : Outcome ℕ × World U)
      → IsSafe (IsServing told n) recv_capacity r
      → GoesOn told n (caught (except_error e on_packet on_over) r)
  after_handle n (done a, (buf, c)) safe = (refl, inl (safe.3, safe.1, safe.2))
  after_handle n (throw x, (buf, c)) safe = ended n buf c safe.3
  after_handle n (fault, (buf, c)) safe = absurd safe.0

  arrives-GoesOn :
      (n : ℕ) (bytes : List ℕ) (buf : Buffer) (c : Client U)
      → IsServing told n c
      → IsValid buf
      → buf.capacity ≡ recv_capacity
      → GoesOn told n (on_read e on_packet on_over (some bytes) (buf, c))
  unfolding on_read on_buffer
  arrives-GoesOn n bytes buf c h v size =
      elim (Bool-cases (ltb buf.capacity (buf.ptr + length bytes))) [
        | inl full ↦
            rw (with_this-here buf c h.0, append-full v bytes (ltb→lt _ _ full)) (ended n buf c h)
        | inr room ↦
            let fits : buf.ptr + length bytes ≤ buf.capacity = ltb-false→le _ _ room in
            rw (with_this-here buf c h.0, append-room v bytes fits)
              (after_handle n _ (
                subst
                  (λ k. IsSafe (IsServing told n) k (
                    handle (λ c'. c'.alive) e (some (process e on_packet on_over))
                      (added buf bytes, c)))
                  size
                  (handle-IsSafe (λ c'. c'.alive) e (process e on_packet on_over) (served f)
                    (IsServing told n) (process-Behaves n) (added buf bytes) c
                    (written-IsValid v buf.ptr (buf.ptr + length bytes) bytes fits) (omega arith)
                    h)))
      ]

  pub step-GoesOn :
      (n : ℕ) (ev : Event) (buf : Buffer) (c : Client U)
      → IsServing told n c
      → IsValid buf
      → buf.capacity ≡ recv_capacity
      → GoesOn told n (step e on_packet on_over ev (buf, c))
  unfolding step send on_written
  step-GoesOn n (arrives bytes) buf c h v size = arrives-GoesOn n bytes buf c h v size
  step-GoesOn n ends buf c h v size = ends-GoesOn n buf c h
  step-GoesOn n (sends false written) buf c h v size =
      rw (with_this-here buf c h.0) (refl, inl (h, v, size))
  step-GoesOn n (sends true true) buf c h v size =
      rw (with_this-here buf c h.0) (refl, inl (h, v, size))
  step-GoesOn n (sends true false) buf c h v size = rw (with_this-here buf c h.0) (ended n buf c h)
  step-GoesOn n (sent true) buf c h v size = ended n buf c h
  step-GoesOn n (sent false) buf c h v size = (refl, inl (h, v, size))
