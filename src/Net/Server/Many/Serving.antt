-- ===== src/Net/Server/Many/Serving.antt =====
-- net/tcp_server.cpp: what becomes of every client of a server, and how often the program is told.
use libra_core.Common.{
  ℕ, ◌+◌, ◌≡◌, refl, sym, ap, subst, Bool, true, false, List, [], ◌∷◌, ◌⊎◌, inl, inr, arith,
  Outcome, Exec, done, throw, fault, proceed, if◌then◌else◌, All, if-true,
}
use libra_core.Base.Buffer.{Buffer, IsValid}
use libra_core.Base.Buffer.Parts.{dynamic_buffer-IsValid, dynamic_buffer-capacity}
use libra_core.Base.Bytes.{Endian}
use libra_core.Net.Packet.{ReaderPacket}
use libra_core.Net.Server.{Client, World, recv_capacity, on_connection}
use libra_core.Net.Server.Lifetime.{Users}
use libra_core.Net.Server.Dangling.{on_connection_lem}
use libra_core.Net.Server.Events.{Event, step, IsServing, GoesOn, step-GoesOn}
use libra_core.Net.Server.Many.{Incident, connects, reports, one}
use libra_core.Uv.Loop.{alone, only, many, many-alone, only-All}

-- No client, or one in service.
abbrev pub InOrder : {U : Type 0} → (U → ℕ) → World U → Type 0
InOrder told (buf, c) =
    (c.alive ≡ false)
    ⊎ (IsServing told (told c.user) c × IsValid buf × (buf.capacity ≡ recv_capacity))

-- The ends that the program was told of, and the one that it is still to be told of.
abbrev pub ends_due : {U : Type 0} → (U → ℕ) → World U → ℕ
ends_due told (buf, c) = told c.user + (if c.alive then 1 else 0)

-- A connection that is taken has a peer with a name.
abbrev pub IsNamed : Incident → Type 0
IsNamed (connects failed accepted peer started) = failed ≡ false → accepted ≡ true → peer ≡ true
IsNamed (reports ev) = Unit

-- `new` puts a client where none is; a callback of a client comes while it is there.
abbrev pub IsInTime : {U : Type 0} → Incident → World U → Type 0
IsInTime (connects failed accepted peer started) w = w.1.alive ≡ false
IsInTime (reports ev) w = w.1.alive ≡ true

-- Whether a client is put into service.
abbrev pub starts : Incident → ℕ
starts (connects failed accepted peer started) = if failed then 0 else if accepted then 1 else 0
starts (reports ev) = 0

abbrev pub started : List Incident → ℕ
started [] = 0
started (x ∷ xs) = starts x + started xs

module _ {U : Type 0} (e : Endian) (on_packet : ReaderPacket → Exec (World U) (Unit {0}))
    (on_over : Exec (World U) (Unit {0})) where
  -- The same of what is called for one address.
  abbrev pub InTime : List Incident → World U → Type 0
  InTime [] w = Unit
  InTime (x ∷ xs) w = IsInTime x w × InTime xs (one e on_packet on_over x w).1

module _ {U : Type 0} (e : Endian) (on_packet : ReaderPacket → Exec (World U) (Unit {0}))
    (on_over : Exec (World U) (Unit {0})) (f : ReaderPacket → U → U) (g : U → U)
    (users : Users on_packet on_over f g) (told : U → ℕ)
    (packets_tell_not : (p : ReaderPacket) (u : U) → told (f p u) ≡ told u)
    (over_tells : (u : U) → told (g u) ≡ told u + 1) where
  Keeps : ℕ → ℕ → Outcome (Unit {0}) × World U → Type 0
  Keeps due n (r, w) = (r ≡ done tt) × InOrder told w × (ends_due told w ≡ due + n)

  GoesOn-Keeps : (n : ℕ) (o : Outcome (Unit {0}) × World U) → GoesOn told n o → Keeps (n + 1) 0 o
  unfolding Keeps
  GoesOn-Keeps n (r, (buf, c)) (ok, inl (s, v, k)) =
      (ok, inr ((s.0, s.1, s.2, refl), v, k), rw (s.0) (omega (arith, s.3)))
  GoesOn-Keeps n (r, (buf, c)) (ok, inr over) =
      (ok, inl over.0, rw (over.0) (omega (arith, over.2)))

  unchanged : (w : World U) → InOrder told w → Keeps (ends_due told w) 0 (done tt, w)
  unfolding Keeps
  unchanged w order = (refl, order, omega arith)

  report-Keeps :
      (ev : Event) (buf : Buffer) (c : Client U)
      → c.alive ≡ true
      → InOrder told (buf, c)
      → Keeps (ends_due told (buf, c)) 0 (one e on_packet on_over (reports ev) (buf, c))
  unfolding one
  report-Keeps ev buf c here (inl absent) = cc
  report-Keeps ev buf c here (inr (s, v, k)) =
      subst (λ due. Keeps due 0 (step e on_packet on_over ev (buf, c)))
        (ap (λ n. told c.user + n) (sym (if-true c.alive 1 0 s.0)))
        (GoesOn-Keeps (told c.user) _ (
          step-GoesOn e on_packet on_over f g users told packets_tell_not over_tells (told c.user)
            ev buf c s v k))

  taken-Keeps :
      (failed accepted peer go : Bool) (buf : Buffer) (c : Client U)
      → IsNamed (connects failed accepted peer go)
      → c.alive ≡ false
      → Keeps
          (ends_due told (buf, c))
          (if failed then 0 else if accepted then 1 else 0)
          (on_connection e on_packet on_over failed accepted peer go (buf, c))
  unfolding Keeps
  taken-Keeps true accepted peer go buf c named absent =
      rw ((on_connection_lem e on_packet on_over f g users go buf c).0 accepted peer)
        (unchanged (buf, c) (inl absent))
  taken-Keeps false false peer go buf c named absent =
      rw ((on_connection_lem e on_packet on_over f g users go buf c).1 peer)
        (unchanged (buf, c) (inl absent))
  taken-Keeps false true false go buf c named absent = cc (named refl refl)
  taken-Keeps false true true go buf c named absent =
      rw ((on_connection_lem e on_packet on_over f g users go buf c).2) (
        refl,
        inr (
          (refl, refl, refl, refl),
          dynamic_buffer-IsValid recv_capacity (omega arith),
          dynamic_buffer-capacity recv_capacity,
        ),
        rw absent (omega arith),
      )

  one-Keeps :
      (x : Incident) (w : World U)
      → IsNamed x
      → IsInTime x w
      → InOrder told w
      → Keeps (ends_due told w) (starts x) (one e on_packet on_over x w)
  unfolding one
  one-Keeps (connects failed accepted peer go) (buf, c) named absent order =
      taken-Keeps failed accepted peer go buf c named absent
  one-Keeps (reports ev) (buf, c) named here order = report-Keeps ev buf c here order

  next-Keeps :
      (due n m : ℕ) (o : Outcome (Unit {0}) × World U) (k : Exec (World U) (Unit {0}))
      → Keeps due n o
      → (InOrder told o.1 → Keeps (ends_due told o.1) m (k o.1))
      → Keeps due (n + m) (proceed (λ _. k) o)
  unfolding Keeps
  next-Keeps due n m (done a, w) k (ok, order, counted) then_on =
      let (ok', order', counted') = then_on order in (ok', order', omega (arith, counted, counted'))
  next-Keeps due n m (throw x, w) k (ok, order, counted) then_on = cc
  next-Keeps due n m (fault, w) k (ok, order, counted) then_on = cc

  alone-Keeps :
      (xs : List Incident) (w : World U)
      → All IsNamed xs
      → InTime e on_packet on_over xs w
      → InOrder told w
      → Keeps (ends_due told w) (started xs) (alone (one e on_packet on_over) xs w)
  unfolding alone
  alone-Keeps [] w named times order = unchanged w order
  alone-Keeps (x ∷ xs) w named times order =
      next-Keeps (ends_due told w) (starts x) (started xs) (one e on_packet on_over x w)
        (alone (one e on_packet on_over) xs) (one-Keeps x w named.0 times.0 order)
        (alone-Keeps xs (one e on_packet on_over x w).1 named.1 times.1)

  pub many-InOrder :
      (xs : List (ℕ × Incident)) (ws : ℕ → World U)
      → All (λ x. IsNamed x.1) xs
      → ((j : ℕ) → InTime e on_packet on_over (only j xs) (ws j))
      → ((j : ℕ) → InOrder told (ws j))
      → (ws' : ℕ → World U) × (many (one e on_packet on_over) xs ws ≡ (done tt, ws'))
        × ((j : ℕ)
            → (alone (one e on_packet on_over) (only j xs) (ws j) ≡ (done tt, ws' j))
              × InOrder told (ws' j)
              × (ends_due told (ws' j) ≡ ends_due told (ws j) + started (only j xs)))
  unfolding Keeps
  many-InOrder xs ws named times order = (
    λ j. (alone (one e on_packet on_over) (only j xs) (ws j)).1,
    many-alone (one e on_packet on_over) xs ws (λ j. (each j).0),
    λ j. (
      ap (λ r. (r, (alone (one e on_packet on_over) (only j xs) (ws j)).1)) (each j).0,
      (each j).1,
      (each j).2,
    ),
  )
    where
      each :
          (j : ℕ)
          → Keeps
              (ends_due told (ws j))
              (started (only j xs))
              (alone (one e on_packet on_over) (only j xs) (ws j))
      each j = alone-Keeps (only j xs) (ws j) (only-All IsNamed j xs named) (times j) (order j)
