-- ===== src/Uv/Tcp/Connecting.antt =====
-- uv/tcp.cpp with net/address.cpp: connections to what a text names.
use libra_core.Common.{
  ℕ, ◌≤◌, ◌≡◌, refl, true, List, [], ◌∷◌, ◌++◌, Option, some, none, Exception, done, throw, Text,
  length, arith, Option-cases, inl, inr, ◌%◌, ◌^◌, invalid_address, not_implemented,
}
use libra_core.Common.{ℤ, set, get_elem?-set_self}
use libra_core.Base.Bytes.{Endian, swap_h2n, uint16}
use libra_core.Net.Address.{Ipv4, from_host, by_family, make_ipv4}
use libra_core.Uv.Stream.{Handle, connecting, happens, uv_cid_max, request}
use libra_core.Uv.Stream.Kinds.{slot, request_by, happens_by}
use libra_core.Uv.Stream.Slots.{handle_of}
use libra_core.Uv.Tcp.{is_zero, connect_to, bind_to, passes}

-- On a handle that exists. `connect` and `bind` throw for a text that is no IPv4 address; for one that
-- is, they answer whether libuv, given its address, took the call. In every case, also when it throws,
-- `connect` has put its callback in the place of an earlier one, so that the report of an earlier call
-- goes to it; `bind` changes nothing.
pub connect_to-answers :
    (pton4 pton6 : Text → Option (List ℕ)) (e : Endian) (call : Ipv4 → ℤ) (host : Text)
    (port callback : ℕ) (h : Handle)
    → h.exists ≡ true
    → uv_cid_max ≤ length h.lut
    → (h' : Handle) × (happens connecting h'
        ≡ (done tt, record h' { called = h.called ++ (callback ∷ []) }))
      × ((ia : List ℕ)
          → pton4 host ≡ some ia
          → (a : Ipv4) × (from_host pton4 pton6 e host port ≡ done a)
            × (a.sin_addr ≡ ia)
            × (connect_to pton4 pton6 e call host port callback h ≡ (done (is_zero (call a)), h'))
            × (bind_to pton4 pton6 e call host port h ≡ (done (is_zero (call a)), h)))
      × (pton4 host ≡ none
          → (x : Exception) × (from_host pton4 pton6 e host port ≡ throw x)
            × (connect_to pton4 pton6 e call host port callback h ≡ (throw x, h'))
            × (bind_to pton4 pton6 e call host port h ≡ (throw x, h)))
unfolding connect_to bind_to from_host by_family passes
connect_to-answers pton4 pton6 e call host port callback h there long = (
  handle_of h.exists h.closing (set h.lut 5 (slot connecting callback)) h.pending h.called,
  happens_by connecting callback h.exists h.closing _ h.pending h.called there
      (get_elem?-set_self h.lut 5 (slot connecting callback) (omega arith)),
  λ ia known. (
    make_ipv4 ia (swap_h2n e uint16 (port % 2 ^ 16)),
    rw known refl,
    refl,
    rw (known, stored, there) refl,
    rw (known, there) refl,
  ),
  λ other. elim (Option-cases (pton6 host)) [
    | inl neither ↦ (
      invalid_address,
      rw (other, neither) refl,
      rw (other, neither, stored) refl,
      rw (other, neither) refl,
    )
    | inr (ia, six) ↦
        (not_implemented, rw (other, six) refl, rw (other, six, stored) refl, rw (other, six) refl)
  ],
)
  where
    stored : request connecting callback true h ≡ (
      done true,
      handle_of h.exists h.closing (set h.lut 5 (slot connecting callback)) h.pending h.called,
    )
    stored =
        request_by connecting callback true h.exists h.closing h.lut h.pending h.called there long
