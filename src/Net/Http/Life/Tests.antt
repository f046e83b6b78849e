-- ===== src/Net/Http/Life/Tests.antt =====
-- net/http.cpp: the theorems on the lives of the objects, at one program and one address.
use libra_core.Common.{◌>>◌, ◌≤◌, pos}
use libra_core.Net.Http.Life
use libra_core.Net.Http.Life.{
  parse, write_reported, on_socket, sent_callback, no_callback, create_server, on_connection,
}
use libra_core.Net.Http.Life.Freeing.{
  count_true, sends, all_exist, all_freed, closing_handle, send-sent,
}
use libra_core.Net.Http.Life.Starting.{IsGoing, create_server-listens}
use libra_core.Net.Address.{Ipv4, from_host}
use libra_core.Base.Bytes.{little}
use libra_core.Uv.Tcp.{is_zero}
use libra_core.Uv.Stream.{Handle, new_handle, happens, listening, closed}
use libra_core.Uv.Stream.Slots.{handle_of}
use libra_core.Common.{
  ℕ, ◌≡◌, true, false, some, none, List, [], ◌∷◌, done, throw, fault, Text, codes, Option,
  if◌then◌else◌, length, ◌==◌, ◌&&◌, Exception,
}

-- A refused answer, and one that is taken.
send-sent_example :
    (count_true (false ∷ true ∷ []) ≡ 0
      → (h : Handle) × ((do parse true; sends (false ∷ true ∷ [])) Life.new_context
          ≡ (done tt, (all_exist, h)))
        × (h.pending ≡ 0))
    × (1 ≤ count_true (false ∷ true ∷ [])
        → ((do parse true; sends (false ∷ true ∷ []); write_reported) Life.new_context
            ≡ (done tt, (all_freed, closing_handle 0)))
          × ((do parse true; sends (false ∷ true ∷ []); write_reported; on_socket closed)
                Life.new_context
              ≡ (
                done tt,
                (all_freed, handle_of false true [] 0 (sent_callback ∷ no_callback ∷ [])),
              )))
    × (2 ≤ count_true (false ∷ true ∷ [])
        → ((do parse true; sends (false ∷ true ∷ []); write_reported; write_reported)
            Life.new_context).0
          ≡ fault)
send-sent_example = send-sent true (false ∷ true ∷ [])

-- `uv_inet_pton` that knows one text.
abbrev known_host : Text → Option (List ℕ)
known_host ip = if length ip == 7 then some (0 ∷ 0 ∷ 0 ∷ 0 ∷ []) else none

abbrev unknown_host : Text → Option (List ℕ)
unknown_host ip = none

create_server-listens_example :
    ((a : Ipv4)
      → from_host known_host unknown_host little (codes "0.0.0.0") 80 ≡ done a
      → (h : Handle) × (create_server known_host unknown_host little
            (λ a'. pos 0)
            (codes "0.0.0.0")
            80
            5
            true
            new_handle
          ≡ (done (is_zero (pos 0) && true), h))
        × (is_zero (pos 0) && true ≡ true
            → (h.closing ≡ false) × (happens listening h ≡ (done tt, record h { called = 5 ∷ [] })))
        × (is_zero (pos 0) && true ≡ false → IsGoing h))
    × ((x : Exception)
        → from_host known_host unknown_host little (codes "0.0.0.0") 80 ≡ throw x
        → (h : Handle) × (create_server known_host unknown_host little
              (λ a'. pos 0)
              (codes "0.0.0.0")
              80
              5
              true
              new_handle
            ≡ (throw x, h))
          × IsGoing h)
    × (length (on_connection false true []) ≡ 1)
    × (on_connection true true [] ≡ [])
create_server-listens_example =
    create_server-listens known_host unknown_host little (λ a'. pos 0) (codes "0.0.0.0") 80 5 true
      true []
