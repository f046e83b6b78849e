-- ===== src/Net/Http/Life/Freeing.antt =====
-- net/http.cpp: when the objects of a connection are freed.
use libra_core.Common.{
  ℕ, suc, ◌+◌, ◌-◌, ◌≤◌, ◌≡◌, refl, ap, ◌∙◌, Bool, true, false, Option, none, some, List, [], ◌∷◌,
  Exec, ◌>>◌, pure, done, fault, arith, if◌then◌else◌,
}
use libra_core.Uv.Callbacks.{Lut, Slot, store, invoke, slot_of, callback_of, new_lut}
use libra_core.Uv.Stream.{
  Handle, new_handle, close, closed, read_start, write, call_slot, end_write, void_function, on_lut,
  request, begin_write, start_close,
}
use libra_core.Uv.Stream.Slots.{handle_of, write_slot}
use libra_core.Net.Http.Life.{
  Life, Served, new_context, new_messages, parse, with_response, send, destroy, reset_client,
  write_reported, on_socket, reads_callback, sent_callback, no_callback,
}

-- Calls of `end`, by what the writes answer.
abbrev pub sends : List Bool → Exec Served (Unit {0})
sends [] = pure tt
sends (accepted ∷ bs) = do send accepted; sends bs

abbrev pub count_true : List Bool → ℕ
count_true [] = 0
count_true (b ∷ bs) = let rest = count_true bs in if b then suc rest else rest

abbrev pub all_exist : Life
all_exist = record {
  context = true;
  request = true;
  response = true;
  callback_lut = true;
  client = true;
  freed = 0;
}

abbrev pub all_freed : Life
all_freed = record {
  context = false;
  request = false;
  response = false;
  callback_lut = false;
  client = false;
  freed = 1;
}

abbrev pub read_slot : Option Slot
read_slot = some (record { callback_t = 3; callback = reads_callback; user_data = none })

-- The table with what its slots for the closing and for the writes hold.
abbrev pub table : Option Slot → Option Slot → Lut
table c w = c ∷ none ∷ read_slot ∷ w ∷ none ∷ none ∷ none ∷ []

abbrev pub sent_handle : ℕ → Handle
sent_handle p = handle_of true false (table none (write_slot sent_callback)) p []

pub sends_from :
    (bs : List Bool) (p : ℕ)
    → sends bs (all_exist, sent_handle p) ≡ (done tt, (all_exist, sent_handle (p + count_true bs)))
unfolding send with_response on_socket write on_lut store begin_write
sends_from [] p = ap (λ q. (done tt, (all_exist, sent_handle q))) (omega arith)
sends_from (true ∷ bs) p =
    sends_from bs (p + 1) ∙ ap (λ q. (done tt, (all_exist, sent_handle q))) (omega arith)
sends_from (false ∷ bs) p = sends_from bs p

-- The first call of `end`, where libuv takes its write.
pub sends_one :
    sends (true ∷ []) (all_exist, handle_of true false (table none none) 0 [])
    ≡ (done tt, (all_exist, sent_handle 1))
unfolding send with_response on_socket write on_lut store begin_write
sends_one = refl

pub parse_lem :
    (started : Bool)
    → parse started new_context
      ≡ (done true, (all_exist, handle_of true false (table none none) 0 []))
unfolding parse new_context new_messages read_start on_socket request on_lut store new_handle
    new_lut
parse_lem started = refl

-- The refused calls before the first that is taken leave the table in one of two shapes.
pub sends_first :
    (bs : List Bool)
    → (h : Handle) × (sends bs (all_exist, handle_of true false (table none none) 0 [])
        ≡ (done tt, (all_exist, h)))
      × (h.pending ≡ count_true bs)
      × (1 ≤ count_true bs → h ≡ sent_handle (count_true bs))
unfolding send with_response on_socket write on_lut store begin_write
sends_first [] =
    (handle_of true false (table none none) 0 [], refl, refl, λ h. absurd (omega arith))
sends_first (true ∷ bs) = (
  sent_handle (1 + count_true bs),
  sends_from bs 1,
  omega arith,
  λ h. ap sent_handle (omega arith),
)
sends_first (false ∷ bs) = (
  sent_handle (0 + count_true bs),
  sends_from bs 0,
  omega arith,
  λ h. ap sent_handle (omega arith),
)

-- The handle once the context is freed.
abbrev pub closing_handle : ℕ → Handle
closing_handle p =
    handle_of true true
      (table
        (some (record { callback_t = void_function; callback = no_callback; user_data = none }))
        (write_slot sent_callback))
      p (sent_callback ∷ [])

pub sent_frees :
    (p : ℕ)
    → write_reported (all_exist, sent_handle p) ≡ (done tt, (all_freed, closing_handle (p - 1)))
unfolding write_reported on_socket call_slot with_response reset_client end_write on_lut invoke
    callback_of slot_of destroy close start_close store
sent_frees p = refl

sent_twice : (p : ℕ) → (write_reported (all_freed, closing_handle p)).0 ≡ fault
unfolding write_reported on_socket call_slot with_response reset_client end_write on_lut invoke
    callback_of slot_of
sent_twice p = refl

pub closed_last :
    (p : ℕ)
    → on_socket closed (all_freed, closing_handle p)
      ≡ (done tt, (all_freed, handle_of false true [] p (sent_callback ∷ no_callback ∷ [])))
unfolding closed on_socket call_slot on_lut invoke callback_of slot_of
closed_last p = refl

-- A context that parses, and then any calls of `response::end`, taken by libuv or refused. While no
-- write was taken, nothing is freed, and nothing will be. Once one was taken, the report of a write
-- frees the context, the request, the response and the table of the callback, each once, and starts
-- the closing of the socket, whose end deletes the handle. When two were taken, the second report
-- uses the response that the first has freed, which is a fault.
pub send-sent :
    (started : Bool) (bs : List Bool)
    → (count_true bs ≡ 0
        → (h : Handle) × ((do parse started; sends bs) new_context ≡ (done tt, (all_exist, h)))
          × (h.pending ≡ 0))
      × (1 ≤ count_true bs
          → ((do parse started; sends bs; write_reported) new_context
              ≡ (done tt, (all_freed, closing_handle (count_true bs - 1))))
            × ((do parse started; sends bs; write_reported; on_socket closed) new_context ≡ (
              done tt,
              (
                all_freed,
                handle_of false true [] (count_true bs - 1) (sent_callback ∷ no_callback ∷ []),
              ),
            )))
      × (2 ≤ count_true bs
          → ((do parse started; sends bs; write_reported; write_reported) new_context).0 ≡ fault)
send-sent started bs =
    let (h, run, left, shape) = sends_first bs in
    (
      λ z. (h, rw (parse_lem started) run, left ∙ z),
      λ o. (
        rw (parse_lem started, run, shape o, sent_frees (count_true bs)) refl,
        rw (parse_lem started, run, shape o, sent_frees (count_true bs)) (closed_last _),
      ),
      λ t.
          rw (parse_lem started, run, shape (omega arith), sent_frees (count_true bs))
            (sent_twice _),
    )
