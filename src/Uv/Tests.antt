-- ===== src/Uv/Tests.antt =====
-- uv/: the theorems at concrete handles and requests.
use libra_core.Uv.Stream.Lifecycle
use libra_core.Uv.Stream.Lifecycle.{Step, here, later}
use libra_core.Uv.Stream.Closing.{close-ends}
use libra_core.Uv.Stream.{new_handle, begin_write, start_close, on_lut}
use libra_core.Uv.Callbacks.{Slot, store}
use libra_core.Common.{◌>>=◌, pure}
use libra_core.Uv.Apply.{apply, apply_from, with_argument, invoke_by_tuple}
use libra_core.Uv.Apply.Unpacked.{invoke_by_tuple-unpacked}
use libra_core.Uv.Reading.{Reading, null, arrived, failed}
use libra_core.Uv.Reading.Freed.{OneRead}
use libra_core.Uv.Tcp.{is_zero, connect_to, bind_to}
use libra_core.Uv.Tcp.Connecting.{connect_to-answers}
use libra_core.Net.Address.{Ipv4, from_host}
use libra_core.Base.Bytes.{little}
use libra_core.Uv.Stream.{connecting}
use libra_core.Common.{
  ℕ, ◌≡◌, ◌≢◌, refl, Bool, true, false, none, [], ◌∷◌, arith, Outcome, ◌>>◌, done, throw, length,
  List, Option, Text, ℤ, if◌then◌else◌, codes, reader_stop, some, ◌==◌, ◌+◌, Exception,
}
use libra_core.Common.{pos, params_error}
use libra_core.Uv.Callbacks.{Lut, new_lut, invoke, callback_of, slot_of}
use mathlib.Core.List.{Forall₂}
use libra_core.Uv.Signal.{UvSignal, Signal, bind, cancel, raised, new_signal}
use libra_core.Uv.Signal.Binds.{Call, binds, cancels, IsSignal, Answers, calls, calls-raised}
use libra_core.Uv.Stream.Kinds.{requests, requests-happens}
use libra_core.Uv.Stream.{
  Kind, reading, writing, listening, happens, Handle, uv_cid_max, write, close, closed, connecting,
}
use libra_core.Uv.Stream.Slots.{handle_of, writes, reports, writes-reports}

abbrev stream : Handle
stream = handle_of true false (new_lut uv_cid_max) 0 []

-- A write, a second while the first is under way, and one that libuv refuses.
writes-reports_example :
    (h' : Handle) × ((do writes ((10, true) ∷ (11, true) ∷ (12, false) ∷ []); reports 2) stream
      ≡ (done tt, h'))
    × (h'.called ≡ 12 ∷ 12 ∷ [])
    × (h'.pending ≡ 0)
writes-reports_example =
    writes-reports 10 true ((11, true) ∷ (12, false) ∷ []) stream refl
      (unfold new_lut in omega arith) refl

-- A handle of libuv that takes every call.
abbrev one_watch : UvSignal
one_watch = record {
  State = Option ℕ;
  watches = λ s. s;
  start = λ n s. (true, some n);
  stop = λ s. (true, none);
  start-watches = λ n s h. refl;
  stop-watches = λ s h. refl;
}

-- A number past the last signal, then 15, an end of it and 2.
abbrev four_calls : List Call
four_calls = binds (pos 70) 7 ∷ binds (pos 15) 9 ∷ cancels ∷ binds (pos 2) 8 ∷ []

abbrev signal_then : Signal one_watch
signal_then = (calls one_watch four_calls (none, new_signal)).1

calls-raised_example :
    Forall₂ Answers (calls one_watch four_calls (none, new_signal)).0 four_calls
    × ((w' : Signal one_watch) × (bind one_watch (pos 15) 9 signal_then ≡ (done true, w'))
        × (raised one_watch 15 w' ≡ (done (some 9), w'))
        × ((k : ℕ) → 15 ≢ k → raised one_watch k w' ≡ (done none, w'))
        × ((n : ℤ) (c : ℕ) → ¬ IsSignal n → bind one_watch n c w' ≡ (throw params_error, w'))
        × (true ≡ true → (k : ℕ) → (raised one_watch k (cancel one_watch w').1).0 ≡ done none))
calls-raised_example =
    calls-raised one_watch four_calls 15 9 (none, new_signal) (unfold new_signal new_lut in refl)
      (omega arith) (omega arith) refl

-- A read under way, a write, another read and a listen.
abbrev mixed : List (Kind × (ℕ × Bool))
mixed =
    (reading, (20, true))
    ∷ (writing, (21, true))
    ∷ (reading, (22, false))
    ∷ (listening, (23, true))
    ∷ []

requests-happens_example :
    (h' : Handle) × (requests mixed stream ≡ (done tt, h'))
    × (happens writing h' ≡ (done tt, record h' { called = 21 ∷ [] }))
requests-happens_example =
    requests-happens mixed writing 21 stream refl (unfold new_lut in omega arith) refl

-- A callback that adds its number to the count of its arguments, and two arguments.
abbrev add_count : ℕ → List ℕ → ℕ
add_count c args = c + length args

abbrev two_arguments : List ℕ
two_arguments = 4 ∷ 5 ∷ []

-- A table with a callback in its first slot.
abbrev one_stored : Lut
one_stored = some (record { callback_t = 1; callback = 42; user_data = none }) ∷ none ∷ []

invoke_by_tuple-unpacked_example :
    ((f : List ℕ → ℕ) → apply f two_arguments ≡ some (f two_arguments))
    × (invoke_by_tuple add_count 1 0 two_arguments one_stored
        ≡ (do c ← invoke 1 0; pure (some (add_count c two_arguments))) one_stored)
invoke_by_tuple-unpacked_example = invoke_by_tuple-unpacked add_count 1 0 two_arguments one_stored

-- The arguments reach the function in their order.
apply_run : apply (λ args. args) two_arguments ≡ some two_arguments
unfolding apply apply_from with_argument
apply_run = refl

invoke_run : invoke_by_tuple add_count 1 0 two_arguments one_stored ≡ (done (some 44), one_stored)
unfolding invoke_by_tuple invoke callback_of slot_of apply apply_from with_argument
invoke_run = refl

-- A callback of reads that throws at an error.
abbrev picky : Option (List ℕ) → ℤ → Outcome (Unit {0})
picky none len = throw reader_stop
picky (some bytes) len = done tt

abbrev nothing_read : Reading
nothing_read = record { base = null; made = 0; deleted = 0; given = [] }

abbrev two_reads : List OneRead
two_reads = (100, arrived (1 ∷ 2 ∷ [])) ∷ (100, failed 4094) ∷ []

abbrev only_local : Text → Option (List ℕ)
only_local host = if length host == 9 then some (127 ∷ 0 ∷ 0 ∷ 1 ∷ []) else none

abbrev no_ipv6 : Text → Option (List ℕ)
no_ipv6 host = none

connect_to-answers_example :
    (h' : Handle) × (happens connecting h' ≡ (done tt, record h' { called = 8 ∷ [] }))
    × ((ia : List ℕ)
        → only_local (codes "127.0.0.1") ≡ some ia
        → (a : Ipv4) × (from_host only_local no_ipv6 little (codes "127.0.0.1") 80 ≡ done a)
          × (a.sin_addr ≡ ia)
          × (connect_to only_local no_ipv6 little (λ a'. pos 0) (codes "127.0.0.1") 80 8 stream
              ≡ (done (is_zero (pos 0)), h'))
          × (bind_to only_local no_ipv6 little (λ a'. pos 0) (codes "127.0.0.1") 80 stream
              ≡ (done (is_zero (pos 0)), stream)))
    × (only_local (codes "127.0.0.1") ≡ none
        → (x : Exception) × (from_host only_local no_ipv6 little (codes "127.0.0.1") 80 ≡ throw x)
          × (connect_to only_local no_ipv6 little (λ a'. pos 0) (codes "127.0.0.1") 80 8 stream
              ≡ (throw x, h'))
          × (bind_to only_local no_ipv6 little (λ a'. pos 0) (codes "127.0.0.1") 80 stream
              ≡ (throw x, stream)))
connect_to-answers_example =
    connect_to-answers only_local no_ipv6 little (λ a'. pos 0) (codes "127.0.0.1") 80 8 stream refl
      (unfold new_lut in omega arith)

-- A new handle that is closed, and then written to.
abbrev closing_with : Option Slot → ℕ → Handle
closing_with w p =
    handle_of true true
      (some (record { callback_t = 0; callback = 5; user_data = none })
        ∷ none
        ∷ none
        ∷ w
        ∷ none
        ∷ none
        ∷ none
        ∷ [])
      p []

abbrev written : Handle
written = closing_with (some (record { callback_t = 1; callback = 9; user_data = none })) 1

closed_first : close 5 new_handle ≡ (done tt, closing_with none 0)
unfolding close start_close on_lut store new_handle new_lut
closed_first = refl

written_next : write 9 true (closing_with none 0) ≡ (done true, written)
unfolding write on_lut store begin_write
written_next = refl

not_closing : new_handle.closing ≡ false
unfolding new_handle
not_closing = refl

is_there : new_handle.exists ≡ true
unfolding new_handle
is_there = refl

close-ends_example :
    (true ≡ true
      → (closed written ≡ (done tt, record written { exists = false; lut = []; called = 5 ∷ [] }))
        × ((g : ℕ) → close g written ≡ (done tt, written)))
    × (true ≡ false → (h' : Handle) → ¬ Step written h')
close-ends_example =
    close-ends 5 new_handle (closing_with none 0) written here is_there not_closing closed_first
      (later here (Lifecycle.Step.writes 9 true written_next))
