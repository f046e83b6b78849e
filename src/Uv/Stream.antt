-- ===== src/Uv/Stream.antt =====
-- uv/handle.h, uv/stream.h: the writes and the closing of a handle. What libuv answers to a call is
-- an argument; `write_done` and `closed` are its calls of the wrapper's functions.
pub mod Slots
pub mod Kinds
pub mod Lifecycle
pub mod Closing
use libra_core.Common.{
  ℕ, ◌+◌, ◌-◌, Bool, true, false, none, List, [], ◌∷◌, ◌++◌, Exec, ◌>>=◌, ◌>>◌, pure, done, fault,
  ◌==◌, if◌then◌else◌,
}
use libra_core.Uv.Callbacks.{Lut, new_lut, store, invoke}

-- `uv_callback_id`
abbrev pub uv_cid_close : ℕ
uv_cid_close = 0

abbrev pub uv_cid_write : ℕ
uv_cid_write = 3

abbrev pub uv_cid_max : ℕ
uv_cid_max = 7

-- The types `std::function<void()>` and `std::function<void(const UVError&)>`.
abbrev pub void_function : ℕ
void_function = 0

abbrev pub error_function : ℕ
error_function = 1

-- Whether the libuv object exists, whether it is closing, its table, how many writes libuv has not
-- reported, and the callbacks that were called.
pub record Handle : Type 0 where
  pub exists : Bool
  pub closing : Bool
  pub lut : Lut
  pub pending : ℕ
  pub called : List ℕ

unfoldable pub new_handle : Handle
unfolding new_lut
new_handle = record {
  exists = true;
  closing = false;
  lut = new_lut uv_cid_max;
  pending = 0;
  called = [];
}

-- A call on the table of a handle that exists.
unfoldable pub on_lut : {A : Type 0} → Exec Lut A → Exec Handle A
on_lut m h = let (r, l) = m h.lut in if h.exists then (r, record h { lut = l }) else (fault, h)

unfoldable pub call_slot : ℕ → ℕ → Exec Handle (Unit {0})
unfolding on_lut invoke
call_slot t cid = do
  f ← on_lut (invoke t cid)
  λ h. (done tt, record h { called = h.called ++ (f ∷ []) })

unfoldable pub begin_write : Bool → Exec Handle Bool
begin_write accepted h =
    (done accepted, record h { pending = if accepted then h.pending + 1 else h.pending })

-- `write`: the callback is stored before libuv is asked.
unfoldable pub write : ℕ → Bool → Exec Handle Bool
unfolding on_lut store begin_write
write callback accepted = do
  on_lut (store error_function uv_cid_write callback none)
  begin_write accepted

unfoldable pub end_write : Exec Handle (Unit {0})
end_write h = (done tt, record h { pending = h.pending - 1 })

unfoldable pub write_done : Exec Handle (Unit {0})
unfolding call_slot end_write
write_done = do call_slot error_function uv_cid_write; end_write

-- `is_closing`, and `close`.
unfoldable pub start_close : ℕ → Exec Handle (Unit {0})
unfolding on_lut store
start_close callback = do
  on_lut (store void_function uv_cid_close callback none)
  λ h. (done tt, record h { closing = true })

unfoldable pub close : ℕ → Exec Handle (Unit {0})
unfolding start_close
close callback h =
    if h.exists then if h.closing then (done tt, h) else start_close callback h else (fault, h)

-- The callback of `uv_close`: the table and the object are deleted.
unfoldable pub closed : Exec Handle (Unit {0})
unfolding call_slot
closed = do
  call_slot void_function uv_cid_close
  λ h. (done tt, record h { exists = false; lut = [] })

-- The other requests that keep a callback: `listen`, `read_start`, `shutdown` of uv/stream.h,
-- `connect` of uv/tcp.cpp, and the timer's `start`.
pub data Kind : Type 0 where
  listening reading writing shutting connecting timing : Kind

abbrev pub cid_of : Kind → ℕ
cid_of listening = 1
cid_of reading = 2
cid_of writing = 3
cid_of shutting = 4
cid_of connecting = 5
cid_of timing = 6

-- The type of the callback in a slot: a read's gets bytes, a timer's nothing, the others an error.
abbrev pub type_by : ℕ → ℕ
type_by cid = if cid == 2 then 3 else if cid == 6 then void_function else error_function

-- A request, by what libuv answers: the callback is stored before libuv is asked.
unfoldable pub request : Kind → ℕ → Bool → Exec Handle Bool
unfolding on_lut store
request k callback accepted = do
  on_lut (store (type_by (cid_of k)) (cid_of k) callback none)
  pure accepted

unfoldable pub listen : ℕ → Bool → Exec Handle Bool
unfolding request
listen = request listening

unfoldable pub read_start : ℕ → Bool → Exec Handle Bool
unfolding request
read_start = request reading

unfoldable pub shutdown : ℕ → Bool → Exec Handle Bool
unfolding request
shutdown = request shutting

unfoldable pub connect : ℕ → Bool → Exec Handle Bool
unfolding request
connect = request connecting

unfoldable pub timer_start : ℕ → Bool → Exec Handle Bool
unfolding request
timer_start = request timing

-- libuv reports an event of a kind.
unfoldable pub happens : Kind → Exec Handle (Unit {0})
unfolding call_slot
happens k = call_slot (type_by (cid_of k)) (cid_of k)

-- `is_active` and `is_closing`, by libuv's answer for a handle that exists. The pointer to it is null
-- in a destroyed wrapper only.
unfoldable pub is_active : Bool → Exec Handle Bool
is_active active h = if h.exists then (done active, h) else (fault, h)

unfoldable pub is_closing : Exec Handle Bool
is_closing h = if h.exists then (done h.closing, h) else (fault, h)
