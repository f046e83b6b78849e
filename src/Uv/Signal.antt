-- ===== src/Uv/Signal.antt =====
-- uv/signal_.h, uv/signal_.cpp: the handlers of signals.
pub mod Binds
use libra_core.Common.{
  ℕ, ◌+◌, ◌≡◌, ◌==◌, Option, some, true, raise, Bool, false, none, Exec, ◌>>◌, ◌>>=◌, pure, done,
  throw, ltb, leb, if◌then◌else◌,
}
use libra_core.Common.{ℤ, pos, negsuc, params_error}
use libra_core.Common.{uv_error, Outcome}
use libra_core.Uv.Tcp.{is_zero}
use libra_core.Uv.Callbacks.{Lut, new_lut, store, invoke}

abbrev pub max_signs : ℕ
max_signs = 64

-- The constructor's table: a slot for each number up to `max_signs`.
unfoldable pub new_signal : Lut
unfolding new_lut
new_signal = new_lut (max_signs + 1)

-- The constructor, by what `uv_signal_init` answers.
unfoldable pub make_signal : ℤ → Outcome Lut
unfolding is_zero new_signal
make_signal r = if is_zero r then done new_signal else throw (uv_error r)

-- `signal_num < 1 || signal_num > MAX_SIGNS`
unfoldable pub is_signal : ℤ → Bool
is_signal (pos n) = if ltb n 1 then false else leb n max_signs
is_signal (negsuc n) = false

-- The number of a signal that passes the test.
abbrev index_of : ℤ → ℕ
index_of (pos n) = n
index_of (negsuc n) = 0

-- The type `std::function<void(int)>`.
abbrev pub int_function : ℕ
int_function = 2

-- libuv's handle: it watches for one signal at a time, that of its last start, as its documentation
-- says; `start` and `stop` tell whether they have answered 0.
pub record UvSignal : Type 1 where
  pub State : Type 0
  pub watches : State → Option ℕ
  pub start : ℕ → State → Bool × State
  pub stop : State → Bool × State
  pub start-watches : (n : ℕ) (s : State) → (start n s).0 ≡ true → watches (start n s).1 ≡ some n
  pub stop-watches : (s : State) → (stop s).0 ≡ true → watches (stop s).1 ≡ none

abbrev is_watching : Option ℕ → ℕ → Bool
is_watching none n = false
is_watching (some m) n = m == n

module _ (uv : UvSignal) where
  abbrev pub Signal : Type 0
  Signal = uv.State × Lut

  abbrev on_table : {A : Type 0} → Exec Lut A → Exec Signal A
  on_table m (s, lut) = let (o, lut') = m lut in (o, (s, lut'))

  unfoldable pub start_signal : ℕ → Exec Signal Bool
  start_signal n (s, lut) = let (started, s') = uv.start n s in (done started, (s', lut))

  unfoldable pub bind : ℤ → ℕ → Exec Signal Bool
  unfolding is_signal store start_signal
  bind signal_num callback =
      if is_signal signal_num
      then (do
        on_table (store int_function (index_of signal_num) callback none)
        start_signal (index_of signal_num))
      else raise params_error

  unfoldable pub cancel : Exec Signal Bool
  cancel (s, lut) = let (stopped, s') = uv.stop s in (done stopped, (s', lut))

  -- A signal comes: the callback that is called, where the handle watches for it.
  unfoldable pub raised : ℕ → Exec Signal (Option ℕ)
  unfolding invoke
  raised signum (s, lut) =
      if is_watching (uv.watches s) signum
      then (do c ← on_table (invoke int_function signum); pure (some c)) (s, lut)
      else (done none, (s, lut))
