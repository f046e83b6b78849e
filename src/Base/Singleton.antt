-- ===== src/Base/Singleton.antt =====
-- base/singleton.h: `Singleton::instance` on any number of threads, whose steps alternate as a
-- schedule says; each read or write of `ptr_` is one step, in one order for all threads. And
-- `destory`.
pub mod Once
pub mod Alone
mod Destroyed
use libra_core.Common.{
  ℕ, ◌+◌, Bool, true, false, Option, some, none, List, [], ◌∷◌, Exec, ◌>>=◌, ◌>>◌, done, fault,
  ◌==◌, if◌then◌else◌,
}

-- Where a thread is in `instance`, and what it has got.
pub data Point : Type 0 where
  outside at_lock at_test at_create at_unlock at_return : Point
  returned : Option ℕ → Point

-- `ptr_`, the thread that holds `m_`, how many objects were created, and where the threads are. An
-- object is the number of those before it.
pub record Shared : Type 0 where
  pub ptr : Option ℕ
  pub holder : Option ℕ
  pub created : ℕ
  pub threads : ℕ → Point

unfoldable pub is_null : Option ℕ → Bool
is_null none = true
is_null (some p) = false

-- A thread goes on to a point.
unfoldable pub go_to : ℕ → Point → Shared → Shared
go_to t p s = record s { threads = λ u. if u == t then p else s.threads u }

-- One step of a thread; a thread that finds the mutex taken waits.
unfoldable pub move : ℕ → Point → Shared → Shared
unfolding is_null go_to
move t outside s = go_to t (if is_null s.ptr then at_lock else at_return) s
move t at_lock s = if is_null s.holder then go_to t at_test (record s { holder = some t }) else s
move t at_test s = go_to t (if is_null s.ptr then at_create else at_unlock) s
move t at_create s = go_to t at_unlock (record s { ptr = some s.created; created = s.created + 1 })
move t at_unlock s = go_to t at_return (record s { holder = none })
move t at_return s = go_to t (returned s.ptr) s
move t (returned p) s = s

unfoldable pub advance : ℕ → Shared → Shared
unfolding move
advance t s = move t (s.threads t) s

-- The steps of the threads that a schedule names.
unfoldable pub run : List ℕ → Shared → Shared
unfolding advance
run [] s = s
run (t ∷ ts) s = run ts (advance t s)

unfoldable pub at_first : Shared
at_first = record { ptr = none; holder = none; created = 0; threads = λ u. outside }

-- `destory` by one thread, on `ptr_` and whether its object exists: to delete an object twice is a
-- fault. `ptr_` stays.
abbrev pub Held : Type 0
Held = Option ℕ × Bool

unfoldable pub destory : Exec Held (Unit {0})
destory (none, exists) = (done tt, (none, exists))
destory (some p, true) = (done tt, (some p, false))
destory (some p, false) = (fault, (some p, false))

-- `instance` by one thread, and a use of what it answers.
unfoldable pub instance_alone : Exec Held ℕ
instance_alone (none, exists) = (done 0, (some 0, true))
instance_alone (some p, exists) = (done p, (some p, exists))

unfoldable pub use_instance : Exec Held (Unit {0})
unfolding instance_alone
use_instance = do p ← instance_alone; λ (h : Held). (if h.1 then done tt else fault, h)
