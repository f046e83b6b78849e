-- ===== src/Uv/Reading/Freed.antt =====
-- uv/stream.h: every buffer of a read is deleted once.
use libra_core.Common.{ℕ, List, [], ◌∷◌, Option, none, some, Outcome, Exec, ◌>>◌, pure, length}
use libra_core.Common.{ℤ, pos, negsuc}
use libra_core.Uv.Reading.{Reading, Report, arrived, failed, alloc, report}

-- A read: the size that libuv suggests, and what it then reports.
abbrev pub OneRead : Type 0
OneRead = ℕ × Report

abbrev pub given_by : Report → Option (List ℕ) × ℤ
given_by (arrived bytes) = (some bytes, pos (length bytes))
given_by (failed n) = (none, negsuc n)

abbrev pub Callback : Type 0
Callback = Option (List ℕ) → ℤ → Outcome (Unit {0})

abbrev pub answer : Callback → Report → Outcome (Unit {0})
answer callback nread = callback (given_by nread).0 (given_by nread).1

-- Reads in turn, for a `read_start<max_alloc_size>`, up to the first that throws.
abbrev pub reads : ℕ → Callback → List OneRead → Exec Reading (Unit {0})
reads max_alloc_size callback [] = pure tt
reads max_alloc_size callback (a ∷ as') = do
  alloc max_alloc_size a.0
  report callback a.1
  reads max_alloc_size callback as'
