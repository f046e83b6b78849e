-- ===== src/Base/Format.antt =====
-- base/utility.h: `string_util::format`, and how `snprintf` and a stream print. What `printf` makes of
-- a format and its arguments is an argument.
pub mod Printed
use libra_core.Common.{
  ℕ, zero, suc, ◌+◌, ◌-◌, ◌/◌, ◌%◌, List, [], ◌∷◌, ◌++◌, Outcome, Exec, ◌>>=◌, ◌>>◌, done, fault,
  length, take, replicate, overwrite, ltb, leb, ◌==◌, if◌then◌else◌, Text, codes, throw,
}
use libra_core.Common.{ℤ, pos, negsuc}

-- The digits of a number, as a stream prints it; the first argument bounds their count.
unfoldable pub digits : ℕ → ℕ → Text → Text
digits zero n after = (48 + n % 10) ∷ after
digits (suc fuel) n after =
    let more = digits fuel (n / 10) ((48 + n % 10) ∷ after) in
    if ltb n 10 then (48 + n) ∷ after else more

unfoldable pub decimal : ℕ → Text
decimal n = digits n n []

unfoldable pub print_int : ℤ → Text
unfolding decimal
print_int (pos n) = decimal n
print_int (negsuc n) = codes "-" ++ decimal (n + 1)

-- `snprintf(buf + p, size, …)` on an array: at most `size - 1` bytes and a zero.
unfoldable pub print_at : ℕ → ℕ → Text → Exec (List ℕ) (Unit {0})
print_at p zero text memory = (done tt, memory)
print_at p (suc n) text memory =
    let out = take n text ++ (0 ∷ []) in
    if leb (p + length out) (length memory)
    then (done tt, overwrite p out memory)
    else (fault, memory)

unfoldable pub after_byte : ℕ → Outcome Text → Outcome Text
after_byte c (done s) = done (c ∷ s)
after_byte c (throw e) = throw e
after_byte c fault = fault

-- `std::string(buf)`: the bytes of an array up to its first zero.
unfoldable pub until_zero : List ℕ → Outcome Text
unfolding after_byte
until_zero [] = fault
until_zero (c ∷ s) = let rest = until_zero s in if c == 0 then done [] else after_byte c rest

unfoldable pub c_string : Exec (List ℕ) Text
unfolding until_zero
c_string memory = (until_zero memory, memory)

-- `string_util::format`, on a new array of zeros.
unfoldable pub format : Text → Outcome Text
unfolding print_at c_string
format printed = ((do print_at 0 (2048 - 1) printed; c_string) (replicate 2048 0)).0
