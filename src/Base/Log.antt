-- ===== src/Base/Log.antt =====
-- base/log.h: the logger and its macros. What `printf` makes of a format and its arguments is an
-- argument.
pub mod Records
use libra_core.Common.{
  ℕ, Bool, true, false, List, [], ◌∷◌, ◌++◌, Outcome, Exec, ◌>>=◌, ◌>>◌, lift, done, length,
  replicate, ltb, if◌then◌else◌, Text, codes,
}
use libra_core.Common.{ℤ, pos, negsuc}
use libra_core.Base.Buffer.{sub_size}
use libra_core.Base.Format.{print_at, c_string, print_int}

abbrev pub log_record_max_size : ℕ
log_record_max_size = 4800

-- The levels.
abbrev pub l_all_s : ℤ
l_all_s = pos 0

abbrev pub l_debug_s : ℤ
l_debug_s = pos 1

abbrev pub l_error_s : ℤ
l_error_s = pos 4

-- Whether a core was set, and the level; then what the core was given, and what was printed.
pub record Logger : Type 0 where
  pub core : Bool
  pub level : ℤ
  pub logged : List (ℤ × Text)
  pub printed : Text

unfoldable pub new_logger : Logger
new_logger = record { core = false; level = l_all_s; logged = []; printed = [] }

unfoldable pub set_core : Bool → Logger → Logger
set_core given l = record l { core = given }

unfoldable pub set_level : ℤ → Logger → Logger
set_level level l = record l { level = level }

-- `<` on int.
unfoldable pub int_less : ℤ → ℤ → Bool
int_less (pos a) (pos b) = ltb a b
int_less (pos a) (negsuc b) = false
int_less (negsuc a) (pos b) = true
int_less (negsuc a) (negsuc b) = ltb b a

-- `"[%s:%d]"`
unfoldable pub prefix_of : Text → ℤ → Text
unfolding print_int
prefix_of function line = codes "[" ++ (function ++ (codes ":" ++ (print_int line ++ codes "]")))

-- The two prints into the array, the second behind the first by its whole length.
unfoldable pub record_text : Text → Text → Outcome Text
unfolding print_at c_string
record_text before printed =
    ((do
      print_at 0 log_record_max_size before
      print_at (length before) (sub_size log_record_max_size (length before)) printed
      c_string)
      (replicate log_record_max_size 0)).0

-- To the core, or else to the standard output.
unfoldable pub put_record : ℤ → Text → Exec Logger (Unit {0})
put_record level text l =
    if l.core
    then (done tt, record l { logged = l.logged ++ ((level, text) ∷ []) })
    else (done tt, record l { printed = l.printed ++ (text ++ (10 ∷ [])) })

-- `write`, for a function's name without a zero.
unfoldable pub write_record : ℤ → Text → ℤ → Text → Exec Logger (Unit {0})
unfolding int_less prefix_of record_text put_record
write_record level function line printed l =
    if int_less level l.level
    then (done tt, l)
    else (do text ← lift (record_text (prefix_of function line) printed); put_record level text) l

-- The macros, by the level that each gives to `write`.
pub data Macro : Type 0 where
  debug_log info_log warn_log error_log : Macro

unfoldable pub level_of : Macro → ℤ
level_of debug_log = l_debug_s
level_of info_log = l_debug_s
level_of warn_log = l_debug_s
level_of error_log = l_debug_s
