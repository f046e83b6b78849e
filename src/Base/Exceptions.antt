-- ===== src/Base/Exceptions.antt =====
-- base/exception.h, uv/error.h: the objects that are thrown, and libuv's errors. libuv's names and
-- texts of its errors are arguments.
pub mod Shown
use libra_core.Common.{
  ◌-◌, Bool, not, ◌++◌, Outcome, ◌>>=◌, ◌>>◌, done, throw, fault, replicate, ◌==◌, Text, codes,
  true,
}
use libra_core.Common.{ℤ, pos, negsuc}
use libra_core.Base.Format.{print_at, c_string}

-- `Exception`
pub record Thrown : Type 0 where
  pub method : Text
  pub message : Text
  pub code : ℤ
  pub shown : Text

unfoldable pub new_exception : Text → Text → ℤ → Thrown
new_exception method message code = record {
  method = method;
  message = message;
  code = code;
  shown = (method ++ codes "[method <--> message ] ") ++ message;
}

-- `what()`
unfoldable pub what : Thrown → Text
what x = x.shown

-- `NotImplementInterface`
unfoldable pub not_implement : Text → Thrown
unfolding new_exception
not_implement method = new_exception method (codes "Not implement the function") (negsuc 0)

-- `"(name:%s)=>%s!"`
unfoldable pub name_text : Text → Text → Text
name_text err_name err_text =
    codes "(name:" ++ (err_name ++ (codes ")=>" ++ (err_text ++ codes "!")))

unfoldable pub with_message : Thrown → Outcome Text → Outcome Thrown
with_message x (done s) = done (record x { message = s })
with_message x (throw e) = throw e
with_message x fault = fault

-- `UVLibException`: the base is made without a message, which is printed later.
unfoldable pub uvlib_exception : (ℤ → Text) → (ℤ → Text) → Text → ℤ → Outcome Thrown
unfolding new_exception with_message print_at c_string name_text
uvlib_exception err_name strerror method error =
    with_message (new_exception method (codes "") error)
      ((do print_at 0 (512 - 1) (name_text (err_name error) (strerror error)); c_string)
        (replicate 512 0)).0

-- `UVError` as a bool.
unfoldable pub is_error : ℤ → Bool
is_error (pos n) = not (n == 0)
is_error (negsuc n) = true
