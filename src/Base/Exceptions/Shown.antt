-- ===== src/Base/Exceptions/Shown.antt =====
-- base/exception.h, uv/error.h: what an exception shows.
use libra_core.Common.{◌≡◌, refl, ap, ◌++◌, append-nil, done, take, arith, Text, codes}
use libra_core.Common.{ℤ}
use libra_core.Base.Format.Printed.{before_zero, print_at-c_string}
use libra_core.Base.Exceptions.{
  Thrown, new_exception, what, name_text, with_message, uvlib_exception,
}

-- `what()` of an exception is its method, a mark and its message. An exception of libuv keeps its
-- method and code, and its message is the error's name and text, up to 510 bytes; but its `what()` is
-- the method and the mark alone, whatever the error.
pub uvlib_exception-what :
    (err_name strerror : ℤ → Text) (method message : Text) (code error : ℤ)
    → (what (new_exception method message code)
        ≡ (method ++ codes "[method <--> message ] ") ++ message)
      × ((x : Thrown) × (uvlib_exception err_name strerror method error ≡ done x)
          × (x.method ≡ method)
          × (x.code ≡ error)
          × (x.message ≡ before_zero (take 510 (name_text (err_name error) (strerror error))))
          × (what x ≡ method ++ codes "[method <--> message ] "))
unfolding what new_exception uvlib_exception with_message
uvlib_exception-what err_name strerror method message code error = (
  refl,
  (
    record (new_exception method (codes "") error) {
      message = before_zero (take 510 (name_text (err_name error) (strerror error)));
    },
    ap (with_message (new_exception method (codes "") error))
        (print_at-c_string 510 512 (name_text (err_name error) (strerror error)) (omega arith)),
    refl,
    refl,
    refl,
    append-nil _,
  ),
)
