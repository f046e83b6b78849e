-- ===== src/Uv/Pool.antt =====
-- uv/pool.h: a work request, from `run` to the report of its end. A pool's work callback is the
-- outcome of its call; so is the callback that is told of the end, which gets the result.
pub mod Freeing
use libra_core.Common.{
  Bool, true, false, List, [], ◌∷◌, ◌++◌, Outcome, Exec, ◌>>=◌, ◌>>◌, try_catch, done, throw, fault,
  if◌then◌else◌,
}
use libra_core.Common.{queue_failed}

-- What is allocated: the arguments, the request with its two callbacks, the result; and the result
-- as the request's data has it.
pub record Work : Type 0 where
  pub params : Bool
  pub req : Bool
  pub result : Bool
  pub result_ptr : Bool

-- What the callback of the end was told: whether there is a result.
abbrev pub Told : Type 0
Told = List Bool

abbrev pub Pool : Type 0
Pool = Work × Told

-- `delete` of what is not allocated is a fault.
unfoldable pub delete_params : Exec Pool (Unit {0})
delete_params (w, told) =
    if w.params then (done tt, (record w { params = false }, told)) else (fault, (w, told))

unfoldable pub delete_result : Exec Pool (Unit {0})
delete_result (w, told) =
    if w.result then (done tt, (record w { result = false }, told)) else (fault, (w, told))

unfoldable pub delete_req : Exec Pool (Unit {0})
delete_req (w, told) =
    if w.req then (done tt, (record w { req = false }, told)) else (fault, (w, told))

-- `run`, by what `uv_queue_work` answers.
unfoldable pub run_work : Bool → Exec Pool Bool
run_work queued (w, told) =
    let w' : Work = record { params = true; req = true; result = false; result_ptr = false } in
    if queued then (done true, (w', told)) else (throw queue_failed, (w', told))

-- `invoke_work` for a callback with a result, by its outcome: nothing leaves it.
unfoldable pub make_result : Outcome (Unit {0}) → Exec Pool (Unit {0})
make_result (done a) (w, told) = (done tt, (record w { result = true; result_ptr = true }, told))
make_result (throw x) (w, told) = (done tt, (w, told))
make_result fault (w, told) = (fault, (w, told))

unfoldable pub invoke_work : Outcome (Unit {0}) → Exec Pool (Unit {0})
unfolding make_result delete_params
invoke_work work = do make_result work; delete_params

-- The callback of the end is called, by its outcome.
unfoldable pub tell : Outcome (Unit {0}) → Exec Pool (Unit {0})
tell over (w, told) = (over, (w, told ++ (w.result_ptr ∷ [])))

unfoldable pub delete_if_result : Exec Pool (Unit {0})
unfolding delete_result
delete_if_result (w, told) = if w.result_ptr then delete_result (w, told) else (done tt, (w, told))

-- The handler of `invoke_over`: `p` is deleted by its type and again, and then once more.
unfoldable pub over_failed : Exec Pool (Unit {0})
unfolding delete_if_result delete_req
over_failed = do delete_if_result; delete_if_result; delete_if_result; delete_req

-- `invoke_over` with the handler of `run`, which only logs.
unfoldable pub invoke_over : Outcome (Unit {0}) → Exec Pool (Unit {0})
unfolding tell delete_if_result delete_req over_failed
invoke_over over = try_catch (do tell over; delete_if_result; delete_req) over_failed

-- `invoke_work` for a callback without a result.
unfoldable pub work_done : Outcome (Unit {0}) → Exec Pool (Unit {0})
work_done (done a) p = (done tt, p)
work_done (throw x) p = (done tt, p)
work_done fault p = (fault, p)

unfoldable pub invoke_void_work : Outcome (Unit {0}) → Exec Pool (Unit {0})
unfolding work_done delete_params
invoke_void_work work = do work_done work; delete_params
