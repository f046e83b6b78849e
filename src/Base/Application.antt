-- ===== src/Base/Application.antt =====
-- base/application.h, base/application.cpp: the application, by the calls that it makes on libuv's
-- loop.
use libra_core.Common.{
  ◌≡◌, refl, Bool, true, false, not, ◌||◌, List, [], ◌∷◌, ◌++◌, ◌∙◌, if◌then◌else◌, sym, append-nil,
  append_assoc,
}

pub data LoopCall : Type 0 where
  uv_run uv_stop uv_loop_close : LoopCall

pub record Application : Type 0 where
  pub stopped : Bool
  pub calls : List LoopCall

unfoldable pub new_application : Application
new_application = record { stopped = false; calls = [] }

unfoldable pub call_loop : LoopCall → Application → Application
call_loop c a = record a { calls = a.calls ++ (c ∷ []) }

unfoldable pub run_loop : Application → Application
unfolding call_loop
run_loop = call_loop uv_run

-- `stop`, by what `uv_loop_alive` answers.
unfoldable pub stop_loop : Bool → Application → Application
unfolding call_loop
stop_loop alive a = if alive then record (call_loop uv_stop a) { stopped = true } else a

-- `~Application`
unfoldable pub end_application : Application → Application
unfolding call_loop
end_application a = if not a.stopped then call_loop uv_loop_close a else a

-- Calls of `run` and of `stop`, the latter by whether the loop is alive.
pub data Use : Type 0 where
  runs : Use
  stops : Bool → Use

abbrev pub use_all : List Use → Application → Application
use_all [] a = a
use_all (runs ∷ us) a = use_all us (run_loop a)
use_all (stops alive ∷ us) a = use_all us (stop_loop alive a)

abbrev pub calls_of : List Use → List LoopCall
calls_of [] = []
calls_of (runs ∷ us) = uv_run ∷ calls_of us
calls_of (stops true ∷ us) = uv_stop ∷ calls_of us
calls_of (stops false ∷ us) = calls_of us

abbrev pub any_stop : List Use → Bool
any_stop [] = false
any_stop (runs ∷ us) = any_stop us
any_stop (stops alive ∷ us) = alive || any_stop us

closes_from :
    (us : List Use) (b : Bool) (cs : List LoopCall)
    → (end_application (use_all us (record { stopped = b; calls = cs }))).calls
      ≡ cs ++ (calls_of us ++ (if b || any_stop us then [] else uv_loop_close ∷ []))
unfolding end_application call_loop run_loop stop_loop
closes_from [] true cs = sym (append-nil cs)
closes_from [] false cs = refl
closes_from (runs ∷ us) b cs =
    closes_from us b (cs ++ (uv_run ∷ [])) ∙ append_assoc cs (uv_run ∷ []) _
closes_from (stops true ∷ us) true cs =
    closes_from us true (cs ++ (uv_stop ∷ [])) ∙ append_assoc cs (uv_stop ∷ []) _
closes_from (stops true ∷ us) false cs =
    closes_from us true (cs ++ (uv_stop ∷ [])) ∙ append_assoc cs (uv_stop ∷ []) _
closes_from (stops false ∷ us) b cs = closes_from us b cs

-- The application calls the loop for each `run` and for each `stop` of a loop that is alive, in their
-- order. Its destructor closes the loop, once, exactly where no live loop was stopped; an application
-- that was stopped never closes it.
pub end_application-closes :
    (us : List Use)
    → ((end_application (use_all us new_application)).calls
        ≡ calls_of us ++ (if any_stop us then [] else uv_loop_close ∷ []))
unfolding new_application
end_application-closes us = closes_from us false []
