-- ===== src/Uv/Pool/Freeing.antt =====
-- uv/pool.h: what a work request leaves behind.
use libra_core.Common.{
  ◌≡◌, ◌≢◌, refl, Bool, true, false, [], ◌∷◌, ◌++◌, Outcome, ◌>>◌, done, throw, fault,
}
use libra_core.Uv.Pool.{
  Work, Pool, Told, run_work, delete_params, delete_result, delete_req, tell, delete_if_result,
  over_failed, invoke_over, work_done, invoke_void_work,
}

abbrev pub nothing : Work
nothing = record { params = false; req = false; result = false; result_ptr = false }

-- Whether the work gave a result.
abbrev pub returns : Outcome (Unit {0}) → Bool
returns (done a) = true
returns (throw x) = false
returns fault = false

abbrev pub Frees : Outcome (Unit {0}) × Pool → Type 0
Frees (r, (w, told)) = (r ≡ done tt) × (w.params ≡ false) × (w.req ≡ false) × (w.result ≡ false)

-- A request for work without a result, which returns or throws, and whose callback of the end returns
-- or throws: that callback is told once, of no result, and everything is freed.
pub invoke_void_work-Frees :
    (work over : Outcome (Unit {0})) (w : Work) (told : Told)
    → work ≢ fault
    → over ≢ fault
    → Frees ((do run_work true; invoke_void_work work; invoke_over over) (w, told))
      × (((do run_work true; invoke_void_work work; invoke_over over) (w, told)).1.1
          ≡ told ++ (false ∷ []))
unfolding run_work invoke_void_work work_done delete_params delete_result delete_req tell
    delete_if_result over_failed invoke_over
invoke_void_work-Frees (done a) (done b) w told h k = ((refl, refl, refl, refl), refl)
invoke_void_work-Frees (done a) (throw y) w told h k = ((refl, refl, refl, refl), refl)
invoke_void_work-Frees (throw x) (done b) w told h k = ((refl, refl, refl, refl), refl)
invoke_void_work-Frees (throw x) (throw y) w told h k = ((refl, refl, refl, refl), refl)
invoke_void_work-Frees (done a) fault w told h k = absurd (k refl)
invoke_void_work-Frees (throw x) fault w told h k = absurd (k refl)
invoke_void_work-Frees fault over w told h k = absurd (h refl)
