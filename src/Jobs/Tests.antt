-- ===== src/Jobs/Tests.antt =====
-- Runs of the job registry on concrete inputs.
use vds_guardian.Prelude.{◌≡◌, ◌≢◌, list_beq, false≢true, refl, true, false, [], ◌∷◌}
use vds_guardian.Text.{str}
use vds_guardian.Identifiers.{RunId, identifier_eq}
use vds_guardian.Jobs.{World, new_handle, register, cancel_job, unregister, is_cancelled}
use vds_guardian.Jobs.Traces.{
  call_register, call_cancel, call_drop, run_calls, cancel_job-register, cancel_job-register_twice,
}

abbrev run_1 : RunId
run_1 = record { as_str = str "run-1" }

abbrev run_2 : RunId
run_2 = record { as_str = str "run-2" }

abbrev idle : World
idle = record { next_handle = 0; flag_of = λ i. false; poisoned = false; jobs = [] }

other_run : run_2 ≢ run_1
unfolding list_beq
other_run e = false≢true ((identifier_eq.beq_iff run_2 run_1).1 e)

-- A handle that is new is not cancelled.
new_is_clear : is_cancelled (new_handle idle).0 (new_handle idle).1 ≡ false
unfolding new_handle is_cancelled
new_is_clear = refl

unknown_run : (cancel_job idle run_1).1 ≡ false
unfolding cancel_job
unknown_run = refl

cancel_job-register_example :
    ((cancel_job
        (run_calls
          (register idle run_1 0)
          (call_register run_2 1 ∷ call_cancel run_2 ∷ call_drop run_2 ∷ []))
        run_1).1
      ≡ true)
    × (is_cancelled
          (cancel_job
            (run_calls
              (register idle run_1 0)
              (call_register run_2 1 ∷ call_cancel run_2 ∷ call_drop run_2 ∷ []))
            run_1).0
          0
        ≡ true)
cancel_job-register_example =
    cancel_job-register idle run_1 0
      (call_register run_2 1 ∷ call_cancel run_2 ∷ call_drop run_2 ∷ []) refl
      (other_run, (tt, (other_run, tt)))

cancel_job-register_twice_example :
    cancel_job (unregister (register (register idle run_1 0) run_1 1) run_1) run_1
    ≡ (unregister (register (register idle run_1 0) run_1 1) run_1, false)
cancel_job-register_twice_example = cancel_job-register_twice idle run_1 0 1 refl
