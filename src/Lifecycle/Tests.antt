-- ===== src/Lifecycle/Tests.antt =====
-- Runs of the life cycle of a backup on concrete inputs.
use vds_guardian.Prelude.{◌≡◌, refl, false, [], ◌∷◌}
use vds_guardian.Lifecycle.{
  planned, staging, captured, verifying, sealed, can_transition_to, Run, here, next,
}
use vds_guardian.Lifecycle.Runs.{sealed_path}

-- Nothing leaves a sealed backup.
sealed_is_final : can_transition_to sealed planned ≡ false
unfolding can_transition_to
sealed_is_final = refl

whole-Run : Run planned (verifying ∷ captured ∷ staging ∷ planned ∷ []) sealed
unfolding can_transition_to
whole-Run = next (next (next (next here refl) refl) refl) refl

sealed_path_example :
    verifying ∷ captured ∷ staging ∷ planned ∷ [] ≡ verifying ∷ captured ∷ staging ∷ planned ∷ []
sealed_path_example = sealed_path (verifying ∷ captured ∷ staging ∷ planned ∷ []) whole-Run
