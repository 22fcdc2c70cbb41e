-- ===== src/Lifecycle/Defs.antt =====
-- The states of a backup and the allowed transitions (crates/guardian-core/src/state.rs).
use vds_guardian.Prelude.{Bool, true, false, List, [], ◌∷◌, ◌≡◌}

pub data BackupState : Type 0 where
  planned staging captured verifying sealed failed cancelled quarantined : BackupState

unfoldable pub can_transition_to : BackupState → BackupState → Bool
can_transition_to planned staging = true
can_transition_to planned cancelled = true
can_transition_to staging captured = true
can_transition_to staging failed = true
can_transition_to staging cancelled = true
can_transition_to captured verifying = true
can_transition_to captured quarantined = true
can_transition_to verifying sealed = true
can_transition_to verifying failed = true
can_transition_to verifying quarantined = true
can_transition_to _ _ = false

-- A run: a state, and each next one allowed. `Run s path t` passes through `path` to `t`.
pub data Run (s : BackupState) : List BackupState → BackupState → Type 0 where
  here : Run s [] s
  next :
      {path : List BackupState} {t u : BackupState}
      → Run s path t
      → can_transition_to t u ≡ true
      → Run s (t ∷ path) u
