-- ===== src/Lifecycle/Runs.antt =====
-- Runs through the states of a backup (crates/guardian-core/src/state.rs).
use vds_guardian.Prelude.{
  ℕ, ◌+◌, ◌≤◌, ◌<◌, ◌≡◌, refl, true, List, [], ◌∷◌, length, arith, subst, ap₂,
}
use vds_guardian.Lifecycle.Defs.{
  BackupState, planned, staging, captured, verifying, sealed, failed, cancelled, quarantined,
  can_transition_to, Run, here, next,
}

into_sealed : (s : BackupState) → can_transition_to s sealed ≡ true → s ≡ verifying
unfolding can_transition_to
into_sealed s h = ground arith

into_verifying : (s : BackupState) → can_transition_to s verifying ≡ true → s ≡ captured
unfolding can_transition_to
into_verifying s h = ground arith

into_captured : (s : BackupState) → can_transition_to s captured ≡ true → s ≡ staging
unfolding can_transition_to
into_captured s h = ground arith

into_staging : (s : BackupState) → can_transition_to s staging ≡ true → s ≡ planned
unfolding can_transition_to
into_staging s h = ground arith

into_planned : (s : BackupState) → can_transition_to s planned ≡ true → ⊥
unfolding can_transition_to
into_planned s h = ground arith

Run-to_planned :
    {path : List BackupState} {u : BackupState} → Run planned path u → u ≡ planned → path ≡ []
Run-to_planned here e = refl
Run-to_planned (next {t} r h) e =
    absurd (into_planned t (subst (λ x. can_transition_to t x ≡ true) e h))

Run-to_staging :
    {path : List BackupState} {u : BackupState}
    → Run planned path u
    → u ≡ staging
    → path ≡ planned ∷ []
Run-to_staging here e = cc
Run-to_staging (next {t} r h) e =
    let q = into_staging t (subst (λ x. can_transition_to t x ≡ true) e h) in
    ap₂ (λ x xs. x ∷ xs) q (Run-to_planned r q)

Run-to_captured :
    {path : List BackupState} {u : BackupState}
    → Run planned path u
    → u ≡ captured
    → path ≡ staging ∷ planned ∷ []
Run-to_captured here e = cc
Run-to_captured (next {t} r h) e =
    let q = into_captured t (subst (λ x. can_transition_to t x ≡ true) e h) in
    ap₂ (λ x xs. x ∷ xs) q (Run-to_staging r q)

Run-to_verifying :
    {path : List BackupState} {u : BackupState}
    → Run planned path u
    → u ≡ verifying
    → path ≡ captured ∷ staging ∷ planned ∷ []
Run-to_verifying here e = cc
Run-to_verifying (next {t} r h) e =
    let q = into_verifying t (subst (λ x. can_transition_to t x ≡ true) e h) in
    ap₂ (λ x xs. x ∷ xs) q (Run-to_captured r q)

Run-to :
    {path : List BackupState} {u : BackupState}
    → Run planned path u
    → u ≡ sealed
    → path ≡ verifying ∷ captured ∷ staging ∷ planned ∷ []
Run-to here e = cc
Run-to (next {t} r h) e =
    let q = into_sealed t (subst (λ x. can_transition_to t x ≡ true) e h) in
    ap₂ (λ x xs. x ∷ xs) q (Run-to_verifying r q)

-- A run from `Planned` to `Sealed` has passed through `Staging`, `Captured` and `Verifying`, in this
-- order and through nothing else.
pub sealed_path :
    (path : List BackupState)
    → Run planned path sealed
    → path ≡ verifying ∷ captured ∷ staging ∷ planned ∷ []
sealed_path path r = Run-to r refl

rank : BackupState → ℕ
rank planned = 0
rank staging = 1
rank captured = 2
rank verifying = 3
rank sealed = 4
rank failed = 4
rank cancelled = 4
rank quarantined = 4

rank-grows : (s t : BackupState) → can_transition_to s t ≡ true → rank s < rank t
unfolding can_transition_to rank
rank-grows s t h = ground arith

rank-le : (s : BackupState) → rank s ≤ 4
unfolding rank
rank-le s = ground arith

Run-rank :
    {s t : BackupState} {path : List BackupState} → Run s path t → rank s + length path ≤ rank t
Run-rank here = omega arith
Run-rank (next {t} {u} r h) = omega (arith, Run-rank r, rank-grows t u h)

-- No run makes more than four transitions: there are no cycles, and a run ends.
pub Run-length : (s t : BackupState) (path : List BackupState) → Run s path t → length path ≤ 4
Run-length s t path r = omega (arith, Run-rank r, rank-le t)
