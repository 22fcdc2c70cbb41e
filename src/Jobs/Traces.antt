-- ===== src/Jobs/Traces.antt =====
-- What a sequence of calls does to the jobs (crates/guardian-core/src/job_registry.rs).
use vds_guardian.Prelude.{
  ◌≡◌, ◌≢◌, inl, inr, refl, true, false, Option, none, some, List, [], ◌∷◌, All, ◌==◌, ==-cases,
  nat_eq, if◌then◌else◌, Bool-cases, sym, ap, ◌∙◌, ne→==-false, subst,
}
use vds_guardian.Identifiers.{RunId, identifier_eq}
use vds_guardian.Jobs.Defs.{
  World, CancellationHandle, cancel_handle, is_cancelled, get_job, remove_job, register, signal,
  cancel_job, unregister,
}

get-removed :
    (jobs : List (RunId × CancellationHandle)) (id : RunId) → get_job (remove_job jobs id) id ≡ none
get-removed [] id = refl
get-removed ((j, h) ∷ jobs) id = elim (==-cases j id) [
  | inl (_, y) ↦ rw y (get-removed jobs id)
  | inr (_, n) ↦ rw (n, n) (get-removed jobs id)
]

get-remove_other :
    (jobs : List (RunId × CancellationHandle)) (id other : RunId)
    → other ≢ id
    → get_job (remove_job jobs other) id ≡ get_job jobs id
get-remove_other [] id other d = refl
get-remove_other ((j, h) ∷ jobs) id other d = elim (==-cases j other) [
  | inl (e, y) ↦
      let apart : (j == id) ≡ false = ne→==-false j id (λ q. d (sym e ∙ q)) in
      rw (y, apart) (get-remove_other jobs id other d)
  | inr (_, n) ↦ elim (Bool-cases (j == id)) [
    | inl y ↦ rw (n, y) refl
    | inr m ↦ rw (n, m) (get-remove_other jobs id other d)
  ]
]

-- The calls that a program makes on the registry, in the order in which the lock serves them.
pub data Call : Type 0 where
  call_register : RunId → CancellationHandle → Call
  call_cancel : RunId → Call
  call_drop : RunId → Call

abbrev pub run_call : World → Call → World
run_call w (call_register id h) = register w id h
run_call w (call_cancel id) = (cancel_job w id).0
run_call w (call_drop id) = unregister w id

abbrev pub run_calls : World → List Call → World
run_calls w [] = w
run_calls w (c ∷ cs) = run_calls (run_call w c) cs

-- A call that neither registers nor drops the run.
abbrev pub LeavesRun : RunId → Call → Type 0
LeavesRun id (call_register other h) = other ≢ id
LeavesRun id (call_cancel other) = Unit {0}
LeavesRun id (call_drop other) = other ≢ id

-- The registry works, and the run stands in it with this handle.
abbrev pub IsRegistered : RunId → CancellationHandle → World → Type 0
IsRegistered id h w = (w.poisoned ≡ false) × (get_job w.jobs id ≡ some h)

register-IsRegistered :
    (w : World) (id : RunId) (h : CancellationHandle)
    → w.poisoned ≡ false
    → IsRegistered id h (register w id h)
unfolding register
register-IsRegistered w id h p = elim (==-cases id id) [
  | inl (_, y) ↦ rw (p, y) (refl, refl)
  | inr (n, _) ↦ absurd (n refl)
]

cancel_job-signal :
    (w : World) (id : RunId) → w.poisoned ≡ false → cancel_job w id ≡ signal w (get_job w.jobs id)
unfolding cancel_job
cancel_job-signal w id p = ap (λ b. if b then (w, false) else signal w (get_job w.jobs id)) p

run_call-IsRegistered :
    (w : World) (c : Call) (id : RunId) (h : CancellationHandle)
    → LeavesRun id c
    → IsRegistered id h w
    → IsRegistered id h (run_call w c)
unfolding register cancel_job unregister cancel_handle
run_call-IsRegistered w (call_register other g) id h d (p, e) =
    let apart : (other == id) ≡ false = ne→==-false other id d in
    rw (p, apart) (refl, get-remove_other w.jobs id other d ∙ e)
run_call-IsRegistered w (call_drop other) id h d (p, e) =
    rw p (refl, get-remove_other w.jobs id other d ∙ e)
run_call-IsRegistered w (call_cancel other) id h d (p, e) =
    subst (λ r. IsRegistered id h r.0) (sym (cancel_job-signal w other p))
      (by_job (get_job w.jobs other))
  where
    by_job : (o : Option CancellationHandle) → IsRegistered id h (signal w o).0
    by_job none = (p, e)
    by_job (some g) = (p, e)

run_calls-IsRegistered :
    (cs : List Call) (w : World) (id : RunId) (h : CancellationHandle)
    → All (LeavesRun id) cs
    → IsRegistered id h w
    → IsRegistered id h (run_calls w cs)
run_calls-IsRegistered [] w id h a r = r
run_calls-IsRegistered (c ∷ cs) w id h (d, a) r =
    run_calls-IsRegistered cs (run_call w c) id h a (run_call-IsRegistered w c id h d r)

cancel_registered :
    (w : World) (id : RunId) (h : CancellationHandle)
    → IsRegistered id h w
    → ((cancel_job w id).1 ≡ true) × (is_cancelled (cancel_job w id).0 h ≡ true)
unfolding cancel_job cancel_handle is_cancelled
cancel_registered w id h (p, e) =
    let same : (h == h) ≡ true = (nat_eq.beq_iff h h).1 refl in rw (p, e) (refl, rw same refl)

-- A registered job can be cancelled, whatever other calls come in between, as long as none of them
-- registers or drops its run: `cancel` then reports that it found the job, and the job's handle is
-- cancelled. The registry's lock must not be poisoned.
pub cancel_job-register :
    (w : World) (id : RunId) (h : CancellationHandle) (cs : List Call)
    → w.poisoned ≡ false
    → All (LeavesRun id) cs
    → ((cancel_job (run_calls (register w id h) cs) id).1 ≡ true)
      × (is_cancelled (cancel_job (run_calls (register w id h) cs) id).0 h ≡ true)
cancel_job-register w id h cs p a =
    cancel_registered (run_calls (register w id h) cs) id h
      (run_calls-IsRegistered cs (register w id h) id h a (register-IsRegistered w id h p))

-- The run is in no registry that works.
abbrev pub IsAbsent : RunId → World → Type 0
IsAbsent id w = (w.poisoned ≡ false) × (get_job w.jobs id ≡ none)

run_call-IsAbsent :
    (w : World) (c : Call) (id : RunId)
    → LeavesRun id c
    → IsAbsent id w
    → IsAbsent id (run_call w c)
unfolding register cancel_job unregister cancel_handle
run_call-IsAbsent w (call_register other g) id d (p, e) =
    let apart : (other == id) ≡ false = ne→==-false other id d in
    rw (p, apart) (refl, get-remove_other w.jobs id other d ∙ e)
run_call-IsAbsent w (call_drop other) id d (p, e) =
    rw p (refl, get-remove_other w.jobs id other d ∙ e)
run_call-IsAbsent w (call_cancel other) id d (p, e) =
    subst (λ r. IsAbsent id r.0) (sym (cancel_job-signal w other p)) (by_job (get_job w.jobs other))
  where
    by_job : (o : Option CancellationHandle) → IsAbsent id (signal w o).0
    by_job none = (p, e)
    by_job (some g) = (p, e)

run_calls-IsAbsent :
    (cs : List Call) (w : World) (id : RunId)
    → All (LeavesRun id) cs
    → IsAbsent id w
    → IsAbsent id (run_calls w cs)
run_calls-IsAbsent [] w id a r = r
run_calls-IsAbsent (c ∷ cs) w id (d, a) r =
    run_calls-IsAbsent cs (run_call w c) id a (run_call-IsAbsent w c id d r)

-- Once its registration is dropped, a run is not found and cancelling it changes nothing, whatever
-- other calls follow, until it is registered again.
pub cancel_job-unregister :
    (w : World) (id : RunId) (cs : List Call)
    → w.poisoned ≡ false
    → All (LeavesRun id) cs
    → cancel_job (run_calls (unregister w id) cs) id ≡ (run_calls (unregister w id) cs, false)
unfolding cancel_job unregister
cancel_job-unregister w id cs p a =
    let dropped : IsAbsent id (unregister w id) = rw p (refl, get-removed w.jobs id) in
    absent (run_calls (unregister w id) cs) (run_calls-IsAbsent cs (unregister w id) id a dropped)
  where
    absent : (v : World) → IsAbsent id v → cancel_job v id ≡ (v, false)
    absent v (q, e) = elim (Bool-cases v.poisoned) [
      | inl y ↦ rw (y, cancel_job) refl
      | inr n ↦ rw (n, e, cancel_job) refl
    ]

register_poisoned :
    (w : World) (id : RunId) (h : CancellationHandle) → (register w id h).poisoned ≡ w.poisoned
unfolding register
register_poisoned w id h = elim (Bool-cases w.poisoned) [ inl y ↦ rw y refl | inr n ↦ rw n refl ]

-- Two registrations under one run id: dropping the first takes the second job out of the registry,
-- and cancelling the run no longer reaches it, while it may still run.
pub cancel_job-register_twice :
    (w : World) (id : RunId) (first second : CancellationHandle)
    → w.poisoned ≡ false
    → cancel_job (unregister (register (register w id first) id second) id) id
      ≡ (unregister (register (register w id first) id second) id, false)
unfolding register
cancel_job-register_twice w id first second p =
    cancel_job-unregister (register (register w id first) id second) id []
      (register_poisoned (register w id first) id second ∙ register_poisoned w id first ∙ p) tt
