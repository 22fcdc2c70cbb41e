-- ===== src/Jobs/Defs.antt =====
-- Cancellation handles and the registry of jobs
-- (crates/guardian-core/src/cancellation.rs, job_registry.rs).
use vds_guardian.Prelude.{
  ℕ, suc, Bool, true, false, Option, none, some, List, [], ◌∷◌, ◌==◌, nat_eq, if◌then◌else◌,
}
use vds_guardian.Identifiers.{RunId, identifier_eq}

-- `CancellationHandle`: clones share one flag, so a handle is the flag's place in the store.
abbrev pub CancellationHandle : Type 0
CancellationHandle = ℕ

-- The flags that exist, and the registry: a map behind a lock, which a panic may have poisoned.
pub record World : Type 0 where
  pub next_handle : CancellationHandle
  pub flag_of : CancellationHandle → Bool
  pub poisoned : Bool
  pub jobs : List (RunId × CancellationHandle)

abbrev pub with_jobs : List (RunId × CancellationHandle) → World → World
with_jobs jobs w = record {
  next_handle = w.next_handle;
  flag_of = w.flag_of;
  poisoned = w.poisoned;
  jobs = jobs;
}

-- `CancellationHandle::new`: a flag that no handle shares yet, not set.
unfoldable pub new_handle : World → World × CancellationHandle
new_handle w = (
  record {
    next_handle = suc w.next_handle;
    flag_of = λ i. if i == w.next_handle then false else w.flag_of i;
    poisoned = w.poisoned;
    jobs = w.jobs;
  },
  w.next_handle,
)

-- `CancellationHandle::cancel` and `is_cancelled`
unfoldable pub cancel_handle : World → CancellationHandle → World
cancel_handle w handle = record {
  next_handle = w.next_handle;
  flag_of = λ i. if i == handle then true else w.flag_of i;
  poisoned = w.poisoned;
  jobs = w.jobs;
}

unfoldable pub is_cancelled : World → CancellationHandle → Bool
is_cancelled w handle = w.flag_of handle

-- `HashMap::get` and `HashMap::remove`
abbrev pub get_job : List (RunId × CancellationHandle) → RunId → Option CancellationHandle
get_job [] run_id = none
get_job ((id, handle) ∷ jobs) run_id =
    let rest = get_job jobs run_id in if id == run_id then some handle else rest

abbrev pub remove_job :
    List (RunId × CancellationHandle) → RunId → List (RunId × CancellationHandle)
remove_job [] run_id = []
remove_job ((id, handle) ∷ jobs) run_id =
    let rest = remove_job jobs run_id in if id == run_id then rest else (id, handle) ∷ rest

-- `JobRegistry::register`; the registration that it returns is known by its run id.
unfoldable pub register : World → RunId → CancellationHandle → World
register w run_id handle =
    if w.poisoned then w else with_jobs ((run_id, handle) ∷ remove_job w.jobs run_id) w

-- `JobRegistry::cancel`
abbrev pub signal : World → Option CancellationHandle → World × Bool
signal w none = (w, false)
signal w (some handle) = (cancel_handle w handle, true)

unfoldable pub cancel_job : World → RunId → World × Bool
cancel_job w run_id = if w.poisoned then (w, false) else signal w (get_job w.jobs run_id)

-- `JobRegistry::unregister`, and `Drop` of a registration
unfoldable pub unregister : World → RunId → World
unregister w run_id = if w.poisoned then w else with_jobs (remove_job w.jobs run_id) w
