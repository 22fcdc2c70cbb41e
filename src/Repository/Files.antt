-- ===== src/Repository/Files.antt =====
-- The part of the disk that a retention transaction touches, with calls that may fail and a process
-- that may be stopped between any two of them
-- (crates/guardian-local-repository/src/error.rs, filesystem.rs, retention.rs, retention_journal.rs).
use vds_guardian.Prelude.{
  ℕ, Bool, Option, none, some, List, [], ◌∷◌, Result, ok, err, ◌==◌, if◌then◌else◌, filter, not,
}
use vds_guardian.Identifiers.{BackupId, PlanId, RepositoryId, identifier_eq}
use vds_guardian.Manifest.{ManifestError}

pub data SigningError : Type 0 where
  sign_failed verification_failed : SigningError

-- Those of `RepositoryError` that retention and the check of a sealed backup give; an `Io` tells
-- whether the kind is `AlreadyExists`.
pub data RepositoryError : Type 0 where
  integrity_failure confirmation_mismatch repository_mismatch snapshot_changed : RepositoryError
  audit_conflict recovery_required cleanup_pending unsafe_filesystem_entry : RepositoryError
  io already_exists : RepositoryError
  manifest_rejected : ManifestError → RepositoryError
  signing_failed : SigningError → RepositoryError

pub record RetentionIntent : Type 0 where
  pub format_version : ℕ
  pub plan_id : PlanId
  pub repository_id : RepositoryId
  pub delete_backup_ids : List BackupId

-- What a name in a directory stands for: a real directory with its contents, or anything else.
pub data Node (T : Type 0) : Type 0 where
  directory : T → Node T
  not_directory : Node T

-- The disk, as one plan's transaction sees it: the backups by name, the plan's quarantine directory
-- with its entries, its intent file (`some none` is one whose bytes are no intent), its cleanup mark,
-- and its two audit records.
pub record Disk (T : Type 0) : Type 0 where
  pub active : BackupId → Option (Node T)
  pub trash : Option (List (BackupId × Node T))
  pub intent : Option (Option RetentionIntent)
  pub cleanup_ready : Bool
  pub approved : Bool
  pub completed : Bool

-- What becomes of a call to the operating system.
pub data Fault : Type 0 where
  fine fails stops : Fault

-- The disk, and the faults of the calls to come; after the last of them all calls go well.
pub record World (T : Type 0) : Type 0 where
  pub disk : Disk T
  pub faults : List Fault

-- An answer, an error, or the end of the process.
pub data Outcome (A : Type 0) : Type 0 where
  done : A → Outcome A
  failed : RepositoryError → Outcome A
  stopped : Outcome A

abbrev pub M : Type 0 → Type 0 → Type 0
M T A = World T → World T × Outcome A

module _ {T : Type 0} where
  abbrev pub pure : {A : Type 0} → A → M T A
  pure a w = (w, done a)

  abbrev pub fail : {A : Type 0} → RepositoryError → M T A
  fail e w = (w, failed e)

  abbrev pub go_on : {A B : Type 0} → World T × Outcome A → (A → M T B) → World T × Outcome B
  go_on (w, done a) f = f a w
  go_on (w, failed e) f = (w, failed e)
  go_on (w, stopped) f = (w, stopped)

  infixl 5 ◌>>=◌ ◌>>◌
  abbrev pub ◌>>=◌ : {A B : Type 0} → M T A → (A → M T B) → M T B
  ◌>>=◌ m f w = go_on (m w) f

  abbrev pub ◌>>◌ : {B : Type 0} → M T (Unit {0}) → M T B → M T B
  m >> k = m >>= λ _. k

  -- `if let Err(error) = …` and `match`: an error is handled, the end of the process is not.
  abbrev pub handled :
      {A : Type 0} → World T × Outcome A → (RepositoryError → M T A) → World T × Outcome A
  handled (w, done a) h = (w, done a)
  handled (w, failed e) h = h e w
  handled (w, stopped) h = (w, stopped)

  abbrev pub handle : {A : Type 0} → M T A → (RepositoryError → M T A) → M T A
  handle m h w = handled (m w) h

  abbrev pub settle :
      {A : Type 0} → List Fault → Disk T × Result RepositoryError A → World T × Outcome A
  settle faults (d, ok a) = (record { disk = d; faults = faults }, done a)
  settle faults (d, err e) = (record { disk = d; faults = faults }, failed e)

  abbrev pub perform_at :
      {A : Type 0}
      → List Fault
      → RepositoryError
      → (Disk T → Disk T × Result RepositoryError A)
      → Disk T
      → World T × Outcome A
  perform_at [] error call d = settle [] (call d)
  perform_at (fine ∷ faults) error call d = settle faults (call d)
  perform_at (fails ∷ faults) error call d = (record { disk = d; faults = faults }, failed error)
  perform_at (stops ∷ faults) error call d = (record { disk = d; faults = faults }, stopped)

  -- One call to the operating system, with the error that it gives when it fails for a reason that
  -- the disk does not show.
  unfoldable pub perform :
      {A : Type 0} → RepositoryError → (Disk T → Disk T × Result RepositoryError A) → M T A
  perform error call w = perform_at w.faults error call w.disk

  -- A call that only reads.
  abbrev pub inspect : {A : Type 0} → (Disk T → Result RepositoryError A) → M T A
  inspect test = perform io (λ d. (d, test d))

  -- `Path::exists`
  abbrev pub look : {A : Type 0} → (Disk T → A) → M T A
  look test w = (w, done (test w.disk))

  abbrev pub entries_of : Option (List (BackupId × Node T)) → List (BackupId × Node T)
  entries_of none = []
  entries_of (some entries) = entries

  abbrev pub get_entry : BackupId → List (BackupId × Node T) → Option (Node T)
  get_entry name [] = none
  get_entry name ((n, node) ∷ entries) =
      let rest = get_entry name entries in if n == name then some node else rest

  abbrev pub remove_entry : BackupId → List (BackupId × Node T) → List (BackupId × Node T)
  remove_entry name entries = filter (λ e. not (e.0 == name)) entries

  abbrev pub set_active :
      BackupId → Option (Node T) → (BackupId → Option (Node T)) → BackupId → Option (Node T)
  set_active name node active n = if n == name then node else active n
