-- ===== src/Plans/Tests.antt =====
-- Runs of the plans on concrete inputs.
use vds_guardian.Profile.{
  VdsProfile, validate_profile, validate_pin, announced_length, validate_endpoint, host_valid,
  user_valid,
}
use vds_guardian.Plans.Approved.{build_deployment-approve}
use vds_guardian.Text.{contains_text}
use vds_guardian.Plans.{DeploymentPlan, build_deployment, approve_deployment}
use vds_guardian.Prelude.{
  ◌≡◌, ◌↔◌, ◌⊎◌, refl, true, false, none, some, ok, err, Option, [], ◌∷◌, ◌++◌, All, ◌==◌, list_eq,
  list_beq, try_for_each, to_set, nat_eq,
}
use vds_guardian.Text.{Text, Bytes, str, len, bytes, encode, starts_with, strip_prefix}
use vds_guardian.Identifiers.{PayloadPath}
use vds_guardian.Docker.{DockerInventory, DockerWorkloadSnapshot, running, bind, capturable_path}
use vds_guardian.Manifest.{
  Manifest, crash_consistent, pending, with_seal, validate_sealed, validate_common,
  validate_payload, validate_entry, validate_label, is_sha256, select_payloads,
}
use vds_guardian.Plans.{
  not_found, new_destination, LocalPaths, RestorePlan, restore_confirmation, restore_impact,
  build_restore, approve_restore, SourceReplacementPlan, reconcile_current, refresh_confirmation,
  reconcile_workloads, reconcile_all, reconcile_one, compare_workload, mount_matches, sort_names,
  insert_name, dedup_names, approve_replacement, live_conflicts,
}
use vds_guardian.Plans.Approved.{build_restore-approve}
use vds_guardian.Plans.Reconciled.{IsPresent, approve_replacement-reconcile_current}

abbrev decode : Text → Option Bytes
decode t = some t

abbrev sha256 : Bytes → Text
sha256 bs = str "0123456789abcdef"

abbrev unix : LocalPaths
unix = record {
  is_absolute = λ path. path == str "/restored";
  join_name = λ path name. path ++ (str "/" ++ name);
  symlink_metadata = λ path. not_found;
}

abbrev digest_text : Text
digest_text = str "0123456789abcdef0123456789abcdef0123456789abcdef0123456789abcdef"

abbrev files_path : PayloadPath
files_path = record { as_str = str "payload/files.tar.zst" }

abbrev sealed_manifest : Manifest
sealed_manifest =
    with_seal (record { as_str = str "2024-02-29T12:00:00Z" }) (str "ed25519") (str "key-1")
      (record {
        format_version = 1;
        backup_id = record { as_str = str "backup-1" };
        run_id = record { as_str = str "run-1" };
        created_at = record { as_str = str "2024-02-29T12:00:00Z" };
        sealed_at = none;
        producer = record { name = str "guardian"; version = str "1"; platform = str "linux" };
        source = record {
          profile_id = record { as_str = str "vds" };
          host_key_fingerprint = str "SHA256:0";
        };
        plan = record {
          plan_id = record { as_str = str "plan" };
          version = 1;
          sha256 = digest_text;
        };
        consistency = crash_consistent;
        payloads =
            record {
              logical_role = str "filesystem";
              path = files_path;
              byte_length = 10;
              sha256 = digest_text;
              media_type = str "application/zstd";
              encryption = none;
            }
            ∷ [];
        verification_state = pending;
        signature = none;
        warnings = [];
        source_layout = none;
      })

abbrev restores : RestorePlan
restores = record {
  backup_id = record { as_str = str "backup-1" };
  destination = str "/restored";
  filesystem_payload = files_path;
  database_payload = none;
  confirmation_text = str "RESTORE backup-1 TO /restored";
  impact = record {
    backup_id = record { as_str = str "backup-1" };
    destination = str "/restored";
    mode = new_destination;
    adds = str "/restored" ∷ [];
    replaces = [];
    conflicts = [];
    workload_labels = str "filesystem" ∷ [];
    confirmation_text = str "RESTORE backup-1 TO /restored";
  };
}

abbrev web_workload : DockerWorkloadSnapshot
web_workload = record {
  container_id = str "0123456789ab";
  container_name = str "web";
  image = str "nginx";
  image_digest = none;
  compose_project = none;
  state = running;
  mounts =
      record {
        source_path = record { as_str = str "/srv/data" };
        destination = record { as_str = str "/data" };
        read_only = false;
      }
      ∷ [];
}

abbrev web_now : Text → DockerInventory
web_now image = record {
  containers =
      record {
        id = str "0123456789ab";
        name = str "web";
        image = image;
        image_digest = none;
        compose_project = none;
        state = running;
        health = none;
        mounts =
            record {
              kind = bind;
              source_reference = str "/srv/data";
              host_path = none;
              destination = str "/data";
              read_only = false;
            }
            ∷ [];
        networks = [];
        secret_references = [];
      }
      ∷ [];
}

abbrev replacement : SourceReplacementPlan
replacement = record {
  impact = record {
    backup_id = record { as_str = str "backup-1" };
    target_profile_id = record { as_str = str "vds" };
    root = record { as_str = str "/srv" };
    containers = str "web" ∷ [];
    replaces = record { as_str = str "/srv" } ∷ [];
    conflicts = [];
    safety_backup_required = true;
    service_stop_required = true;
    confirmation_text = str "REPLACE backup-1 ON vds AT /srv";
  };
  filesystem_payload = files_path;
  docker_workloads = web_workload ∷ [];
}

abbrev phrase : Text
phrase = str "REPLACE backup-1 ON vds AT /srv STATE 0123456789ab"

builds : build_restore unix decode sealed_manifest (str "/restored") ≡ ok restores
unfolding build_restore restore_impact restore_confirmation validate_sealed validate_common
    validate_payload validate_entry validate_label is_sha256 select_payloads starts_with
    strip_prefix len bytes encode try_for_each to_set list_beq
builds = refl

approves :
    approve_replacement (reconcile_current sha256 replacement (some (web_now (str "nginx")))) phrase
    ≡ ok tt
unfolding approve_replacement reconcile_current refresh_confirmation reconcile_workloads
    reconcile_all reconcile_one compare_workload mount_matches sort_names insert_name dedup_names
    capturable_path bytes encode list_beq
approves = refl

-- Another image is a conflict, whatever is confirmed.
blocks :
    approve_replacement (reconcile_current sha256 replacement (some (web_now (str "redis")))) phrase
    ≡ err live_conflicts
unfolding approve_replacement reconcile_current refresh_confirmation reconcile_workloads
    reconcile_all reconcile_one compare_workload mount_matches sort_names insert_name dedup_names
    capturable_path bytes encode list_beq
blocks = refl

build_restore-approve_example :
    (validate_sealed decode sealed_manifest ≡ ok tt)
    × (unix.is_absolute (str "/restored") ≡ true)
    × (select_payloads sealed_manifest
        ≡ ok (restores.filesystem_payload, restores.database_payload))
    × ((approve_restore restores restores.confirmation_text ≡ ok tt) ↔ (
        (restores.confirmation_text ≡ restore_confirmation sealed_manifest (str "/restored"))
        × (unix.symlink_metadata (str "/restored") ≡ not_found)))
build_restore-approve_example =
    build_restore-approve unix decode sealed_manifest (str "/restored") restores.confirmation_text
      restores builds

approve_replacement-reconcile_current_example :
    (phrase
      ≡ (reconcile_current sha256 replacement
          (some (web_now (str "nginx")))).impact.confirmation_text)
    × ((replacement.docker_workloads ≡ [])
        ⊎ ((known : DockerInventory) × (some (web_now (str "nginx")) ≡ some known)
            × All (IsPresent known) replacement.docker_workloads))
approve_replacement-reconcile_current_example =
    approve_replacement-reconcile_current sha256 replacement (some (web_now (str "nginx"))) phrase
      approves

abbrev target : VdsProfile
target = record {
  profile_id = record { as_str = str "vds" };
  label = str "VDS";
  endpoint = record {
    host = str "vds.example";
    port = 22;
    user = str "backup";
    host_pin = record {
      algorithm = str "ssh-ed25519";
      public_key_base64 =
          0 ∷ 0 ∷ 0 ∷ 11 ∷ 115 ∷ 115 ∷ 104 ∷ 45 ∷ 101 ∷ 100 ∷ 50 ∷ 53 ∷ 53 ∷ 49 ∷ 57 ∷ 1 ∷ [];
    };
  };
  credential_id = record { as_str = str "credential-1" };
  auth_kind = none;
}

abbrev deploys : DeploymentPlan
deploys = record {
  backup_id = record { as_str = str "backup-1" };
  target_profile_id = record { as_str = str "vds" };
  target_path = record { as_str = str "/srv" };
  filesystem_payload = files_path;
  database_payload = none;
  confirmation_text = str "DEPLOY backup-1 TO vds:/srv";
}

plans : build_deployment decode sealed_manifest target (record { as_str = str "/srv" }) ≡ ok deploys
unfolding build_deployment validate_profile validate_endpoint host_valid user_valid validate_pin
    announced_length validate_sealed validate_common validate_payload validate_entry validate_label
    is_sha256 select_payloads starts_with strip_prefix len bytes encode try_for_each to_set list_beq
    contains_text
plans = refl

build_deployment-approve_example :
    (validate_sealed decode sealed_manifest ≡ ok tt)
    × (validate_profile decode target ≡ ok tt)
    × (select_payloads sealed_manifest ≡ ok (files_path, none))
    × (deploys.target_path ≡ record { as_str = str "/srv" })
    × (deploys.target_profile_id ≡ target.profile_id)
    × ((approve_deployment deploys (str "DEPLOY backup-1 TO vds:/srv") ≡ ok tt) ↔ (
        str "DEPLOY backup-1 TO vds:/srv"
        ≡ str "DEPLOY "
          ++ (sealed_manifest.backup_id.as_str
              ++ (str " TO " ++ (target.profile_id.as_str ++ (str ":" ++ str "/srv"))))))
build_deployment-approve_example =
    build_deployment-approve decode sealed_manifest target (record { as_str = str "/srv" })
      (str "DEPLOY backup-1 TO vds:/srv") deploys plans
