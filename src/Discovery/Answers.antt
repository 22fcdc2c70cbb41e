-- ===== src/Discovery/Answers.antt =====
-- When the preflight of databases, the check of a connection and the discovery of containers give an
-- answer (crates/guardian-core/src/database.rs, database_connection.rs, docker.rs).
use vds_guardian.Prelude.{
  ◌≡◌, ◌≢◌, ◌≤◌, ◌<◌, ◌↔◌, ◌⊎◌, refl, ap, sym, ◌∙◌, true, inl, inr, Option, some, List, [], ◌∷◌,
  Result, ok, All, Bool-cases, arith, not, is_empty, map_err, map_err-eq-ok, >>=-eq-ok,
  ensure-eq-ok, ok-injective, ok_or, ok_or-eq-ok, >>_iff, err-ne-ok, length, IsUnique, ◌==◌, ==→eq,
  list_eq, nat_eq, ensure_iff, false≢true,
}
use vds_guardian.Text.{Text, str, is_empty_text}
use vds_guardian.Identifiers.{ProfileId}
use vds_guardian.Profile.{VdsProfile, ProfileStorePortError, host_valid}
use vds_guardian.Docker.{DockerInventory, validate_inventory}
use vds_guardian.Docker.Checked.{IsValidContainer, container_ids, validate_inventory_iff}
use vds_guardian.Discovery.Databases.{
  DatabaseCapability, DatabaseCapabilityProbeError, validate_capability, is_compatible,
  is_valid_version, check_capabilities, database_preflight, DatabaseConnection, DatabaseVersion,
  DatabaseServerVersionProbeError, ssh_peer, credential_reference, database_valid,
  authentication_valid, DatabaseAuthentication, validate_connection, verify_connection,
  invalid_connection,
}
use vds_guardian.Discovery.Containers.{DockerInventoryPortError, discover_inventory}

abbrev pub IsSupported : DatabaseCapability → Type 0
IsSupported c = (0 < c.server_version.major) × (c.server_version.major ≡ c.dump_tool_version.major)

capability_iff :
    (c : DatabaseCapability)
    → ((validate_capability c ≡ ok tt) × (is_compatible c ≡ true)) ↔ IsSupported c
unfolding validate_capability is_valid_version is_compatible
capability_iff c = (λ h. ground arith, λ h. ground arith)

check_capabilities_iff :
    (cs : List DatabaseCapability) → (check_capabilities cs ≡ ok tt) ↔ All IsSupported cs
unfolding check_capabilities
check_capabilities_iff [] = (λ h. tt, λ h. refl)
check_capabilities_iff (c ∷ cs) = elim (Bool-cases (is_compatible c)) [
  | inl y ↦ (
    λ h.
        let (v, k) = (>>_iff _ _ tt).0 (rw y at h) in
        ((capability_iff c).0 (v, y), (check_capabilities_iff cs).0 k),
    λ (s, ss). rw (((capability_iff c).1 s).0, y) ((check_capabilities_iff cs).1 ss),
  )
  | inr n ↦ (
    λ h. absurd (err-ne-ok ((>>_iff _ _ tt).0 (rw n at h)).1),
    λ (s, _). absurd (cc (sym n ∙ ((capability_iff c).1 s).1)),
  )
]

nonempty_iff : {A : Type 0} (xs : List A) → (not (is_empty xs) ≡ true) ↔ (xs ≢ [])
nonempty_iff [] = (λ h. absurd (false≢true h), λ n. absurd (n refl))
nonempty_iff (x ∷ xs) = (λ h e. cc, λ n. refl)

module _ (get_profile : ProfileId → Result ProfileStorePortError (Option VdsProfile)) where
  -- The profile is stored, and the port answers with this about it.
  abbrev pub IsAnswer : {E A : Type 0} → (VdsProfile → Result E A) → ProfileId → A → Type 0
  IsAnswer port profile_id a =
      (profile : VdsProfile) × (get_profile profile_id ≡ ok (some profile)) × (port profile ≡ ok a)

  module _
      (probe : VdsProfile → Result DatabaseCapabilityProbeError (List DatabaseCapability)) where
    -- The preflight of databases gives exactly the capabilities that the probe reports of the stored
    -- profile, if there are any and each of them has the same major version, not 0, of the server
    -- and of the dump tool.
    pub database_preflight_iff :
        (profile_id : ProfileId) (capabilities : List DatabaseCapability)
        → (database_preflight get_profile probe profile_id ≡ ok capabilities) ↔ (
            IsAnswer probe profile_id capabilities
            × (capabilities ≢ [])
            × All IsSupported capabilities)
    unfolding database_preflight
    database_preflight_iff profile_id capabilities = (sound, complete)
      where
        sound :
            database_preflight get_profile probe profile_id ≡ ok capabilities
            → IsAnswer probe profile_id capabilities
              × (capabilities ≢ [])
              × All IsSupported capabilities
        sound h =
            let (found, v1, h1) = >>=-eq-ok (map_err _ (get_profile profile_id)) _ h in
            let (profile, v2, h2) = >>=-eq-ok (ok_or found _) _ h1 in
            let (cs, v3, h3) = >>=-eq-ok (map_err _ (probe profile)) _ h2 in
            let (v4, h4) = (>>_iff _ _ capabilities).0 h3 in
            let (v5, h5) = (>>_iff _ _ capabilities).0 h4 in
            let e = ok-injective h5 in
            (
              (
                profile,
                map_err-eq-ok _ (get_profile profile_id) v1 ∙ ap ok (ok_or-eq-ok found _ v2),
                map_err-eq-ok _ (probe profile) v3 ∙ ap ok e,
              ),
              (nonempty_iff capabilities).0 (rw (sym e) (ensure-eq-ok _ _ v4)),
              (check_capabilities_iff capabilities).0 (rw (sym e) v5),
            )

        complete :
            IsAnswer probe profile_id capabilities
              × (capabilities ≢ [])
              × All IsSupported capabilities
            → database_preflight get_profile probe profile_id ≡ ok capabilities
        complete ((profile, g, p), n, s) =
            rw (g, p, (nonempty_iff capabilities).1 n, (check_capabilities_iff capabilities).1 s)
              refl

  module _ (inspect : VdsProfile → Result DockerInventoryPortError DockerInventory) where
    -- Discovery gives exactly the inventory that the port reports of the stored profile, if it
    -- has at most 500 containers with different ids, each of them valid.
    pub discover_inventory_iff :
        (profile_id : ProfileId) (inventory : DockerInventory)
        → (discover_inventory get_profile inspect profile_id ≡ ok inventory) ↔ (
            IsAnswer inspect profile_id inventory
            × (length inventory.containers ≤ 500)
            × IsUnique (container_ids inventory.containers)
            × All IsValidContainer inventory.containers)
    unfolding discover_inventory
    discover_inventory_iff profile_id inventory = (
      λ h.
          let (found, v1, h1) = >>=-eq-ok (map_err _ (get_profile profile_id)) _ h in
          let (profile, v2, h2) = >>=-eq-ok (ok_or found _) _ h1 in
          let (i, v3, h3) = >>=-eq-ok (map_err _ (inspect profile)) _ h2 in
          let (v4, h4) = (>>_iff _ _ inventory).0 h3 in
          let e = ok-injective h4 in
          let (l, u, vs) =
            (validate_inventory_iff inventory).0
              (rw (sym e) (map_err-eq-ok _ (validate_inventory i) v4)) in
          (
            (
              profile,
              map_err-eq-ok _ (get_profile profile_id) v1 ∙ ap ok (ok_or-eq-ok found _ v2),
              map_err-eq-ok _ (inspect profile) v3 ∙ ap ok e,
            ),
            l,
            u,
            vs,
          ),
      λ ((profile, g, p), l, u, vs).
          rw (g, p, (validate_inventory_iff inventory).1 (l, u, vs)) refl,
    )

-- Who may connect: the peer of the SSH connection on the server itself, or a stored credential.
abbrev pub IsAuthentication : Text → DatabaseAuthentication → Type 0
IsAuthentication host ssh_peer = (host ≡ str "localhost") ⊎ (host ≡ str "127.0.0.1")
IsAuthentication host (credential_reference credential_id) = credential_id.as_str ≢ []

named_iff : (t : Text) → (not (is_empty_text t) ≡ true) ↔ (t ≢ [])
named_iff [] = (λ h. absurd (ground arith), λ n. absurd (n refl))
named_iff (c ∷ t) = (λ h e. cc, λ n. ground arith)

authentication_valid_iff :
    (host : Text) (a : DatabaseAuthentication)
    → (authentication_valid host a ≡ true) ↔ IsAuthentication host a
unfolding authentication_valid
authentication_valid_iff host ssh_peer = (
  λ h. elim (Bool-cases (host == str "localhost")) [
    | inl y ↦ inl (==→eq host (str "localhost") y)
    | inr n ↦ inr (==→eq host (str "127.0.0.1") (ground arith))
  ],
  λ h. elim h [
    | inl e ↦ by_first ((list_eq.beq_iff host (str "localhost")).1 e)
    | inr e ↦ by_second ((list_eq.beq_iff host (str "127.0.0.1")).1 e)
  ],
)
  where
    by_first : host == str "localhost" ≡ true → authentication_valid host ssh_peer ≡ true
    by_first y = ground arith

    by_second : host == str "127.0.0.1" ≡ true → authentication_valid host ssh_peer ≡ true
    by_second y = ground arith
authentication_valid_iff host (credential_reference id) = named_iff id.as_str

-- What `DatabaseConnection::validate` demands.
abbrev pub IsValidConnection : DatabaseConnection → Type 0
IsValidConnection c =
    (host_valid c.host ≡ true)
    × (database_valid c.database_name ≡ true)
    × IsAuthentication c.host c.authentication
    × (c.port ≢ 0)

validate_connection_iff :
    (c : DatabaseConnection) → (validate_connection c ≡ ok tt) ↔ IsValidConnection c
unfolding validate_connection
validate_connection_iff c = (
  λ h.
      let e = (ensure_iff _ invalid_connection).0 h in
      (
        ground arith,
        ground arith,
        (authentication_valid_iff c.host c.authentication).0 (ground arith),
        (λ q. absurd (ground arith)),
      ),
  λ (h, d, a, p).
      let k = (authentication_valid_iff c.host c.authentication).1 a in
      (ensure_iff _ invalid_connection).1 (ground arith),
)

-- The check of a connection gives exactly the version that the probe reports of it, if its
-- host and the name of its database are well-formed, its port is not 0, and it is authenticated by a
-- named credential, or as the SSH peer on the server itself.
pub verify_connection_iff :
    (probe_server : DatabaseConnection → Result DatabaseServerVersionProbeError DatabaseVersion)
    (connection : DatabaseConnection) (version : DatabaseVersion)
    → (verify_connection probe_server connection ≡ ok version)
      ↔ (IsValidConnection connection × (probe_server connection ≡ ok version))
unfolding verify_connection
verify_connection_iff probe_server c version = (
  λ h.
      let (_, v, k) = >>=-eq-ok (map_err _ (validate_connection c)) _ h in
      (
        (validate_connection_iff c).0 (map_err-eq-ok _ (validate_connection c) v),
        map_err-eq-ok _ (probe_server c) k,
      ),
  λ (v, p). rw ((validate_connection_iff c).1 v, p) refl,
)
