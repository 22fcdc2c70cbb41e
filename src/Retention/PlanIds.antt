-- ===== src/Retention/PlanIds.antt =====
-- The making of a plan, and its id
-- (crates/guardian-core/src/retention.rs).
use vds_guardian.Prelude.{
  All-map, all→All, suc, zero, ℕ, ◌*◌, ◌/◌, ◌%◌, ◌-◌, ◌<◌, ◌≡◌, refl, [], ◌∷◌, All, length, Option,
  arith, ◌≢◌, some, ap, List, ok, take, ltb, ◌&&◌, false, ◌+◌, ◌⊎◌, subst, ◌≤◌,
}
use vds_guardian.Text.{Bytes, Text}
use vds_guardian.Identifiers.{is_identifier_byte, RepositoryId, PlanId, plan, parse}
use vds_guardian.Identifiers.Names.{IsNameChar, IsName, parse_iff, is_identifier_byte_iff}
use vds_guardian.Retention.Defs.{
  RetentionPolicy, RetentionSnapshotEntry, RetentionPlan, PlanDigest, build_retention_plan, hex,
  nth, alphabet, backup_ids,
}
use vds_guardian.Retention.Kept.{IsValidPolicy}

abbrev pub IsByte : ℕ → Type 0
IsByte b = b < 256

nth-All : (P : ℕ → Type 0) (xs : List ℕ) (n : ℕ) → n < length xs → All P xs → P (nth xs n)
nth-All P [] n h a = absurd (omega arith)
nth-All P (x ∷ xs) zero h (p, a) = p
nth-All P (x ∷ xs) (suc n) h (p, a) = nth-All P xs n (omega arith) a

alphabet-IsName : All IsNameChar alphabet
alphabet-IsName =
    All-map (λ c e. (is_identifier_byte_iff c).0 e) alphabet
      (all→All is_identifier_byte alphabet refl)

digit-IsNameChar : (n : ℕ) → n < 16 → IsNameChar (nth alphabet n)
digit-IsNameChar n h = nth-All IsNameChar alphabet n h alphabet-IsName

hex-IsNameChar : (bs : Bytes) → All IsByte bs → All IsNameChar (hex bs)
unfolding hex
hex-IsNameChar [] h = tt
hex-IsNameChar (b ∷ bs) (l, h) = (
  digit-IsNameChar (b / 16) (omega arith),
  (digit-IsNameChar (b % 16) (omega arith), hex-IsNameChar bs h),
)

length-hex : (bs : Bytes) → length (hex bs) ≡ 2 * length bs
unfolding hex
length-hex [] = omega arith
length-hex (b ∷ bs) = omega (arith, length-hex bs)

hex-IsName : (bs : Bytes) → All IsByte bs → length bs ≡ 32 → IsName (hex bs)
hex-IsName bs h l = (nonempty, omega (arith, length-hex bs), hex-IsNameChar bs h)
  where
    nonempty : hex bs ≢ []
    nonempty e = absurd (omega (arith, length-hex bs, ap length e))

-- The lower-case digit of a number below 16.
abbrev pub Spells : ℕ → ℕ → Type 0
Spells c n = ((n < 10) × (c ≡ b'0' + n)) ⊎ ((10 ≤ n) × (n < 16) × (c ≡ b'a' + (n - 10)))

-- The text has two digits for each byte, the high one first.
abbrev pub IsHexOf : Text → Bytes → Type 0
IsHexOf [] [] = Unit
IsHexOf [] (b ∷ bs) = ⊥
IsHexOf (c ∷ t) [] = ⊥
IsHexOf (c ∷ []) (b ∷ bs) = ⊥
IsHexOf (c ∷ d ∷ t) (b ∷ bs) =
    ((high : ℕ) × (low : ℕ) × Spells c high × Spells d low × (high * 16 + low ≡ b)) × IsHexOf t bs

-- The digits from a number on.
SpellsFrom : ℕ → List ℕ → Type 0
SpellsFrom n [] = Unit
SpellsFrom n (c ∷ cs) = Spells c n × SpellsFrom (suc n) cs

nth-SpellsFrom :
    (cs : List ℕ) (m n : ℕ) → n < length cs → SpellsFrom m cs → Spells (nth cs n) (m + n)
unfolding SpellsFrom
nth-SpellsFrom [] m n h s = absurd (omega arith)
nth-SpellsFrom (c ∷ cs) m zero h (p, s) = subst (Spells c) (omega arith) p
nth-SpellsFrom (c ∷ cs) m (suc n) h (p, s) =
    subst (Spells (nth cs n)) (omega arith) (nth-SpellsFrom cs (suc m) n (omega arith) s)

alphabet-SpellsFrom : SpellsFrom 0 alphabet
unfolding SpellsFrom
alphabet-SpellsFrom = omega arith

digit-Spells : (n : ℕ) → n < 16 → Spells (nth alphabet n) n
digit-Spells n h =
    subst (Spells (nth alphabet n)) (omega arith)
      (nth-SpellsFrom alphabet 0 n h alphabet-SpellsFrom)

hex-IsHexOf : (bs : Bytes) → All IsByte bs → IsHexOf (hex bs) bs
unfolding hex
hex-IsHexOf [] h = tt
hex-IsHexOf (b ∷ bs) (l, h) = (
  (
    b / 16,
    b % 16,
    digit-Spells (b / 16) (omega arith),
    digit-Spells (b % 16) (omega arith),
    omega arith,
  ),
  hex-IsHexOf bs h,
)

module _ (to_vec : PlanDigest → Option Bytes) (sha256 : Bytes → Bytes) where
  -- A plan for this repository, policy and snapshot, under the digest of what it decides as its id.
  abbrev pub IsPlanFor :
      RepositoryId → RetentionPolicy → List RetentionSnapshotEntry → RetentionPlan → Type 0
  IsPlanFor repository policy snapshot p =
      (p.repository_id ≡ repository)
      × (p.policy ≡ policy)
      × (p.snapshot ≡ snapshot)
      × (bs : Bytes) × (to_vec (record {
        repository_id = p.repository_id;
        policy = p.policy;
        snapshot = p.snapshot;
        delete_backup_ids = p.delete_backup_ids;
      })
          ≡ some bs)
      × IsHexOf p.plan_id.as_str (sha256 bs)

module _ (to_vec : PlanDigest → Option Bytes) (sha256 : Bytes → Bytes)
    (encodes : (d : PlanDigest) → (bs : Bytes) × (to_vec d ≡ some bs))
    (digest_size : (bs : Bytes) → (length (sha256 bs) ≡ 32) × All IsByte (sha256 bs)) where
  -- If the encoder never fails and digests have 32 bytes, then for every policy that
  -- `RetentionPolicy::new` accepts a plan is made: neither error can occur. The plan is for the given
  -- repository, policy and snapshot, and its id spells, with two lower-case hexadecimal digits for
  -- each byte, the digest of the encoded repository, policy, snapshot and ids to delete.
  pub build-total :
      (repository : RepositoryId) (policy : RetentionPolicy)
      (snapshot : List RetentionSnapshotEntry)
      → IsValidPolicy policy
      → (p : RetentionPlan) × (build_retention_plan to_vec sha256 repository policy snapshot ≡ ok p)
        × IsPlanFor to_vec sha256 repository policy snapshot p
  unfolding build_retention_plan
  build-total repository policy snapshot (m, le) =
      let n = length snapshot - policy.max_backups in
      let digest : PlanDigest = record {
        repository_id = repository;
        policy = policy;
        snapshot = snapshot;
        delete_backup_ids = backup_ids (take n snapshot);
      } in
      let enough : ltb 0 n && ltb (length snapshot - n) policy.minimum_backups ≡ false =
        ground arith in
      let (bs, e) = encodes digest in
      let (size, small) = digest_size bs in
      let id : PlanId = record { as_str = hex (sha256 bs) } in
      let parsed : parse plan (hex (sha256 bs)) ≡ ok id =
        (parse_iff plan (hex (sha256 bs)) id).1 (refl, hex-IsName (sha256 bs) small size) in
      (
        record {
          plan_id = id;
          repository_id = repository;
          policy = policy;
          snapshot = snapshot;
          delete_backup_ids = backup_ids (take n snapshot);
        },
        rw (enough, e, parsed) refl,
        (refl, refl, refl, bs, e, hex-IsHexOf (sha256 bs) small),
      )
