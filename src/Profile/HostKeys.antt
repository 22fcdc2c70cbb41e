-- ===== src/Profile/HostKeys.antt =====
-- Which pinned host keys are accepted (crates/guardian-core/src/profile.rs).
use vds_guardian.Prelude.{
  ℕ, suc, zero, ◌≡◌, ◌≢◌, ◌≤◌, ◌<◌, ◌+◌, ◌-◌, ◌*◌, ◌/◌, ◌%◌, ◌↔◌, inl, inr, refl, Bool, true,
  Option, some, [], ◌∷◌, ◌++◌, ◌&&◌, any, All, In, any→Any, Any→any, Any-map, leb, ltb, ◌==◌,
  nat_eq, list_eq, option_eq, ==→eq, length, length-append, take, drop, take-append-drop,
  length-drop, ok, >>=-eq-ok, ensure_iff, ok_or, arith, and-eq-true, sym, ap, ap₂, ◌∙◌, ok_or-eq-ok,
}
use vds_guardian.Text.{Text, Bytes, bytes, len, encode}
use vds_guardian.Profile.Defs.{
  HostPin, invalid_host_pin, known_algorithms, get_range, announced_length, validate_pin,
}

-- A length as four bytes, the highest first.
abbrev pub be32 : ℕ → Bytes
be32 n = n / 0x1000000 % 256 ∷ n / 0x10000 % 256 ∷ n / 0x100 % 256 ∷ n % 256 ∷ []

-- A key blob of SSH: the algorithm's name behind its length, and then the key.
abbrev pub key_blob : Text → Bytes → Bytes
key_blob algorithm key = be32 (len algorithm) ++ bytes algorithm ++ key

abbrev pub IsByte : ℕ → Type 0
IsByte b = b < 256

take-append : (xs ys : Bytes) → take (length xs) (xs ++ ys) ≡ xs
take-append [] ys = refl
take-append (x ∷ xs) ys = ap (λ r. x ∷ r) (take-append xs ys)

be32_of_bytes :
    (b0 b1 b2 b3 : ℕ)
    → b0 < 256
    → b1 < 256
    → b2 < 256
    → b3 < 256
    → be32 (b0 * 0x1000000 + b1 * 0x10000 + b2 * 0x100 + b3) ≡ b0 ∷ b1 ∷ b2 ∷ b3 ∷ []
be32_of_bytes b0 b1 b2 b3 h0 h1 h2 h3 =
    let n = b0 * 0x1000000 + b1 * 0x10000 + b2 * 0x100 + b3 in
    let e0 : n / 0x1000000 % 256 ≡ b0 = omega arith in
    let e1 : n / 0x10000 % 256 ≡ b1 = omega arith in
    let e2 : n / 0x100 % 256 ≡ b2 = omega arith in
    let e3 : n % 256 ≡ b3 = omega arith in rw (e0, e1, e2, e3) refl

announced-be32 :
    (n : ℕ) (rest : Bytes) → n < 0x100000000 → announced_length (be32 n ++ rest) ≡ some n
unfolding announced_length
announced-be32 n rest h = ap some (omega arith)

length-take-exact : (n : ℕ) (xs : Bytes) → n ≤ length xs → length (take n xs) ≡ n
length-take-exact zero xs h = refl
length-take-exact (suc n) [] h = absurd (omega arith)
length-take-exact (suc n) (x ∷ xs) h = omega (arith, length-take-exact n xs (omega arith))

known_len : (a : Text) → In a known_algorithms → len a < 0x100000000
unfolding len bytes encode
known_len a (inl e) = rw e (omega arith)
known_len a (inr (inl e)) = rw e (omega arith)
known_len a (inr (inr (inl e))) = rw e (omega arith)
known_len a (inr (inr (inr (inl e)))) = rw e (omega arith)
known_len a (inr (inr (inr (inr x)))) = absurd x

some-bytes : {x y : Bytes} → some x ≡ some y → x ≡ y
some-bytes e = cc

-- The range behind the length holds the name.
range_sound :
    (b0 b1 b2 b3 : ℕ) (rest name : Bytes) (n : ℕ)
    → (get_range (b0 ∷ b1 ∷ b2 ∷ b3 ∷ rest) 4 (4 + n) == some name) ≡ true
    → n < length rest
    → (take n rest ≡ name) × (n ≡ length name)
range_sound b0 b1 b2 b3 rest name n h l =
    let inside : leb (4 + n) (length (b0 ∷ b1 ∷ b2 ∷ b3 ∷ rest)) ≡ true = ground arith in
    let width : 4 + n - 4 ≡ n = omega arith in
    let e = ==→eq (get_range (b0 ∷ b1 ∷ b2 ∷ b3 ∷ rest) 4 (4 + n)) (some name) h in
    let q : take n rest ≡ name = some-bytes (rw (inside, width) at e) in
    (q, sym (length-take-exact n rest (omega arith)) ∙ ap length q)

abbrev header_test : Text → Bytes → ℕ → Bool
header_test algorithm ds n =
    get_range ds 4 (4 + n) == some (bytes algorithm) && ltb (4 + n) (length ds)

nonempty_of_lt : (bs : Bytes) → 0 < length bs → bs ≢ []
nonempty_of_lt bs h e = absurd (omega (arith, ap length e))

header_sound :
    (algorithm : Text) (ds : Bytes) (n : ℕ)
    → All IsByte ds
    → announced_length ds ≡ some n
    → header_test algorithm ds n ≡ true
    → (key : Bytes) × (key ≢ []) × (ds ≡ key_blob algorithm key)
unfolding announced_length len
header_sound algorithm [] n b a h = cc
header_sound algorithm (_ ∷ []) n b a h = cc
header_sound algorithm (_ ∷ _ ∷ []) n b a h = cc
header_sound algorithm (_ ∷ _ ∷ _ ∷ []) n b a h = cc
header_sound algorithm (b0 ∷ b1 ∷ b2 ∷ b3 ∷ rest) n (h0, (h1, (h2, (h3, _)))) a h =
    let (x, y) =
      and-eq-true (get_range (b0 ∷ b1 ∷ b2 ∷ b3 ∷ rest) 4 (4 + n) == some (bytes algorithm)) _ h in
    let more : n < length rest = ground arith in
    let (q, size) = range_sound b0 b1 b2 b3 rest (bytes algorithm) n x more in
    let whole : b0 * 0x1000000 + b1 * 0x10000 + b2 * 0x100 + b3 ≡ n = ground arith in
    let header : be32 (length (bytes algorithm)) ≡ b0 ∷ b1 ∷ b2 ∷ b3 ∷ [] =
      ap be32 (sym size ∙ sym whole) ∙ be32_of_bytes b0 b1 b2 b3 h0 h1 h2 h3 in
    (
      drop n rest,
      nonempty_of_lt (drop n rest) (omega (arith, length-drop n rest)),
      ap₂ (λ u v. u ++ v) (sym header)
          (sym (take-append-drop n rest) ∙ ap (λ u. u ++ drop n rest) q),
    )

header_complete :
    (algorithm : Text) (key : Bytes)
    → key ≢ []
    → header_test algorithm (key_blob algorithm key) (len algorithm) ≡ true
unfolding len
header_complete algorithm [] h = absurd (h refl)
header_complete algorithm (k ∷ key) h =
    let size = length-append (bytes algorithm) (k ∷ key) in
    let inside : leb (4 + length (bytes algorithm)) (length (key_blob algorithm (k ∷ key))) ≡ true =
      ground (arith, size) in
    let beyond : ltb (4 + length (bytes algorithm)) (length (key_blob algorithm (k ∷ key))) ≡ true =
      ground (arith, size) in
    let width : 4 + length (bytes algorithm) - 4 ≡ length (bytes algorithm) = omega arith in
    let same : (some (bytes algorithm) == some (bytes algorithm)) ≡ true =
      (option_eq.beq_iff (some (bytes algorithm)) (some (bytes algorithm))).1 refl in
    rw (inside, width, take-append (bytes algorithm) (k ∷ key), same, beyond) refl

module _ (decode : Text → Option Bytes)
    (decode-IsByte : (t : Text) (bs : Bytes) → decode t ≡ some bs → All IsByte bs) where
  -- The pinned key is of a known algorithm, and it decodes to that algorithm's key blob.
  abbrev pub IsKeyPin : HostPin → Type 0
  IsKeyPin pin =
      In pin.algorithm known_algorithms
      × ((key : Bytes) × (key ≢ [])
          × (decode pin.public_key_base64 ≡ some (key_blob pin.algorithm key)))

  known_iff : (a : Text) → (any (λ name. a == name) known_algorithms ≡ true) ↔ In a known_algorithms
  known_iff a = (
    λ h.
        Any-map (λ n e. ==→eq a n e) known_algorithms
          (any→Any (λ name. a == name) known_algorithms h),
    λ m.
        Any→any (λ name. a == name) known_algorithms
          (Any-map (λ n e. (list_eq.beq_iff a n).1 e) known_algorithms m),
  )

  -- If the base64 decoder yields bytes, a pinned host key is accepted exactly when its algorithm is
  -- one of the four known ones and it decodes to an SSH key blob of this algorithm: the name's
  -- length as four bytes, the name, and a key that is not empty.
  pub validate_pin_iff : (pin : HostPin) → (validate_pin decode pin ≡ ok tt) ↔ IsKeyPin pin
  unfolding validate_pin
  validate_pin_iff pin = (sound, complete)
    where
      sound : validate_pin decode pin ≡ ok tt → IsKeyPin pin
      sound h =
          let (ds, d, k1) = >>=-eq-ok (ok_or (decode pin.public_key_base64) invalid_host_pin) _ h in
          let (n, a, k2) = >>=-eq-ok (ok_or (announced_length ds) invalid_host_pin) _ k1 in
          let (x, y) =
            and-eq-true (any (λ name. pin.algorithm == name) known_algorithms) _
              ((ensure_iff _ invalid_host_pin).0 k2) in
          let e = ok_or-eq-ok (decode pin.public_key_base64) _ d in
          let (key, full, q) =
            header_sound pin.algorithm ds n (decode-IsByte pin.public_key_base64 ds e)
              (ok_or-eq-ok (announced_length ds) _ a) y in
          ((known_iff pin.algorithm).0 x, (key, full, e ∙ ap some q))

      complete : IsKeyPin pin → validate_pin decode pin ≡ ok tt
      complete (m, (key, full, e)) =
          let a =
            announced-be32 (len pin.algorithm) (bytes pin.algorithm ++ key)
              (known_len pin.algorithm m) in
          let x = (known_iff pin.algorithm).1 m in
          let y = header_complete pin.algorithm key full in
          rw (e, a, x) ((ensure_iff _ invalid_host_pin).1 y)
