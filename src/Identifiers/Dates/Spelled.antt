-- ===== src/Identifiers/Dates/Spelled.antt =====
-- The date that twenty bytes of the canonical shape spell.
use vds_guardian.Prelude.{
  ℕ, ◌≤◌, ◌≡◌, refl, sym, ◌∙◌, Bool, true, [], ◌∷◌, arith, length, and-eq-true, ◌==◌, ◌&&◌,
  nat_beq_iff, nat_eq, ap₂,
}
use vds_guardian.Text.{Text, Bytes, is_digit}
use vds_guardian.Identifiers.Defs.{
  has_timestamp_shape, in_calendar, digits, digits_but, marks, ◌>>?◌, marks_at,
}
use vds_guardian.Identifiers.Dates.Print.{
  DateTime, value_four, print, two, four, value_two, four-value, two-value, fold_four, fold_two,
}

-- The date that twenty bytes of the shape spell.
abbrev pub spelled : Bytes → DateTime
spelled (a ∷ b ∷ c ∷ d ∷ _ ∷ e ∷ f ∷ _ ∷ g ∷ h ∷ _ ∷ i ∷ j ∷ _ ∷ k ∷ l ∷ _ ∷ m ∷ n ∷ _ ∷ []) =
    record {
      year = value_four a b c d;
      month = value_two e f;
      day = value_two g h;
      hour = value_two i j;
      minute = value_two k l;
      second = value_two m n;
    }
spelled _ = record { year = 0; month = 0; day = 0; hour = 0; minute = 0; second = 0 }

abbrev pub in_range : Bytes → Bool
in_range bs = digits bs 0 4 >>? λ y. digits bs 5 2 >>? λ m. digits bs 8 2 >>? λ d.
    digits bs 11 2 >>? λ h.
    digits bs 14 2 >>? λ min. digits bs 17 2 >>? λ sec. in_calendar y m d h min sec

abbrev pub Spells : Bytes → Type 0
Spells bs =
    (print (spelled bs) ≡ bs)
    × ((spelled bs).year ≤ 9999)
    × (in_range bs
        ≡ in_calendar (spelled bs).year (spelled bs).month (spelled bs).day (spelled bs).hour
            (spelled bs).minute (spelled bs).second)

pub two_step :
    (a b x mark : ℕ) {rest rest' : Text}
    → is_digit a ≡ true
    → is_digit b ≡ true
    → x ≡ mark
    → rest ≡ rest'
    → two (value_two a b) (mark ∷ rest) ≡ a ∷ b ∷ x ∷ rest'
two_step a b x mark {rest' = r} p q e h = two-value a b _ p q ∙ ap₂ (λ y t. a ∷ b ∷ y ∷ t) (sym e) h

pub four_step :
    (a b c d x mark : ℕ) {rest rest' : Text}
    → is_digit a ≡ true
    → is_digit b ≡ true
    → is_digit c ≡ true
    → is_digit d ≡ true
    → x ≡ mark
    → rest ≡ rest'
    → four (value_four a b c d) (mark ∷ rest) ≡ a ∷ b ∷ c ∷ d ∷ x ∷ rest'
four_step a b c d x mark p q r s e h =
    four-value a b c d _ p q r s ∙ ap₂ (λ y t. a ∷ b ∷ c ∷ d ∷ y ∷ t) (sym e) h

-- Twenty bytes, by name.
module _ (a b c d x e f y g h z i j u k l v m n w : ℕ) where
  abbrev pub named : Bytes
  named = a ∷ b ∷ c ∷ d ∷ x ∷ e ∷ f ∷ y ∷ g ∷ h ∷ z ∷ i ∷ j ∷ u ∷ k ∷ l ∷ v ∷ m ∷ n ∷ w ∷ []

  pub named-digits :
      digits_but 0 marks named ≡ true
      → (is_digit a ≡ true)
        × (is_digit b ≡ true)
        × (is_digit c ≡ true)
        × (is_digit d ≡ true)
        × (is_digit e ≡ true)
        × (is_digit f ≡ true)
        × (is_digit g ≡ true)
        × (is_digit h ≡ true)
        × (is_digit i ≡ true)
        × (is_digit j ≡ true)
        × (is_digit k ≡ true)
        × (is_digit l ≡ true)
        × (is_digit m ≡ true)
        × (is_digit n ≡ true)
  unfolding digits_but
  named-digits s = ground arith

  pub digits_but-named :
      is_digit a ≡ true
      → is_digit b ≡ true
      → is_digit c ≡ true
      → is_digit d ≡ true
      → is_digit e ≡ true
      → is_digit f ≡ true
      → is_digit g ≡ true
      → is_digit h ≡ true
      → is_digit i ≡ true
      → is_digit j ≡ true
      → is_digit k ≡ true
      → is_digit l ≡ true
      → is_digit m ≡ true
      → is_digit n ≡ true
      → digits_but 0 marks named ≡ true
  unfolding digits_but
  digits_but-named da db dc dd de df dg dh di dj dk dl dm dn =
      rw (da, db, dc, dd, de, df, dg, dh, di, dj, dk, dl, dm, dn)

  pub named-marks :
      marks_at named ≡ true
      → (x ≡ b'-') × (y ≡ b'-') × (z ≡ b'T') × (u ≡ b':') × (v ≡ b':') × (w ≡ b'Z')
  unfolding marks_at
  named-marks s = ground arith

  pub named-spelled : marks_at named ≡ true → digits_but 0 marks named ≡ true → Spells named
  unfolding digits print
  named-spelled s ds =
      let (ex, ey, ez, eu, ev, ew) = named-marks s in
      let (da, db, dc, dd, de, df, dg, dh, di, dj, dk, dl, dm, dn) = named-digits ds in
      (
        four_step a b c d x b'-' da db dc dd ex (
            two_step e f y b'-' de df ey (
              two_step g h z b'T' dg dh ez (
                two_step i j u b':' di dj eu
                  (two_step k l v b':' dk dl ev (two_step m n w b'Z' dm dn ew refl))))),
        year_bound da db dc dd,
        rw (
          fold_four a b c d da db dc dd,
          fold_two e f de df,
          fold_two g h dg dh,
          fold_two i j di dj,
          fold_two k l dk dl,
          fold_two m n dm dn,
        ),
      )
    where
      year_bound :
          is_digit a ≡ true
          → is_digit b ≡ true
          → is_digit c ≡ true
          → is_digit d ≡ true
          → value_four a b c d ≤ 9999
      year_bound p q r s = unfold value_four in ground arith

pub shape_parts :
    (bs : Bytes)
    → has_timestamp_shape bs ≡ true
    → (length bs ≡ 20) × (marks_at bs ≡ true) × (digits_but 0 marks bs ≡ true)
unfolding has_timestamp_shape
shape_parts bs s =
    let (h, t) = and-eq-true (length bs == 20 && marks_at bs) (digits_but 0 marks bs) s in
    let (l, m) = and-eq-true (length bs == 20) (marks_at bs) h in
    ((nat_beq_iff (length bs) 20).0 l, m, t)

pub spelled_lem :
    (bs : Bytes) → length bs ≡ 20 → marks_at bs ≡ true → digits_but 0 marks bs ≡ true → Spells bs
spelled_lem (a ∷ b ∷ c ∷ d ∷ x ∷ e ∷ f ∷ y ∷ g ∷ h ∷ z ∷ i ∷ j ∷ u ∷ k ∷ l ∷ v ∷ m ∷ n ∷ w ∷ [])
      size marked digital =
    named-spelled a b c d x e f y g h z i j u k l v m n w marked digital
spelled_lem _ size marked digital = absurd (omega arith)
