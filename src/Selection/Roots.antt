-- ===== src/Selection/Roots.antt =====
-- What `normalize_roots` gives (crates/guardian-core/src/capture_selection.rs).
mod Sorting
use vds_guardian.Prelude.{
  ℕ, ◌≡◌, ◌≢◌, ◌≤◌, refl, [], ◌∷◌, none, some, ◌⊎◌, inl, inr, false, List, All, In, ◌++◌, true,
  All-append, subst, eq-false_of_ne_true, arith, Any-append_left, Any-append_elim, Any-append_right,
  All_of_In, Option-cases, find, All-at, find-none, find_sound,
}
use vds_guardian.Text.{Text, len}
use vds_guardian.Identifiers.{RemotePath, covers}
use vds_guardian.Identifiers.Segments.{IsValidPath}
use vds_guardian.Identifiers.Paths.{covers-len, covers_refl}
use vds_guardian.Selection.Defs.{
  CaptureSelectionWarning, covered_path, Warnings, normalize_from, normalize_roots, sort_paths,
}
use Sorting.{IsSorted}
use vds_guardian.Selection.Roots.Sorting.{
  sort_paths-All, sort_paths-IsSorted, In-sort_paths, sort_paths-Any,
}

abbrev pub AreApart : RemotePath → RemotePath → Type 0
AreApart p q = (covers p q ≡ false) × (covers q p ≡ false)

-- No root covers another.
abbrev pub IsAntichain : List RemotePath → Type 0
IsAntichain [] = Unit
IsAntichain (p ∷ ps) = All (AreApart p) ps × IsAntichain ps

IsAntichain-append :
    (ps : List RemotePath) (q : RemotePath)
    → IsAntichain ps
    → All (λ p. AreApart p q) ps
    → IsAntichain (ps ++ q ∷ [])
IsAntichain-append [] q h k = (tt, tt)
IsAntichain-append (p ∷ ps) q (a, h) (b, k) =
    (All-append (AreApart p) ps (q ∷ []) a (b, tt), IsAntichain-append ps q h k)

-- The path is a root, or a warning names the root that covers it.
abbrev pub IsAccounted : List RemotePath → Warnings → RemotePath → Type 0
IsAccounted roots warnings p =
    In p roots
    ⊎ ((r : RemotePath) × In r roots × (covers r p ≡ true) × In (covered_path p r) warnings)

pub record IsNormal (given : List RemotePath) (roots : List RemotePath) (warnings : Warnings)
    : Type 0 where
  pub antichain : IsAntichain roots
  pub chosen : All (λ p. In p given) roots
  pub accounted : All (IsAccounted roots warnings) given

-- A path that no shorter root covers is apart from all of them.
apart_of_uncovered :
    (ps : List RemotePath) (q : RemotePath)
    → All IsValidPath ps
    → All (λ p. len p.as_str ≤ len q.as_str) ps
    → All (λ p. covers p q ≡ false) ps
    → All (λ p. AreApart p q) ps
apart_of_uncovered [] q v l h = tt
apart_of_uncovered (p ∷ ps) q (vp, v) (lp, l) (hp, h) = ((hp, other), apart_of_uncovered ps q v l h)
  where
    not_same : q ≢ p
    not_same e =
        let k : covers p p ≡ false = subst (λ x. covers p x ≡ false) e hp in cc (covers_refl p)

    other : covers q p ≡ false
    other =
        eq-false_of_ne_true (covers q p) (λ c. absurd (omega (arith, covers-len q p vp not_same c)))

-- What one run of the loop adds to what was there.
pub record IsStep (normalized : List RemotePath) (warnings : Warnings) (rest : List RemotePath)
    (result : List RemotePath × Warnings) : Type 0 where
  pub antichain : IsAntichain result.0
  pub kept : (p : RemotePath) → In p normalized → In p result.0
  pub warned : (w : CaptureSelectionWarning) → In w warnings → In w result.1
  pub chosen : (p : RemotePath) → In p result.0 → In p normalized ⊎ In p rest
  pub accounted : All (IsAccounted result.0 result.1) rest

normalize_from-IsStep :
    (normalized : List RemotePath) (warnings : Warnings) (rest : List RemotePath)
    → IsAntichain normalized
    → All IsValidPath normalized
    → All IsValidPath rest
    → IsSorted rest
    → All (λ q. All (λ p. len p.as_str ≤ len q.as_str) normalized) rest
    → IsStep normalized warnings rest (normalize_from normalized warnings rest)
unfolding normalize_from
normalize_from-IsStep ns ws [] a v w s l = record {
  antichain = a;
  kept = λ p m. m;
  warned = λ x m. m;
  chosen = λ p m. inl m;
  accounted = tt;
}
normalize_from-IsStep ns ws (q ∷ rest) a v (vq, w) (sq, s) (lq, l) =
    elim (Option-cases (find (λ parent. covers parent q) ns)) [
      | inl e ↦
          let apart = apart_of_uncovered ns q v lq (find-none (λ parent. covers parent q) ns e) in
          let step =
            normalize_from-IsStep (ns ++ q ∷ []) ws rest (IsAntichain-append ns q a apart)
              (All-append IsValidPath ns (q ∷ []) v (vq, tt)) w s (longer ns rest sq l) in
          rw (e, normalize_from) (keep_root step)
      | inr (r, e) ↦
          let (m, c) = find_sound (λ parent. covers parent q) ns r e in
          let step = normalize_from-IsStep ns (ws ++ covered_path q r ∷ []) rest a v w s l in
          rw (e, normalize_from) (drop_path r m c step)
    ]
  where
    longer :
        (ns rest : List RemotePath)
        → All (λ r. len q.as_str ≤ len r.as_str) rest
        → All (λ r. All (λ p. len p.as_str ≤ len r.as_str) ns) rest
        → All (λ r. All (λ p. len p.as_str ≤ len r.as_str) (ns ++ q ∷ [])) rest
    longer ns [] h k = tt
    longer ns (r ∷ rest) (h, hs) (k, ks) =
        (All-append (λ p. len p.as_str ≤ len r.as_str) ns (q ∷ []) k (h, tt), longer ns rest hs ks)

    keep_root :
        {res : List RemotePath × Warnings}
        → IsStep (ns ++ q ∷ []) ws rest res
        → IsStep ns ws (q ∷ rest) res
    keep_root step = record {
      antichain = step.antichain;
      kept = λ p m. step.kept p (Any-append_left (λ x. p ≡ x) ns (q ∷ []) m);
      warned = step.warned;
      chosen = λ p m. elim (step.chosen p m) [
        | inl k ↦ elim (Any-append_elim (λ x. p ≡ x) ns (q ∷ []) k) [
          | inl i ↦ inl i
          | inr (inl i) ↦ inr (inl i)
          | inr (inr i) ↦ absurd i
        ]
        | inr k ↦ inr (inr k)
      ];
      accounted = (
        inl (step.kept q (Any-append_right (λ x. q ≡ x) ns (q ∷ []) (inl refl))),
        step.accounted,
      );
    }

    drop_path :
        {res : List RemotePath × Warnings} (r : RemotePath)
        → In r ns
        → covers r q ≡ true
        → IsStep ns (ws ++ covered_path q r ∷ []) rest res
        → IsStep ns ws (q ∷ rest) res
    drop_path r m c step = record {
      antichain = step.antichain;
      kept = step.kept;
      warned = λ x k. step.warned x (Any-append_left (λ y. x ≡ y) ws (covered_path q r ∷ []) k);
      chosen = λ p k. elim (step.chosen p k) [ inl i ↦ inl i | inr i ↦ inr (inr i) ];
      accounted = (
        inr (
          r,
          step.kept r m,
          c,
          step.warned (covered_path q r)
              (Any-append_right (λ y. covered_path q r ≡ y) ws (covered_path q r ∷ []) (inl refl)),
        ),
        step.accounted,
      );
    }

none_longer :
    (ps : List RemotePath) → All (λ q. All (λ (p : RemotePath). len p.as_str ≤ len q.as_str) []) ps
none_longer [] = tt
none_longer (p ∷ ps) = (tt, none_longer ps)

-- Of valid roots, `normalize_roots` keeps only given ones, none of which covers another, and each
-- given root is kept or is named in a warning with a kept root that covers it.
pub normalize_roots-IsNormal :
    (given : List RemotePath) (warnings : Warnings)
    → All IsValidPath given
    → IsNormal given (normalize_roots given warnings).0 (normalize_roots given warnings).1
unfolding normalize_roots
normalize_roots-IsNormal given warnings v =
    let step =
      normalize_from-IsStep [] warnings (sort_paths given) tt tt
        (sort_paths-All IsValidPath given v) (sort_paths-IsSorted given)
        (none_longer (sort_paths given)) in
    record {
      antichain = step.antichain;
      chosen =
          All_of_In (λ p. In p given) _
            (λ p m. elim (step.chosen p m) [ inl k ↦ absurd k | inr k ↦ In-sort_paths p given k ]);
      accounted = All_of_In (IsAccounted _ _) given (λ p m.
          All-at (IsAccounted _ _) (sort_paths given) step.accounted
            (sort_paths-Any (λ x. p ≡ x) given m));
    }

normalize_from-warned :
    (ns : List RemotePath) (ws : Warnings) (rest : List RemotePath) (w : CaptureSelectionWarning)
    → In w ws
    → In w (normalize_from ns ws rest).1
unfolding normalize_from
normalize_from-warned ns ws [] w m = m
normalize_from-warned ns ws (q ∷ rest) w m =
    elim (Option-cases (find (λ parent. covers parent q) ns)) [
      | inl e ↦ rw (e, normalize_from) (normalize_from-warned (ns ++ q ∷ []) ws rest w m)
      | inr (r, e) ↦
          rw (e, normalize_from)
            (normalize_from-warned ns (ws ++ covered_path q r ∷ []) rest w
              (Any-append_left (λ y. w ≡ y) ws (covered_path q r ∷ []) m))
    ]

-- Earlier warnings stay.
pub normalize_roots-warned :
    (given : List RemotePath) (ws : Warnings) (w : CaptureSelectionWarning)
    → In w ws
    → In w (normalize_roots given ws).1
unfolding normalize_roots
normalize_roots-warned given ws w m = normalize_from-warned [] ws (sort_paths given) w m
