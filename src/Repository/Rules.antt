-- ===== src/Repository/Rules.antt =====
-- Rules for calls that may fail or be stopped: what holds after an answer, after an error, and where
-- the process ends. With `calm` no call fails and nothing is stopped.
use vds_guardian.Prelude.{
  ◌≡◌, Bool, true, false, Bool-cases, inl, inr, List, [], ◌∷◌, Result, ok, err,
}
use vds_guardian.Repository.Files.{
  RepositoryError, Disk, Fault, fine, fails, stops, World, Outcome, done, failed, stopped, M, pure,
  fail, go_on, ◌>>=◌, handled, handle, settle, perform_at, perform, look, io, inspect,
}

module _ {T : Type 0} where
  abbrev pub Ends :
      {A : Type 0}
      → (A → Disk T → Type 0)
      → (RepositoryError → Disk T → Type 0)
      → (Disk T → Type 0)
      → World T × Outcome A
      → Type 0
  Ends S F R (w, done a) = S a w.disk
  Ends S F R (w, failed e) = F e w.disk
  Ends S F R (w, stopped) = R w.disk

  abbrev pub After :
      {A : Type 0}
      → (A → Disk T → Type 0)
      → (RepositoryError → Disk T → Type 0)
      → Disk T × Result RepositoryError A
      → Type 0
  After S F (d, ok a) = S a d
  After S F (d, err e) = F e d

  abbrev pub Quiet : Bool → World T → Type 0
  Quiet calm w = calm ≡ true → w.faults ≡ []

  -- From a disk with `P` the program answers with `S`, fails with `F`, or is stopped with `R`.
  pub record Runs {A : Type 0} (calm : Bool) (P : Disk T → Type 0) (m : M T A)
      (S : A → Disk T → Type 0) (F : RepositoryError → Disk T → Type 0) (R : Disk T → Type 0)
      : Type 0 where
    pub runs : (w : World T) → Quiet calm w → P w.disk → Quiet calm (m w).0 × Ends S F R (m w)

module _ {T : Type 0} {calm : Bool} {F : RepositoryError → Disk T → Type 0}
    {R : Disk T → Type 0} where
  pub Runs-bind :
      {A B : Type 0} {P : Disk T → Type 0} (Q : A → Disk T → Type 0) {S : B → Disk T → Type 0}
      (m : M T A) (f : A → M T B)
      → Runs calm P m Q F R
      → ((a : A) → Runs calm (Q a) (f a) S F R)
      → Runs calm P (m >>= f) S F R
  Runs-bind {A} {B} Q {S} m f first later = record {
    runs = λ w quiet p. let (q, e) = first.runs w quiet p in next (m w) q e;
  }
    where
      next :
          (r : World T × Outcome A)
          → Quiet calm r.0
          → Ends Q F R r
          → Quiet calm (go_on r f).0 × Ends S F R (go_on r f)
      next (w, done a) q e = (later a).runs w q e
      next (w, failed x) q e = (q, e)
      next (w, stopped) q e = (q, e)

  pub Runs-handle :
      {A : Type 0} {P : Disk T → Type 0} (G : RepositoryError → Disk T → Type 0)
      {S : A → Disk T → Type 0} (m : M T A) (h : RepositoryError → M T A)
      → Runs calm P m S G R
      → ((e : RepositoryError) → Runs calm (G e) (h e) S F R)
      → Runs calm P (handle m h) S F R
  Runs-handle {A} G {S} m h first later = record {
    runs = λ w quiet p. let (q, e) = first.runs w quiet p in next (m w) q e;
  }
    where
      next :
          (r : World T × Outcome A)
          → Quiet calm r.0
          → Ends S G R r
          → Quiet calm (handled r h).0 × Ends S F R (handled r h)
      next (w, done a) q e = (q, e)
      next (w, failed x) q e = (later x).runs w q e
      next (w, stopped) q e = (q, e)

  pub Runs-perform :
      {A : Type 0} {P : Disk T → Type 0} {S : A → Disk T → Type 0} (error : RepositoryError)
      (call : Disk T → Disk T × Result RepositoryError A)
      → ((d : Disk T) → P d → After S F (call d))
      → (calm ≡ false → (d : Disk T) → P d → F error d × R d)
      → Runs calm P (perform error call) S F R
  unfolding perform
  Runs-perform {A} {P} {S} error call step fault = record {
    runs = λ w quiet p. by_faults w.faults w.disk quiet p;
  }
    where
      settled :
          (faults : List Fault) (r : Disk T × Result RepositoryError A)
          → (calm ≡ true → faults ≡ [])
          → After S F r
          → Quiet calm (settle faults r).0 × Ends S F R (settle faults r)
      settled faults (d, ok a) q s = (q, s)
      settled faults (d, err e) q s = (q, s)

      rest :
          (x : Fault) (faults : List Fault)
          → (calm ≡ true → x ∷ faults ≡ [])
          → calm ≡ true
          → faults ≡ []
      rest x faults q t = absurd (cc (q t))

      not_calm : (x : Fault) (faults : List Fault) → (calm ≡ true → x ∷ faults ≡ []) → calm ≡ false
      not_calm x faults q = elim (Bool-cases calm) [ inl t ↦ absurd (cc (q t)) | inr f ↦ f ]

      by_faults :
          (faults : List Fault) (d : Disk T)
          → (calm ≡ true → faults ≡ [])
          → P d
          → Quiet calm (perform_at faults error call d).0
            × Ends S F R (perform_at faults error call d)
      by_faults [] d q p = settled [] (call d) q (step d p)
      by_faults (fine ∷ faults) d q p = settled faults (call d) (rest fine faults q) (step d p)
      by_faults (fails ∷ faults) d q p =
          (rest fails faults q, (fault (not_calm fails faults q) d p).0)
      by_faults (stops ∷ faults) d q p =
          (rest stops faults q, (fault (not_calm stops faults q) d p).1)

  pub Runs-pure :
      {A : Type 0} {P : Disk T → Type 0} {S : A → Disk T → Type 0} (a : A)
      → ((d : Disk T) → P d → S a d)
      → Runs calm P (pure a) S F R
  Runs-pure a h = record { runs = λ w q p. (q, h w.disk p) }

  pub Runs-fail :
      {A : Type 0} {P : Disk T → Type 0} {S : A → Disk T → Type 0} (e : RepositoryError)
      → ((d : Disk T) → P d → F e d)
      → Runs calm P (fail {A = A} e) S F R
  Runs-fail e h = record { runs = λ w q p. (q, h w.disk p) }

  pub Runs-look :
      {A : Type 0} {P : Disk T → Type 0} {S : A → Disk T → Type 0} (test : Disk T → A)
      → ((d : Disk T) → P d → S (test d) d)
      → Runs calm P (look test) S F R
  Runs-look test h = record { runs = λ w q p. (q, h w.disk p) }

  pub Runs-from :
      {A : Type 0} {P Q : Disk T → Type 0} {S : A → Disk T → Type 0} (m : M T A)
      → ((d : Disk T) → P d → Q d)
      → Runs calm Q m S F R
      → Runs calm P m S F R
  Runs-from m f h = record { runs = λ w q p. h.runs w q (f w.disk p) }

  pub Runs-to :
      {A : Type 0} {P : Disk T → Type 0} {S S' : A → Disk T → Type 0} (m : M T A)
      → ((a : A) (d : Disk T) → S a d → S' a d)
      → Runs calm P m S F R
      → Runs calm P m S' F R
  Runs-to {A} {P} {S} {S'} m f h = record {
    runs = λ w q p. let (q', e) = h.runs w q p in (q', widen (m w) e);
  }
    where
      widen : (r : World T × Outcome A) → Ends S F R r → Ends S' F R r
      widen (w, done a) e = f a w.disk e
      widen (w, failed x) e = e
      widen (w, stopped) e = e

  -- A call that changes nothing and gives what it reads.
  pub Runs-inspect :
      {A : Type 0} {P : Disk T → Type 0} {S : A → Disk T → Type 0}
      (test : Disk T → Result RepositoryError A)
      → ((d : Disk T) → P d → After S F (d, test d))
      → (calm ≡ false → (d : Disk T) → P d → F io d × R d)
      → Runs calm P (inspect test) S F R
  Runs-inspect test step fault = Runs-perform io (λ d. (d, test d)) step fault

module _ {T : Type 0} {calm : Bool} {F G : RepositoryError → Disk T → Type 0}
    {R : Disk T → Type 0} where
  pub Runs-fails :
      {A : Type 0} {P : Disk T → Type 0} {S : A → Disk T → Type 0} (m : M T A)
      → ((e : RepositoryError) (d : Disk T) → F e d → G e d)
      → Runs calm P m S F R
      → Runs calm P m S G R
  Runs-fails {A} {P} {S} m f h = record {
    runs = λ w q p. let (q', e) = h.runs w q p in (q', widen (m w) e);
  }
    where
      widen : (r : World T × Outcome A) → Ends S F R r → Ends S G R r
      widen (w, done a) e = e
      widen (w, failed x) e = f x w.disk e
      widen (w, stopped) e = e

pub After-to :
    {T A : Type 0} (S : A → Disk T → Type 0) (F : RepositoryError → Disk T → Type 0)
    (S' : A → Disk T → Type 0) (F' : RepositoryError → Disk T → Type 0)
    (r : Disk T × Result RepositoryError A)
    → After S F r
    → ((a : A) (d : Disk T) → S a d → S' a d)
    → ((e : RepositoryError) (d : Disk T) → F e d → F' e d)
    → After S' F' r
After-to S F S' F' (d, ok a) h f g = f a d h
After-to S F S' F' (d, err e) h f g = g e d h
