-- ===== src/Selection/Preview/Resolve.antt =====
-- What the resolution of the selected items has checked, and what it warns of
-- (crates/guardian-core/src/capture_selection.rs).
use vds_guardian.Prelude.{
  ◌≡◌, refl, [], ◌∷◌, none, some, List, any, true, Option, Bool, arith, ◌++◌, find, ==-refl, All,
  All-map, ok_or, ok, ◌==◌, nat_eq, list_eq, is_empty, filter, false, map, >>=-eq-ok, not,
  ok-injective, ap, ◌||◌, subst, sym, >>_iff, ◌∙◌, ensure, ensure_iff, ap₂,
}
use vds_guardian.Text.{Text}
use vds_guardian.Identifiers.{RemotePath}
use vds_guardian.Docker.{DockerInventory, DockerContainer}
use vds_guardian.Selection.Defs.{
  BackupSelectionItem, remote_path, docker_mount, docker_group, Warnings, CaptureSelectionWarning,
  live_docker_data, is_live, is_live_warning_for, append_live_warning, append_live_warnings,
  resolve_mount, resolve_group, resolve_item, resolve_items, mount_is, in_project, same_set,
  capturable_paths, docker_inventory_required, docker_selection_changed,
}

-- The paths that the items name.
abbrev pub item_paths : BackupSelectionItem → List RemotePath
item_paths (remote_path p) = p ∷ []
item_paths (docker_mount c d p) = p ∷ []
item_paths (docker_group g ps) = ps

abbrev pub requested : List BackupSelectionItem → List RemotePath
requested [] = []
requested (item ∷ items) = item_paths item ++ requested items

-- A container whose data may change while it is copied is warned of.
abbrev pub IsWarnedIfLive : Warnings → DockerContainer → Type 0
IsWarnedIfLive ws c = is_live c.state ≡ true → any (is_live_warning_for c.id) ws ≡ true

-- What holds of an accepted item, with the final warnings.
abbrev pub IsBacked : Option DockerInventory → Warnings → BackupSelectionItem → Type 0
IsBacked inventory ws (remote_path p) = Unit
IsBacked inventory ws (docker_mount id d p) =
    (known : DockerInventory) × (inventory ≡ some known)
    × ((c : DockerContainer) × (find (λ x. x.id == id) known.containers ≡ some c)
        × (any (mount_is d p) c.mounts ≡ true)
        × IsWarnedIfLive ws c)
IsBacked inventory ws (docker_group g ps) =
    (known : DockerInventory) × (inventory ≡ some known)
    × (is_empty (filter (in_project g) known.containers) ≡ false)
    × (same_set (capturable_paths (filter (in_project g) known.containers)) (map (λ p. p.as_str) ps)
        ≡ true)
    × All (IsWarnedIfLive ws) (filter (in_project g) known.containers)

-- Warnings are only added.
abbrev pub Grows : Warnings → Warnings → Type 0
Grows ws ws' = (test : CaptureSelectionWarning → Bool) → any test ws ≡ true → any test ws' ≡ true

pub any-append_left :
    (test : CaptureSelectionWarning → Bool) (ws vs : Warnings)
    → any test ws ≡ true
    → any test (ws ++ vs) ≡ true
any-append_left test [] vs h = cc
any-append_left test (w ∷ ws) vs h = ground (arith, any-append_left test ws vs)

any-append_last :
    (test : CaptureSelectionWarning → Bool) (ws : Warnings) (w : CaptureSelectionWarning)
    → test w ≡ true
    → any test (ws ++ w ∷ []) ≡ true
any-append_last test [] w h = ground arith
any-append_last test (v ∷ ws) w h = ground (arith, any-append_last test ws w h)

append_live_warning-Grows :
    (c : DockerContainer) (ws : Warnings) → Grows ws (append_live_warning c ws)
unfolding append_live_warning
append_live_warning-Grows c ws test h =
    ground (arith, any-append_left test ws (live_docker_data c.id c.name ∷ []) h)

append_live_warning-IsWarnedIfLive :
    (c : DockerContainer) (ws : Warnings) → IsWarnedIfLive (append_live_warning c ws) c
unfolding append_live_warning
append_live_warning-IsWarnedIfLive c ws live = ground (
  arith,
  any-append_last (is_live_warning_for c.id) ws (live_docker_data c.id c.name) (==-refl c.id),
)

append_live_warnings-Grows :
    (cs : List DockerContainer) (ws : Warnings) → Grows ws (append_live_warnings cs ws)
unfolding append_live_warnings
append_live_warnings-Grows [] ws test h = h
append_live_warnings-Grows (c ∷ cs) ws test h =
    append_live_warnings-Grows cs (append_live_warning c ws) test
      (append_live_warning-Grows c ws test h)

append_live_warnings-All :
    (cs : List DockerContainer) (ws : Warnings)
    → All (IsWarnedIfLive (append_live_warnings cs ws)) cs
unfolding append_live_warnings
append_live_warnings-All [] ws = tt
append_live_warnings-All (c ∷ cs) ws = (
  λ live.
      append_live_warnings-Grows cs (append_live_warning c ws) (is_live_warning_for c.id)
        (append_live_warning-IsWarnedIfLive c ws live),
  append_live_warnings-All cs (append_live_warning c ws),
)

pub IsBacked-Grows :
    (inventory : Option DockerInventory) (ws ws' : Warnings) (item : BackupSelectionItem)
    → Grows ws ws'
    → IsBacked inventory ws item
    → IsBacked inventory ws' item
IsBacked-Grows inventory ws ws' (remote_path p) g h = tt
IsBacked-Grows inventory ws ws' (docker_mount id d p) g (known, e, (c, f, m, w)) =
    (known, e, (c, f, m, λ live. g (is_live_warning_for c.id) (w live)))
IsBacked-Grows inventory ws ws' (docker_group n ps) g (known, e, f, m, w) =
    (known, e, f, m, All-map (λ c k live. g (is_live_warning_for c.id) (k live)) _ w)

-- What one accepted item has checked and added.
abbrev ItemChecked :
    Option DockerInventory → BackupSelectionItem → Warnings → List RemotePath × Warnings → Type 0
ItemChecked inventory item ws (roots, ws') =
    (roots ≡ item_paths item) × Grows ws ws' × IsBacked inventory ws' item

ok_or-eq-ok {ℓ κ} :
    {E : Type ℓ} {A : Type κ} (o : Option A) (e : E) {a : A} → ok_or o e ≡ ok a → o ≡ some a
ok_or-eq-ok (some a) e h = cc
ok_or-eq-ok none e h = cc

resolve_mount-lem :
    (inventory : Option DockerInventory) (id : Text) (d p : RemotePath) (ws ws' : Warnings)
    → resolve_mount inventory id d p ws ≡ ok ws'
    → Grows ws ws' × IsBacked inventory ws' (docker_mount id d p)
unfolding resolve_mount
resolve_mount-lem inventory id d p ws ws' h =
    let (known, e, h1) = >>=-eq-ok (ok_or inventory docker_inventory_required) _ h in
    let (c, f, h2) =
      >>=-eq-ok (ok_or (find (λ x. x.id == id) known.containers) docker_selection_changed) _ h1 in
    let (m, h3) =
      (>>_iff (ensure (any (mount_is d p) c.mounts) docker_selection_changed) _ ws').0 h2 in
    let same = ok-injective h3 in
    (
      subst (Grows ws) same (append_live_warning-Grows c ws),
      (
        known,
        ok_or-eq-ok inventory docker_inventory_required e,
        (
          c,
          ok_or-eq-ok (find (λ x. x.id == id) known.containers) docker_selection_changed f,
          (ensure_iff (any (mount_is d p) c.mounts) docker_selection_changed).0 m,
          subst (λ vs. IsWarnedIfLive vs c) same (append_live_warning-IsWarnedIfLive c ws),
        ),
      ),
    )

resolve_group-lem :
    (inventory : Option DockerInventory) (g : Text) (ps : List RemotePath) (ws ws' : Warnings)
    → resolve_group inventory g ps ws ≡ ok ws'
    → Grows ws ws' × IsBacked inventory ws' (docker_group g ps)
unfolding resolve_group
resolve_group-lem inventory g ps ws ws' h =
    let (known, e, h1) = >>=-eq-ok (ok_or inventory docker_inventory_required) _ h in
    let cs = filter (in_project g) known.containers in
    let (t, h2) =
      (>>_iff
          (ensure
            (not (is_empty cs || not (same_set (capturable_paths cs) (map (λ p. p.as_str) ps))))
            docker_selection_changed)
          _ ws').0
        h1 in
    let same = ok-injective h2 in
    let (filled, equal) =
      tests (is_empty cs) (same_set (capturable_paths cs) (map (λ p. p.as_str) ps))
        ((ensure_iff _ docker_selection_changed).0 t) in
    (
      subst (Grows ws) same (append_live_warnings-Grows cs ws),
      (
        known,
        ok_or-eq-ok inventory docker_inventory_required e,
        filled,
        equal,
        subst (λ vs. All (IsWarnedIfLive vs) cs) same (append_live_warnings-All cs ws),
      ),
    )
  where
    tests : (a b : Bool) → not (a || not b) ≡ true → (a ≡ false) × (b ≡ true)
    tests a b h = ground arith

resolve_item-lem :
    (inventory : Option DockerInventory) (item : BackupSelectionItem) (ws : Warnings)
    (result : List RemotePath × Warnings)
    → resolve_item inventory item ws ≡ ok result
    → ItemChecked inventory item ws result
unfolding resolve_item
resolve_item-lem inventory (remote_path p) ws result h =
    let same = ok-injective h in
    subst (ItemChecked inventory (remote_path p) ws) same (refl, (λ test k. k), tt)
resolve_item-lem inventory (docker_mount id d p) ws result h =
    let (ws', e, k) = >>=-eq-ok (resolve_mount inventory id d p ws) _ h in
    let (g, b) = resolve_mount-lem inventory id d p ws ws' e in
    subst (ItemChecked inventory (docker_mount id d p) ws) (ok-injective k) (refl, g, b)
resolve_item-lem inventory (docker_group n ps) ws result h =
    let (ws', e, k) = >>=-eq-ok (resolve_group inventory n ps ws) _ h in
    let (g, b) = resolve_group-lem inventory n ps ws ws' e in
    subst (ItemChecked inventory (docker_group n ps) ws) (ok-injective k) (refl, g, b)

-- Accepted items resolve to the paths that they name, in order; each is backed by the inventory.
pub resolve_items-lem :
    (inventory : Option DockerInventory) (items : List BackupSelectionItem) (ws : Warnings)
    (result : List RemotePath × Warnings)
    → resolve_items inventory items ws ≡ ok result
    → (result.0 ≡ requested items) × Grows ws result.1 × All (IsBacked inventory result.1) items
unfolding resolve_items
resolve_items-lem inventory [] ws result h =
    let same = ok-injective h in
    (ap (λ r. r.0) (sym same), subst (λ r. Grows ws r.1) same (λ test k. k), tt)
resolve_items-lem inventory (item ∷ items) ws result h =
    let (step, e, h1) = >>=-eq-ok (resolve_item inventory item ws) _ h in
    let (later, f, h2) = >>=-eq-ok (resolve_items inventory items step.1) _ h1 in
    let (p, g, b) = resolve_item-lem inventory item ws step e in
    let (q, k, bs) = resolve_items-lem inventory items step.1 later f in
    let same = ok-injective h2 in
    (
      ap (λ r. r.0) (sym same) ∙ ap₂ (λ x y. x ++ y) p q,
      subst (λ r. Grows ws r.1) same (λ test t. k test (g test t)),
      subst (λ r. All (IsBacked inventory r.1) (item ∷ items)) same
          (IsBacked-Grows inventory step.1 later.1 item k b, bs),
    )
