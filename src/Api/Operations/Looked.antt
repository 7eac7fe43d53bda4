-- ===== src/Api/Operations/Looked.antt =====
-- What a search for an application by its id finds.
use opendash.Prelude.{
  ◌≡◌, refl, String, Option, none, some, List, ◌∷◌, ◌++◌, ◌==◌, eq_iff, find_first, find_first-inv,
  ap, ◌∙◌,
}
use opendash.Models.App.{AppInstance}
use opendash.Sql.Triple.{Triple, Outcome, Triple-stmt}
use opendash.Store.Rows.{InstanceRow, StoreDb, StoreError}
use opendash.Store.Apps.{scan_instance, found_instance, get_app_instance}

-- The application is that of a stored row with the id.
abbrev pub IsInstance : String → AppInstance → StoreDb → Type 0
IsInstance id inst d =
    (row : InstanceRow) × (before : List InstanceRow) × (rest : List InstanceRow) × (d.instances
      ≡ before ++ (row ∷ rest))
    × (row.id ≡ id)
    × (inst ≡ scan_instance row)

pub instance_id :
    (id : String) (inst : AppInstance) (d : StoreDb) → IsInstance id inst d → inst.id ≡ id
instance_id id inst d (row, before, rest, e, same, q) = ap (λ (x : AppInstance). x.id) q ∙ same

abbrev pub IsLooked : String → StoreDb → Option AppInstance → StoreDb → Type 0
IsLooked id d0 none d = d ≡ d0
IsLooked id d0 (some inst) d = (d ≡ d0) × IsInstance id inst d0

pub look-Triple :
    (id : String) (d0 : StoreDb)
    → Triple {E = StoreError}
        (λ d. d ≡ d0)
        (get_app_instance id)
        (λ inst. IsLooked id d0 (some inst))
        (λ _ d. d ≡ d0)
unfolding get_app_instance
look-Triple id d0 = Triple-stmt _ _ (λ d h. rw h (go _ refl)) (λ d h. h)
  where
    go :
        (o : Option InstanceRow)
        → find_first (λ (r : InstanceRow). r.id == id) d0.instances ≡ o
        → Outcome (λ inst. IsLooked id d0 (some inst)) (λ _ d. d ≡ d0) (found_instance o) d0
    go none q = refl
    go (some row) q =
        let (before, rest, e, same) = find_first-inv _ d0.instances q in
        (refl, (row, before, rest, e, (eq_iff row.id id).0 same, refl))
