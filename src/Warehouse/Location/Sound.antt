-- ===== src/Warehouse/Location/Sound.antt =====
-- What holds of the table of locations.
use mathlib.Core.Path.{subst}
use dc_inventory.Prelude.{
  ℕ, ◌≤◌, ◌≡◌, refl, sym, ap, ◌∙◌, inl, inr, Bool, true, false, ◌&&◌, ◌||◌, not, none, some, List,
  [], ◌∷◌, map, arith,
}
use dc_inventory.Prelude.Tests.{◌==◌, ltb, is_some, Bool-cases}
use dc_inventory.Prelude.Lists.{All, any, length}
use dc_inventory.Prelude.Result.{Result, ok}
use dc_inventory.Core.Idempotency.{Text, text_eq}
use dc_inventory.Warehouse.Tables.{Location, LocationStatus, WarehouseTables, find_location}
use dc_inventory.Warehouse.Errors.{
  InventoryError, Field, normalize_inline_text, normalize_inline_text_bounds,
}
use dc_inventory.Warehouse.Location.Closed.{find_location_id}
use dc_inventory.Warehouse.Location.{
  LocationCreate, LocationPatch, archive_state, put_location, set_location_archived, identity_text,
  is_blank, normalize_optional_text, create_location, update_location,
}

abbrev pub is_archived : LocationStatus → Bool
is_archived LocationStatus.active = false
is_archived LocationStatus.archived = true

-- The texts of a location are in range, its code is found under its normal form, and it has a time of
-- archiving exactly if it is archived.
pub record IsProper (nfkc casefold : Text → Text) (l : Location) : Type 0 where
  pub code : (1 ≤ length l.code) × (length l.code ≤ 64)
  pub normalized : l.normalized_code ≡ identity_text nfkc casefold l.code
  pub normalized_bound : length l.normalized_code ≤ 64
  pub visible : is_blank l.normalized_code ≡ false
  pub name : (1 ≤ length l.name) × (length l.name ≤ 255)
  pub archive : is_archived l.status ≡ is_some l.archived_at

abbrev pub codes : List Location → List Text
codes = map λ (l : Location). l.normalized_code

abbrev pub has_code : Text → List Text → Bool
has_code c = any λ d. text_eq d c

abbrev pub is_distinct : List Text → Bool
is_distinct [] = true
is_distinct (c ∷ cs) = not (has_code c cs) && is_distinct cs

pub record LocationsSound (nfkc casefold : Text → Text) (ls : List Location) : Type 0 where
  pub proper : All (IsProper nfkc casefold) ls
  pub distinct : is_distinct (codes ls) ≡ true

All-put_location :
    (P : Location → Type 0) (l : Location) (ls : List Location)
    → P l
    → All P ls
    → All P (put_location l ls)
unfolding put_location
All-put_location P l [] p a = tt
All-put_location P l (k ∷ ks) p a = elim (Bool-cases (k.id == l.id)) [
  | inl e ↦ rw e (p, a.1)
  | inr e ↦ rw e (a.0, All-put_location P l ks p a.1)
]

some_same : {k l : Location} → some k ≡ some l → k ≡ l
some_same h = cc

All-find_location :
    (P : Location → Type 0) (k : ℕ) (ls : List Location) (l : Location)
    → All P ls
    → find_location k ls ≡ some l
    → P l
All-find_location P k [] l a h = cc
All-find_location P k (q ∷ qs) l a h = elim (Bool-cases (q.id == k)) [
  | inl e ↦ subst P (some_same (rw e at h)) a.0
  | inr e ↦ All-find_location P k qs l a.1 (rw e at h)
]

codes-put_location :
    (k : ℕ) (ls : List Location) (l l' : Location)
    → find_location k ls ≡ some l
    → l'.id ≡ l.id
    → l'.normalized_code ≡ l.normalized_code
    → codes (put_location l' ls) ≡ codes ls
unfolding put_location
codes-put_location k [] l l' h id same = refl
codes-put_location k (q ∷ qs) l l' h id same =
    ground (arith, h, id, same, codes-put_location k qs l l', find_location_id k (q ∷ qs) l h)

-- A call on the locations.
pub data LocationCall : Type 0 where
  create : (location_id : ℕ) → LocationCreate → LocationCall
  update : (location_id : ℕ) → LocationPatch → LocationCall
  archive : (location_id : ℕ) → Bool → (now : ℕ) → LocationCall

module _ (nfkc casefold : Text → Text) where
  unfoldable pub call_location :
      LocationCall → WarehouseTables → Result InventoryError WarehouseTables
  call_location (LocationCall.create k payload) = create_location nfkc casefold k payload
  call_location (LocationCall.update k payload) = update_location k payload
  call_location (LocationCall.archive k archived now) = set_location_archived k archived now

  put-LocationsSound :
      (k : ℕ) (ls : List Location) (l l' : Location)
      → LocationsSound nfkc casefold ls
      → find_location k ls ≡ some l
      → l'.id ≡ l.id
      → l'.normalized_code ≡ l.normalized_code
      → (IsProper nfkc casefold l → IsProper nfkc casefold l')
      → LocationsSound nfkc casefold (put_location l' ls)
  put-LocationsSound k ls l l' s h id same proper = record {
    proper =
        All-put_location (IsProper nfkc casefold) l' ls
          (proper (All-find_location (IsProper nfkc casefold) k ls l s.proper h)) s.proper;
    distinct = rw (codes-put_location k ls l l' h id same) s.distinct;
  }

  any-codes :
      (c : Text) (ls : List Location)
      → any (λ (l : Location). text_eq l.normalized_code c) ls ≡ has_code c (codes ls)
  any-codes c [] = refl
  any-codes c (l ∷ ls) = ap (λ b. text_eq l.normalized_code c || b) (any-codes c ls)

  create_steps :
      (k : ℕ) (payload : LocationCreate) (w : WarehouseTables) {w' : WarehouseTables}
      → create_location nfkc casefold k payload w ≡ ok w'
      → (code : Text) × (normalize_inline_text payload.code Field.code 64 ≡ ok code)
        × (name : Text) × (normalize_inline_text payload.name Field.name 255 ≡ ok name)
        × (ltb 64 (length (identity_text nfkc casefold code)) ≡ false)
        × (is_blank (identity_text nfkc casefold code) ≡ false)
        × (any
              (λ (l : Location). text_eq l.normalized_code (identity_text nfkc casefold code))
              w.locations
            ≡ false)
        × (w' ≡ record w {
          locations =
              record {
                id = k;
                code = code;
                normalized_code = identity_text nfkc casefold code;
                name = name;
                address = normalize_optional_text payload.address;
                location_type = payload.location_type;
                status = LocationStatus.active;
                archived_at = none;
              }
              ∷ w.locations;
        })
  unfolding create_location
  create_steps k payload w h = ground arith

  update_steps :
      (k : ℕ) (payload : LocationPatch) (w : WarehouseTables) {w' : WarehouseTables}
      → update_location k payload w ≡ ok w'
      → (l : Location) × (find_location k w.locations ≡ some l)
        × (name : Text) × (normalize_inline_text payload.name Field.name 255 ≡ ok name)
        × (w' ≡ record w {
          locations =
              put_location
                (record l {
                  name = name;
                  location_type = payload.location_type;
                  address = normalize_optional_text payload.address;
                })
                w.locations;
        })
  unfolding update_location
  update_steps k payload w h = ground arith

  archiving_steps :
      (k : ℕ) (archived : Bool) (now : ℕ) (w : WarehouseTables) {w' : WarehouseTables}
      → set_location_archived k archived now w ≡ ok w'
      → (l : Location) × (find_location k w.locations ≡ some l)
        × (w' ≡ record w { locations = put_location (archive_state archived now l) w.locations })
  unfolding set_location_archived
  archiving_steps k archived now w h = ground arith

  archived-IsProper :
      (archived : Bool) (now : ℕ) (l : Location)
      → IsProper nfkc casefold l
      → IsProper nfkc casefold (archive_state archived now l)
  archived-IsProper true now l p = record {
    code = p.code;
    normalized = p.normalized;
    normalized_bound = p.normalized_bound;
    visible = p.visible;
    name = p.name;
    archive = refl;
  }
  archived-IsProper false now l p = record {
    code = p.code;
    normalized = p.normalized;
    normalized_bound = p.normalized_bound;
    visible = p.visible;
    name = p.name;
    archive = refl;
  }

  archive_state_same :
      (archived : Bool) (now : ℕ) (l : Location)
      → ((archive_state archived now l).id ≡ l.id)
        × ((archive_state archived now l).normalized_code ≡ l.normalized_code)
  archive_state_same true now l = (refl, refl)
  archive_state_same false now l = (refl, refl)

  -- If the normalized codes of the locations differ, and every location has a code and a name in
  -- range, the normal form of its code, and a time of archiving exactly if it is archived, then this
  -- holds after any call that creates, updates, archives or restores a location.
  pub call-LocationsSound :
      (c : LocationCall) (w : WarehouseTables) {w' : WarehouseTables}
      → LocationsSound nfkc casefold w.locations
      → call_location c w ≡ ok w'
      → LocationsSound nfkc casefold w'.locations
  unfolding call_location
  call-LocationsSound (LocationCall.create k payload) w s h =
      let (code, coded, name, named, bound, visible, unused, same) = create_steps k payload w h in
      subst (λ (v : WarehouseTables). LocationsSound nfkc casefold v.locations) (sym same)
        (record {
          proper = (
            record {
              code = normalize_inline_text_bounds payload.code Field.code 64 coded;
              normalized = refl;
              normalized_bound = ground (arith, bound);
              visible = visible;
              name = normalize_inline_text_bounds payload.name Field.name 255 named;
              archive = refl;
            },
            s.proper,
          );
          distinct =
              rw
                (
                  sym (any-codes (identity_text nfkc casefold code) w.locations) ∙ unused,
                  s.distinct,
                )
                refl;
        })
  call-LocationsSound (LocationCall.update k payload) w s h =
      let (l, found, name, named, same) = update_steps k payload w h in
      subst (λ (v : WarehouseTables). LocationsSound nfkc casefold v.locations) (sym same)
        (put-LocationsSound k w.locations l _ s found refl refl (λ p. record {
          code = p.code;
          normalized = p.normalized;
          normalized_bound = p.normalized_bound;
          visible = p.visible;
          name = normalize_inline_text_bounds payload.name Field.name 255 named;
          archive = p.archive;
        }))
  call-LocationsSound (LocationCall.archive k archived now) w s h =
      let (l, found, same) = archiving_steps k archived now w h in
      let (id, code) = archive_state_same archived now l in
      subst (λ (v : WarehouseTables). LocationsSound nfkc casefold v.locations) (sym same)
        (put-LocationsSound k w.locations l (archive_state archived now l) s found id code
          (archived-IsProper archived now l))
