-- ===== src/BaseModel/Tests.antt =====
-- Runs of the base model, and its theorems at concrete inputs.
use taunggyi_city_church.Common.{ℕ, ◌+◌, ◌≡◌, refl, true, false, Option, none, some, List, [], ◌==◌}
use taunggyi_city_church.Common.Dict.{lookup, insert}
use taunggyi_city_church.Common.Exec.{Exec, ok}
use taunggyi_city_church.BaseModel.{
  User, Model, Field, Instance, can_view, can_edit, can_delete, save, soft_delete, restore,
  get_meta_value, set_meta_value,
}
use taunggyi_city_church.BaseModel.Deletion.{Works, save_lem, delete_restore}

-- a database that counts what is written
abbrev accept : Model → Exec ℕ Unit
accept m d = (ok tt, d)

abbrev written : Option (List Field) → Model → Exec ℕ Unit
written fields m d = (ok tt, d + 1)

abbrev next_id : ℕ → Exec ℕ ℕ
next_id now d = (ok 7, d)

accept-Works : Works accept written accept next_id
accept-Works = record {
  cleans = λ m d. refl;
  writes = λ fields m d. refl;
  notifies = λ m d. refl;
  generates = λ now d. (7, refl, refl);
}

abbrev member : User
member = record { id = 3; is_authenticated = true; is_admin = some false }

abbrev prayer : Model
prayer = record {
  id = 0;
  created_at = none;
  created_by = some 3;
  updated_by = none;
  is_active = true;
  meta_info = [];
  version = 1;
  deleted_at = none;
  deleted_by = none;
}

abbrev fresh : Instance ℕ
fresh = record { model = prayer; database = 0 }

save_lem_example :
    (id d : ℕ) × (save accept written accept next_id 5 (some member) none fresh ≡ (
      ok tt,
      record {
        model = record prayer { id = id; created_at = some 5; version = 2; updated_by = some 3 };
        database = d;
      },
    ))
    × ((id == 0) ≡ false)
save_lem_example = save_lem accept written accept next_id accept-Works 5 (some member) none fresh

delete_restore_example :
    (s1 s2 : Instance ℕ) × (soft_delete accept written accept next_id 5 (some member) fresh
      ≡ (ok tt, s1))
    × (soft_delete accept written accept next_id 9 none s1 ≡ (ok tt, s1))
    × ((s1.model.is_active ≡ false)
        × (s1.model.deleted_at ≡ some 5)
        × (s1.model.deleted_by ≡ some 3))
    × ((can_edit (some member) s1.model ≡ false)
        × (can_delete (some member) s1.model ≡ false)
        × (can_view (some member) s1.model ≡ can_view (some member) prayer))
    × (restore accept written accept next_id 9 none s1 ≡ (ok tt, s2))
    × ((s2.model.is_active ≡ true)
        × (s2.model.deleted_at ≡ none)
        × (s2.model.deleted_by ≡ none)
        × (s2.model.version ≡ 3))
    × (can_edit (some member) s2.model ≡ can_view (some member) prayer)
delete_restore_example =
    delete_restore accept written accept next_id accept-Works 5 9 (some member) none (some member)
      fresh refl

meta_set :
    get_meta_value "k" none (set_meta_value accept written accept next_id 5 "k" "v" fresh).1.model
    ≡ some "v"
unfolding get_meta_value set_meta_value save lookup insert
meta_set = refl
