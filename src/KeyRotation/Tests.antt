-- ===== src/KeyRotation/Tests.antt =====
-- Runs of the rotation of keys, and its theorems at concrete inputs.
use taunggyi_city_church.Common.{
  ℕ, ◌≤◌, ◌≡◌, refl, true, none, some, [], ◌∷◌, String, length, is_some, arith, ltb, if◌then◌else◌,
}
use taunggyi_city_church.Common.Exec.{ok, raised, runtime_error}
use taunggyi_city_church.Cache.Memory.{Memory, empty, memory}
use taunggyi_city_church.KeyRotation.{
  KeyPair, KeysData, KeyRotationManager, Manager, initialize, rotate_keys, get_current_private_key,
  get_public_key,
}
use taunggyi_city_church.KeyRotation.Rotate.{Key, retire, new_key, holding, fresh}
use taunggyi_city_church.KeyRotation.Runs.{
  rotate_keeps_previous, new_manager, rotate_all, rotations_serve, AreNames,
}
use taunggyi_city_church.KeyRotation.Names.{letters, letters_differ, letters_named}

abbrev keys : ℕ → ℕ → KeyPair
keys n size = ("private", "public")

abbrev name : ℕ → String
name n = if ltb n 1 then "k0" else if ltb n 2 then "k1" else "k2"

abbrev second : Key
second = new_key 20 "k1" ("private", "public")

abbrev first : Key
first = new_key 10 "k0" ("private", "public")

rotate_keeps_previous_example :
    (c' : Memory KeysData) × (s' : KeyRotationManager (Memory KeysData)) × (rotate_keys memory keys
        name 30
        (holding memory keys name 86400 true 2 empty (retire first ∷ second ∷ []) "k1")
      ≡ (ok "k2", s'))
    × (s'
        ≡ holding memory keys name 86400 true 3 c'
            (retire second ∷ fresh memory keys name 30 2 ∷ [])
            "k2")
    × (get_public_key (some "k1") s' ≡ some "public")
    × (get_public_key none s' ≡ some "public")
    × (get_current_private_key s' ≡ some "private")
rotate_keeps_previous_example =
    rotate_keeps_previous memory keys name 30 86400 2 true empty (some (retire first)) second refl
      refl refl (omega arith) (refl, refl, omega arith)

not_initialized :
    (rotate_keys memory keys name 30 (new_manager memory keys name 86400 empty)).0
    ≡ raised runtime_error
unfolding rotate_keys
not_initialized = refl

letters-AreNames : AreNames memory keys letters
letters-AreNames = record { differ = letters_differ; named = letters_named }

rotations_serve_example :
    (s : Manager memory keys letters) × (initialize memory keys letters 5
        (new_manager memory keys letters 86400 empty)
      ≡ (ok tt, s))
    × (length (rotate_all memory keys letters (10 ∷ 20 ∷ 30 ∷ []) s).key_pairs ≤ 2)
    × (is_some (get_public_key none (rotate_all memory keys letters (10 ∷ 20 ∷ 30 ∷ []) s)) ≡ true)
    × (is_some (get_current_private_key (rotate_all memory keys letters (10 ∷ 20 ∷ 30 ∷ []) s))
        ≡ true)
rotations_serve_example =
    rotations_serve memory keys letters 5 86400 empty (10 ∷ 20 ∷ 30 ∷ []) letters-AreNames
      (omega arith, (omega arith, (omega arith, tt)))
