-- ===== src/KeyRotation/Runs.antt =====
-- `initialize` and runs of `rotate_keys` of apps/core/jwt/key_rotation.py.
use taunggyi_city_church.Common.{
  ℕ, suc, ◌≤◌, ◌<◌, ◌≡◌, refl, sym, subst, Bool, true, false, Option, none, some, List, [], ◌∷◌,
  String, str_eq, str_eq_refl, length, arith, is_some,
}
use taunggyi_city_church.Common.Dict.{lookup, insert}
use taunggyi_city_church.Common.Exec.{Outcome, ok}
use taunggyi_city_church.Cache.Api.{CacheApi}
use taunggyi_city_church.KeyRotation.{
  KeyPair, KeysData, KeyRotationManager, Manager, initialize, rotate_keys, get_current_private_key,
  get_public_key,
}
use taunggyi_city_church.KeyRotation.Rotate.{
  Key, retire, holding, fresh, keys_with, IsOlder, rotate_lem, generate_lem,
}

module _ (cache : CacheApi KeysData) (rsa : ℕ → ℕ → KeyPair) (token_urlsafe : ℕ → String) where
  -- A manager that holds one or two keys rotates at a later time to exactly two, whatever the cache
  -- answers: the key that was current, marked as previous and still found by its name, and a new
  -- one, which is the current. The names are not empty, and the new one is not in use.
  pub rotate_keeps_previous :
      (now interval draws : ℕ) (has_cache : Bool) (c : CacheApi.State cache) (older : Option Key)
      (b : Key)
      → str_eq b.id "" ≡ false
      → str_eq (token_urlsafe draws) "" ≡ false
      → str_eq b.id (token_urlsafe draws) ≡ false
      → b.metadata.created_at < now
      → IsOlder cache rsa token_urlsafe older b (fresh cache rsa token_urlsafe now draws)
      → let s =
          holding cache rsa token_urlsafe interval has_cache draws c
            (keys_with cache rsa token_urlsafe older b)
            b.id in
        let n = fresh cache rsa token_urlsafe now draws in
        (c' : CacheApi.State cache) × (s' : KeyRotationManager (CacheApi.State cache))
        × (rotate_keys cache rsa token_urlsafe now s ≡ (ok n.id, s'))
        × (s'
            ≡ holding cache rsa token_urlsafe interval has_cache
                (suc draws)
                c'
                (retire b ∷ n ∷ [])
                n.id)
        × (get_public_key (some b.id) s' ≡ some b.pair.1)
        × (get_public_key none s' ≡ some n.pair.1)
        × (get_current_private_key s' ≡ some n.pair.0)
  unfolding get_public_key get_current_private_key lookup
  rotate_keeps_previous now interval draws has_cache c older b named fresh_named apart old h =
      let n = fresh cache rsa token_urlsafe now draws in
      let (c', e) =
        rotate_lem cache rsa token_urlsafe now interval draws has_cache c older b apart old h in
      (
        c',
        holding cache rsa token_urlsafe interval has_cache (suc draws) c' (retire b ∷ n ∷ []) n.id,
        e,
        refl,
        ground (arith, named, str_eq_refl b.id),
        ground (arith, fresh_named, apart, str_eq_refl (token_urlsafe draws)),
        ground (arith, fresh_named, apart, str_eq_refl (token_urlsafe draws)),
      )

  abbrev pub Increasing : ℕ → List ℕ → Type 0
  Increasing start [] = Unit
  Increasing start (t ∷ ts) = (start < t) × Increasing t ts

  -- `rotate_keys` at each of the times
  unfoldable pub rotate_all :
      List ℕ → Manager cache rsa token_urlsafe → Manager cache rsa token_urlsafe
  rotate_all [] s = s
  rotate_all (t ∷ ts) s = rotate_all ts (rotate_keys cache rsa token_urlsafe t s).1

  -- a new manager without a cache
  abbrev pub new_manager : ℕ → CacheApi.State cache → Manager cache rsa token_urlsafe
  new_manager interval c = record {
    rotation_interval = interval;
    current_key_id = none;
    key_pairs = [];
    key_metadata = [];
    initialized = false;
    has_cache = false;
    draws = 0;
    cache = c;
  }

  initialize_lem :
      (now interval : ℕ) (c : CacheApi.State cache)
      → (c' : CacheApi.State cache) × (initialize cache rsa token_urlsafe now
            (new_manager interval c)
          ≡ (
            ok tt,
            holding cache rsa token_urlsafe interval false 1 c'
                (fresh cache rsa token_urlsafe now 0 ∷ [])
                (token_urlsafe 0),
          ))
  unfolding initialize insert
  initialize_lem now interval c =
      let (c', e) = generate_lem cache rsa token_urlsafe now (new_manager interval c) in
      (c', rw e refl)

  -- Names are never drawn twice, nor empty.
  pub record AreNames : Type 0 where
    pub differ : (m n : ℕ) → m < n → str_eq (token_urlsafe m) (token_urlsafe n) ≡ false
    pub named : (n : ℕ) → str_eq (token_urlsafe n) "" ≡ false

  -- the older key and the current one, before a rotation at a later time
  record IsReady (start draws : ℕ) (older : Option Key) (b : Key) : Type 0 where
    drawn : (n : ℕ) → draws ≤ n → str_eq b.id (token_urlsafe n) ≡ false
    named : str_eq b.id "" ≡ false
    before : b.metadata.created_at ≤ start
    older_one :
        (t n : ℕ)
        → draws ≤ n
        → IsOlder cache rsa token_urlsafe older b (fresh cache rsa token_urlsafe t n)

  next-IsReady :
      (start t draws : ℕ) (older : Option Key) (b : Key)
      → AreNames
      → start < t
      → IsReady start draws older b
      → IsReady t (suc draws) (some (retire b)) (fresh cache rsa token_urlsafe t draws)
  next-IsReady start t draws older b names later h = record {
    drawn = λ n le. names.differ draws n (omega arith);
    named = names.named draws;
    before = omega arith;
    older_one =
        λ u n le. (h.drawn draws (omega arith), h.drawn n (omega arith), omega (arith, h.before));
  }

  -- what every state of a run has
  abbrev Serves : Manager cache rsa token_urlsafe → Type 0
  Serves s =
      (length s.key_pairs ≤ 2)
      × (is_some (get_public_key none s) ≡ true)
      × (is_some (get_current_private_key s) ≡ true)

  holding-Serves :
      (interval draws : ℕ) (has_cache : Bool) (c : CacheApi.State cache) (start : ℕ)
      (older : Option Key) (b : Key)
      → IsReady start draws older b
      → Serves (
          holding cache rsa token_urlsafe interval has_cache draws c
            (keys_with cache rsa token_urlsafe older b)
            b.id)
  unfolding get_public_key get_current_private_key lookup
  holding-Serves interval draws has_cache c start none b h =
      ground (arith, h.named, str_eq_refl b.id)
  holding-Serves interval draws has_cache c start (some a) b h =
      ground (arith, h.named, str_eq_refl b.id, h.older_one 0 draws (omega arith))

  run-Serves :
      (interval draws : ℕ) (has_cache : Bool) (c : CacheApi.State cache) (start : ℕ)
      (older : Option Key) (b : Key) (ts : List ℕ)
      → AreNames
      → Increasing start ts
      → IsReady start draws older b
      → Serves (
          rotate_all ts (
            holding cache rsa token_urlsafe interval has_cache draws c
              (keys_with cache rsa token_urlsafe older b)
              b.id))
  unfolding rotate_all
  run-Serves interval draws has_cache c start older b [] names order h =
      holding-Serves interval draws has_cache c start older b h
  run-Serves interval draws has_cache c start older b (t ∷ ts) names order h =
      let (c', e) =
        rotate_lem cache rsa token_urlsafe t interval draws has_cache c older b
          (h.drawn draws (omega arith)) (omega (arith, h.before, order.0))
          (h.older_one t draws (omega arith)) in
      subst (λ (x : Outcome String × Manager cache rsa token_urlsafe). Serves (rotate_all ts x.1))
        (sym e)
        (run-Serves interval (suc draws) has_cache c' t (some (retire b))
          (fresh cache rsa token_urlsafe t draws) ts names order.1
          (next-IsReady start t draws older b names order.0 h))

  -- A new manager without a cache starts, and after any rotations at increasing times it holds at
  -- most two keys, and has a current public and a current private key, if drawn names are never
  -- empty and never the same.
  pub rotations_serve :
      (now interval : ℕ) (c : CacheApi.State cache) (ts : List ℕ)
      → AreNames
      → Increasing now ts
      → (s : Manager cache rsa token_urlsafe) × (initialize cache rsa token_urlsafe now
            (new_manager interval c)
          ≡ (ok tt, s))
        × (length (rotate_all ts s).key_pairs ≤ 2)
        × (is_some (get_public_key none (rotate_all ts s)) ≡ true)
        × (is_some (get_current_private_key (rotate_all ts s)) ≡ true)
  rotations_serve now interval c ts names order =
      let (c', e) = initialize_lem now interval c in
      let b = fresh cache rsa token_urlsafe now 0 in
      let s = holding cache rsa token_urlsafe interval false 1 c' (b ∷ []) b.id in
      let ready : IsReady now 1 none b = record {
        drawn = λ n le. names.differ 0 n (omega arith);
        named = names.named 0;
        before = omega arith;
        older_one = λ t n le. tt;
      } in
      let served = run-Serves interval 1 false c' now none b ts names order ready in
      (s, e, served.0, served.1, served.2)
