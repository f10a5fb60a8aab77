-- ===== src/Cached/Untyped.antt =====
-- The decorators of apps/core/cache/decorator.py with a text for a namespace, which every use of them
-- and their default give, around a method of an object that has a cache.
use taunggyi_city_church.Common.{
  ℕ, ◌≡◌, refl, Bool, true, false, Option, some, List, ◌∷◌, String, inl, inr,
}
use taunggyi_city_church.Common.Exec.{
  Outcome, Outcome-cases, Exec, Exn, ok, raised, attribute_error,
}
use taunggyi_city_church.Cache.Api.{CacheApi}
use taunggyi_city_church.Cached.{
  untyped, Call, World, template_of, formatted_key, format, plain, build_cache_key, key_of_text,
  key_of_args, cached, cache_invalidate, delete_keys,
}
use taunggyi_city_church.Common.Dict.{Dict}

no_text_key :
    (r : Outcome String) (namespace version : String)
    → (e : Exn) × (key_of_text (untyped namespace) version r ≡ raised e)
no_text_key (ok key) namespace version = (attribute_error, refl)
no_text_key (raised e) namespace version = (e, refl)

no_args_key :
    (call : Call) (template : Option String) (namespace version : String)
    (r : Outcome (Dict String))
    → (e : Exn) × (key_of_args call template (untyped namespace) version r ≡ raised e)
no_args_key call template namespace version (raised e) = (e, refl)
no_args_key call template namespace version (ok bound) =
    no_text_key (formatted_key call (format plain (template_of call template) bound)) namespace
      version

-- With a text for a namespace, which all uses of the decorators give: around an object with a cache
-- the caching decorator raises without running its function or asking the cache, and the invalidating
-- one, given a template, runs its function, raises and leaves the cache as it was. Around an object
-- without a cache both answer what the function answers.
pub untyped_fails :
    {A V : Type 0} (api : CacheApi V) (is_none : V → Bool) (namespace version : String)
    (template : Option String) (first : String) (rest : List String) (ttl now later : ℕ)
    (call : Call) (func : Exec A V) (w : World A (CacheApi.State api))
    → let (r, a) = func w.app in
      let invalidate = λ (available : Bool).
        cache_invalidate api is_none available
          (first ∷ rest)
          (untyped namespace)
          version
          call
          func
          now
          w in
      let read = λ (available : Bool).
        cached api is_none available template ttl
          (untyped namespace)
          version
          call
          func
          now
          later
          w in
      ((e : Exn) × (read true ≡ (raised e, w)))
      × ((e : Exn) × (invalidate true ≡ (raised e, record w { app = a })))
      × (read false ≡ (r, record w { app = a }))
      × (invalidate false ≡ (r, record w { app = a }))
unfolding cached cache_invalidate delete_keys build_cache_key
untyped_fails {A} {V} api is_none namespace version template first rest ttl now later call func w =
    let (e, fails) = no_args_key call template namespace version call.bound_args in
    let (e', fails') = no_args_key call (some first) namespace version call.bound_args in
    elim (Outcome-cases (func w.app).0) [
      | inl (v, returns) ↦
          ((e, rw fails refl), (e', rw (returns, fails') refl), refl, rw returns refl)
      | inr (e0, raises) ↦ ((e, rw fails refl), (e0, rw raises refl), refl, rw raises refl)
    ]
