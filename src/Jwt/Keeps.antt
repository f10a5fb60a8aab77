-- ===== src/Jwt/Keeps.antt =====
-- The calls of `JWTBackend` in apps/core/jwt/jwt_backend.py, and that none of them stores what the
-- backend would read.
use taunggyi_city_church.Common.{
  ℕ, suc, ◌≡◌, refl, ◌∙◌, Bool, true, false, not, Option, none, some, List, [], String, str_eq,
  is_some, or_else, if◌then◌else◌,
}
use taunggyi_city_church.Common.Exec.{
  value_error, Outcome, ok, raised, Exec, pure, raise_if, continue, ◌>>=◌, handle,
}
use taunggyi_city_church.Jwt.{refresh, reset, Payload}
use taunggyi_city_church.Jwt.Backend.{
  Jwt, DjangoCache, Backend, Tokens, truthy, refresh_key, reset_key, verify_token, session_or_new,
  create_tokens, generate_access_token, generate_refresh_token, generate_reset_token,
  refresh_tokens, revoke_refresh_token, revoke_all_user_refresh_tokens, verify_reset_token,
  invalidate_reset_token, claim, reset_verified, refresh_verified, exchange_cached, compare_cached,
  await, sync_to_async, text_of,
}
use taunggyi_city_church.Jwt.Refresh.{StoreLaws}

-- The calls that change the state, or may
pub data Call : Type 0 where
  create : String → String → Option (List String) → Option String → Call
  create_reset : String → String → Call
  exchange check_reset invalidate_reset revoke_all : String → Call
  revoke : String → String → Call

module _ (jwt : Jwt) (cache : DjangoCache) where
  -- The state that a call leaves, whether it returns or raises.
  unfoldable pub perform : ℕ → Call → Backend jwt cache → Backend jwt cache
  perform now (create user_id email roles session_id) s =
      (create_tokens jwt cache now user_id email roles session_id s).1
  perform now (create_reset user_id email) s =
      (generate_reset_token jwt cache now user_id email s).1
  perform now (invalidate_reset user_id) s = (invalidate_reset_token jwt cache now user_id s).1
  perform now (exchange token) s = (refresh_tokens jwt cache now token s).1
  perform now (check_reset token) s = (verify_reset_token jwt cache now token s).1
  perform now (revoke_all user_id) s = (revoke_all_user_refresh_tokens jwt cache user_id s).1
  perform now (revoke user_id jti) s = (revoke_refresh_token jwt cache now user_id jti s).1

  module _ (laws : StoreLaws cache) where
    -- Nothing is stored that the backend would read.
    pub record HasNothing (store : DjangoCache.Store cache) : Type 0 where
      pub refreshes :
          (t : ℕ) (user_id jti : String) → laws.view t store (refresh_key user_id jti) ≡ none
      pub resets : (t : ℕ) (user_id : String) → laws.view t store (reset_key user_id) ≡ none

    -- a body that leaves it so
    abbrev Keeps : {A : Type 0} → Exec (Backend jwt cache) A → Type 0
    Keeps m = (s : Backend jwt cache) → HasNothing s.store → HasNothing (m s).1.store

    continue-Keeps :
        {A B : Type 0} (r : Outcome A) (f : A → Exec (Backend jwt cache) B) (s : Backend jwt cache)
        → ((a : A) → Keeps (f a))
        → HasNothing s.store
        → HasNothing (continue r f s).1.store
    continue-Keeps (ok a) f s h n = h a s n
    continue-Keeps (raised e) f s h n = n

    bind-Keeps :
        {A B : Type 0} (m : Exec (Backend jwt cache) A) (f : A → Exec (Backend jwt cache) B)
        → Keeps m
        → ((a : A) → Keeps (f a))
        → Keeps (m >>= f)
    bind-Keeps m f hm hf s n = continue-Keeps (m s).0 f (m s).1 hf (hm s n)

    session-Keeps : (session_id : Option String) → Keeps (session_or_new jwt cache session_id)
    session-Keeps none s n = n
    session-Keeps (some session) s n = n

    get-HasNothing :
        (now : ℕ) (k : String) (store : DjangoCache.Store cache)
        → HasNothing store
        → HasNothing (cache.get now k store).1
    get-HasNothing now k store n = record {
      refreshes = λ t user_id jti.
          laws.get_keeps now t k (refresh_key user_id jti) store ∙ n.refreshes t user_id jti;
      resets = λ t user_id. laws.get_keeps now t k (reset_key user_id) store ∙ n.resets t user_id;
    }

    none_or_none : (b : Bool) (o : Option String) → o ≡ none → (if b then none else o) ≡ none
    none_or_none true o h = refl
    none_or_none false o h = h

    delete-HasNothing :
        (now : ℕ) (k : String) (store : DjangoCache.Store cache)
        → HasNothing store
        → HasNothing (cache.delete now k store).1
    delete-HasNothing now k store n = record {
      refreshes = λ t user_id jti.
          laws.delete_removes now t k (refresh_key user_id jti) store
          ∙ none_or_none (str_eq k (refresh_key user_id jti))
              (laws.view t store (refresh_key user_id jti)) (n.refreshes t user_id jti);
      resets = λ t user_id.
          laws.delete_removes now t k (reset_key user_id) store
          ∙ none_or_none (str_eq k (reset_key user_id)) (laws.view t store (reset_key user_id))
              (n.resets t user_id);
    }

    access-Keeps :
        (now : ℕ) (user_id email : String) (roles : Option (List String))
        (session_id : Option String)
        → Keeps (generate_access_token jwt cache now user_id email roles session_id)
    unfolding generate_access_token
    access-Keeps now user_id email roles session_id s n =
        bind-Keeps (session_or_new jwt cache (truthy session_id)) _
          (session-Keeps (truthy session_id)) (λ session s1 n1. n1) s n

    refresh-Keeps :
        (now : ℕ) (user_id email : String) (session_id : Option String)
        → Keeps (generate_refresh_token jwt cache now user_id email session_id)
    unfolding generate_refresh_token
    refresh-Keeps now user_id email session_id s n =
        bind-Keeps (session_or_new jwt cache (truthy session_id)) _
          (session-Keeps (truthy session_id))
          (λ session s1 n1.
            continue-Keeps _ _ (record s1 { draws = suc s1.draws }) (λ token s2 n2. n2) n1)
          s n

    reset-Keeps :
        (now : ℕ) (user_id email : String)
        → Keeps (generate_reset_token jwt cache now user_id email)
    unfolding generate_reset_token
    reset-Keeps now user_id email s n =
        continue-Keeps _ _ (record s { draws = suc s.draws }) (λ token s2 n2. n2) n

    create-Keeps :
        (now : ℕ) (user_id email : String) (roles : Option (List String))
        (session_id : Option String)
        → Keeps (create_tokens jwt cache now user_id email roles session_id)
    unfolding create_tokens
    create-Keeps now user_id email roles session_id s n =
        bind-Keeps (session_or_new jwt cache (truthy session_id)) _
          (session-Keeps (truthy session_id))
          (λ session.
            bind-Keeps (generate_access_token jwt cache now user_id email roles (some session)) _
              (access-Keeps now user_id email roles (some session))
              (λ access_token.
                bind-Keeps (generate_refresh_token jwt cache now user_id email (some session)) _
                  (refresh-Keeps now user_id email (some session)) (λ refresh_token s1 n1. n1)))
          s n

    claim-Keeps : (o : Option String) → Keeps (claim jwt cache o)
    claim-Keeps none s n = n
    claim-Keeps (some x) s n = n

    raise_if-Keeps : (b : Bool) → Keeps (raise_if b value_error)
    raise_if-Keeps true s n = n
    raise_if-Keeps false s n = n

    read-Keeps :
        (now : ℕ) (k : String) → Keeps (await jwt cache (sync_to_async jwt cache (cache.get now k)))
    read-Keeps now k s n = get-HasNothing now k s.store n

    cached-Keeps :
        (now : ℕ) (p : Payload) (user_id : String) (cached_data : Option String)
        → Keeps (exchange_cached jwt cache now p user_id cached_data)
    cached-Keeps now p user_id cached_data =
        bind-Keeps (raise_if (not (is_some (truthy cached_data))) value_error)
          (λ _. claim jwt cache p.email >>= create_with)
          (raise_if-Keeps (not (is_some (truthy cached_data))))
          (λ _.
            bind-Keeps (claim jwt cache p.email) create_with (claim-Keeps p.email)
              (λ email. create-Keeps now user_id email (some (or_else p.roles [])) p.session_id))
      where
        create_with : String → Exec (Backend jwt cache) Tokens
        create_with email =
            create_tokens jwt cache now user_id email (some (or_else p.roles [])) p.session_id

    exchange-Keeps :
        (now : ℕ) (o : Bool × Option Payload) → Keeps (refresh_verified jwt cache now o)
    exchange-Keeps now (true, some p) =
        bind-Keeps (claim jwt cache p.sub)
          (λ user_id.
            await jwt cache
              (sync_to_async jwt cache (cache.get now (refresh_key user_id (text_of p.jti))))
            >>= exchange_cached jwt cache now p user_id)
          (claim-Keeps p.sub)
          (λ user_id.
            bind-Keeps
              (await jwt cache
                (sync_to_async jwt cache (cache.get now (refresh_key user_id (text_of p.jti)))))
              (exchange_cached jwt cache now p user_id)
              (read-Keeps now (refresh_key user_id (text_of p.jti))) (cached-Keeps now p user_id))
    exchange-Keeps now (true, none) = λ s n. n
    exchange-Keeps now (false, p) = λ s n. n

    check-Keeps :
        (now : ℕ) (token : String) (o : Bool × Option Payload)
        → Keeps (reset_verified jwt cache now token o)
    check-Keeps now token (true, some p) =
        bind-Keeps (claim jwt cache p.sub)
          (λ user_id.
            await jwt cache (sync_to_async jwt cache (cache.get now (reset_key user_id)))
            >>= compare_cached jwt cache token p)
          (claim-Keeps p.sub)
          (λ user_id.
            bind-Keeps
              (await jwt cache (sync_to_async jwt cache (cache.get now (reset_key user_id))))
              (compare_cached jwt cache token p) (read-Keeps now (reset_key user_id)) (λ c s n. n))
    check-Keeps now token (true, none) = λ s n. n
    check-Keeps now token (false, p) = λ s n. n

    handled-Keeps :
        (r : Outcome Bool) (s : Backend jwt cache)
        → HasNothing s.store
        → let done = continue r (λ b. pure true) s in
          HasNothing (handle done.0 (λ e. pure false) done.1).1.store
    handled-Keeps (ok b) s n = n
    handled-Keeps (raised e) s n = n

    pub perform-Keeps :
        (now : ℕ) (call : Call) (s : Backend jwt cache)
        → HasNothing s.store
        → HasNothing (perform now call s).store
    unfolding perform refresh_tokens verify_reset_token revoke_refresh_token invalidate_reset_token
        revoke_all_user_refresh_tokens
    perform-Keeps now (create user_id email roles session_id) s n =
        create-Keeps now user_id email roles session_id s n
    perform-Keeps now (create_reset user_id email) s n = reset-Keeps now user_id email s n
    perform-Keeps now (invalidate_reset user_id) s n =
        let done = cache.delete now (reset_key user_id) s.store in
        handled-Keeps done.0 (record s { store = done.1 })
          (delete-HasNothing now (reset_key user_id) s.store n)
    perform-Keeps now (exchange token) s n =
        exchange-Keeps now (verify_token jwt s.config now token (some refresh)) s n
    perform-Keeps now (check_reset token) s n =
        check-Keeps now token (verify_token jwt s.config now token (some reset)) s n
    perform-Keeps now (revoke_all user_id) s n = n
    perform-Keeps now (revoke user_id jti) s n =
        let done = cache.delete now (refresh_key user_id jti) s.store in
        handled-Keeps done.0 (record s { store = done.1 })
          (delete-HasNothing now (refresh_key user_id jti) s.store n)
