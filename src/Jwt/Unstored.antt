-- ===== src/Jwt/Unstored.antt =====
-- Runs of the operations of `JWTBackend` in apps/core/jwt/jwt_backend.py that start with nothing
-- stored.
use taunggyi_city_church.Common.{
  ℕ, ◌≡◌, refl, Bool, true, false, Option, none, some, List, [], ◌∷◌, String,
}
use taunggyi_city_church.Common.Exec.{value_error, ok, raised}
use taunggyi_city_church.Jwt.{refresh, reset, Payload}
use taunggyi_city_church.Jwt.Backend.{
  Jwt, DjangoCache, Backend, reset_key, verify_token, refresh_tokens, verify_reset_token,
  reset_verified, refresh_verified,
}
use taunggyi_city_church.Jwt.Verify.{verify_token_lem}
use taunggyi_city_church.Jwt.Refresh.{StoreLaws, sub_and_jti, unstored_lem}
use taunggyi_city_church.Jwt.Keeps.{Call, perform, HasNothing, perform-Keeps}

module _ (jwt : Jwt) (cache : DjangoCache) where
  unfoldable pub perform_all : List (ℕ × Call) → Backend jwt cache → Backend jwt cache
  perform_all [] s = s
  perform_all ((now, call) ∷ calls) s = perform_all calls (perform jwt cache now call s)

  module _ (laws : StoreLaws cache) where
    perform_all-Keeps :
        (calls : List (ℕ × Call)) (s : Backend jwt cache)
        → HasNothing jwt cache laws s.store
        → HasNothing jwt cache laws (perform_all calls s).store
    unfolding perform_all
    perform_all-Keeps [] s n = n
    perform_all-Keeps ((now, call) ∷ calls) s n =
        perform_all-Keeps calls (perform jwt cache now call s)
          (perform-Keeps jwt cache laws now call s n)

    refused :
        (now : ℕ) (token : String) (s : Backend jwt cache) (o : Bool × Option Payload)
        → verify_token jwt s.config now token (some refresh) ≡ o
        → HasNothing jwt cache laws s.store
        → (refresh_verified jwt cache now o s).0 ≡ raised value_error
    refused now token s (true, some p) passed n =
        let v = (verify_token_lem jwt s.config now token (some refresh) p).0 passed in
        let (user_id, jti, sub, named) = sub_and_jti jwt cache laws p v.complete in
        unstored_lem jwt cache laws now p user_id jti s sub named
          (rw (n.refreshes now user_id jti) refl)
    refused now token s (true, none) passed n = refl
    refused now token s (false, p) passed n = refl

    reset_refused :
        (now : ℕ) (token : String) (s : Backend jwt cache) (o : Bool × Option Payload)
        → verify_token jwt s.config now token (some reset) ≡ o
        → HasNothing jwt cache laws s.store
        → (reset_verified jwt cache now token o s).0 ≡ ok (false, none)
    reset_refused now token s (true, some p) passed n =
        let v = (verify_token_lem jwt s.config now token (some reset) p).0 passed in
        let (user_id, jti, sub, named) = sub_and_jti jwt cache laws p v.complete in
        rw (sub, laws.get_reads now (reset_key user_id) s.store, n.resets now user_id) refl
    reset_refused now token s (true, none) passed n = refl
    reset_refused now token s (false, p) passed n = refl

    -- If nothing is stored for tokens at the start, no run of the backend's calls stores anything:
    -- after it every exchange of a refresh token is refused with a ValueError, those that
    -- `create_tokens` made included, and no reset token passes.
    pub tokens_never_stored :
        (calls : List (ℕ × Call)) (s : Backend jwt cache)
        → HasNothing jwt cache laws s.store
        → let s' = perform_all calls s in
          (now : ℕ) (token : String)
          → ((refresh_tokens jwt cache now token s').0 ≡ raised value_error)
            × ((verify_reset_token jwt cache now token s').0 ≡ ok (false, none))
    unfolding refresh_tokens verify_reset_token
    tokens_never_stored calls s n now token =
        let s' = perform_all calls s in
        let n' = perform_all-Keeps calls s n in
        (
          refused now token s' (verify_token jwt s'.config now token (some refresh)) refl n',
          reset_refused now token s' (verify_token jwt s'.config now token (some reset)) refl n',
        )
