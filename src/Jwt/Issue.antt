-- ===== src/Jwt/Issue.antt =====
-- The tokens that `create_tokens` of apps/core/jwt/jwt_backend.py makes, and `verify_token` of them.
use taunggyi_city_church.Common.{
  ℕ, suc, ◌*◌, ◌≤◌, ◌<◌, ◌≡◌, refl, true, false, Option, none, some, List, [], ◌∷◌, String, or_else,
}
use taunggyi_city_church.Common.Exec.{ok}
use taunggyi_city_church.Cache.Breaker.{ticks}
use taunggyi_city_church.Jwt.{access, refresh, Payload}
use taunggyi_city_church.Jwt.Backend.{
  Jwt, DjangoCache, Backend, Tokens, seconds_after, truthy, verify_token, create_tokens,
}
use taunggyi_city_church.Jwt.Payloads.{
  JwtLaws, session_of, access_payload, refresh_payload, session_lem, access_lem, refresh_lem,
  IsIssued, passes_lem, mistyped_lem,
}

module _ (jwt : Jwt) (Known : Payload → Type 0) (laws : JwtLaws jwt Known)
    (cache : DjangoCache) where
  -- Under HS256 with an audience, `create_tokens` returns two tokens and writes nothing to the cache.
  -- Until it is over, the access token passes as an access token for the user with the roles given,
  -- and the refresh token passes as a refresh token, of the same session, that carries no roles;
  -- neither passes as the other.
  pub create_tokens-verify :
      (audience : String) (rest : List String) (now t : ℕ) (user_id email : String)
      (roles : Option (List String)) (session_id : Option String) (s : Backend jwt cache)
      → let (session, n) = session_of jwt (truthy session_id) s.draws in
        let p = access_payload s.config now user_id email roles session (jwt.token_urlsafe n) in
        let q = refresh_payload s.config now user_id email session (jwt.token_urlsafe (suc n)) in
        Known p
        → Known q
        → s.config.algorithm ≡ "HS256"
        → s.config.audience ≡ audience ∷ rest
        → now ≤ t
        → t < seconds_after s.config.access_token_expiry now * ticks
        → t < seconds_after s.config.refresh_token_expiry now * ticks
        → (tokens : Tokens) × (s' : Backend jwt cache) × (create_tokens jwt cache now user_id email
              roles session_id s
            ≡ (ok tokens, s'))
          × (s'.store ≡ s.store)
          × (verify_token jwt s.config t tokens.access_token (some access) ≡ (true, some p))
          × (verify_token jwt s.config t tokens.access_token (some refresh) ≡ (false, none))
          × (verify_token jwt s.config t tokens.refresh_token (some refresh) ≡ (true, some q))
          × (verify_token jwt s.config t tokens.refresh_token (some access) ≡ (false, none))
          × ((p.sub ≡ some user_id)
              × (p.roles ≡ some (or_else roles []))
              × (p.session_id ≡ some tokens.session_id))
          × ((q.sub ≡ some user_id) × (q.roles ≡ none) × (q.session_id ≡ some tokens.session_id))
  unfolding create_tokens
  create_tokens-verify audience rest now t user_id email roles session_id s known_p known_q hs first
        later short long =
      let c = s.config in
      let (session, n) = session_of jwt (truthy session_id) s.draws in
      let (drawn, set) = session_lem jwt Known laws cache session_id s in
      let s1 : Backend jwt cache = record s { draws = n } in
      let s2 : Backend jwt cache = record s { draws = suc n } in
      let p = access_payload c now user_id email roles session (jwt.token_urlsafe n) in
      let q = refresh_payload c now user_id email session (jwt.token_urlsafe (suc n)) in
      let p_issued : IsIssued jwt Known laws cache c audience rest now t c.access_token_expiry p =
        record {
          known = known_p;
          algorithm = hs;
          audiences = first;
          later = later;
          alive = short;
          iat = refl;
          exp = refl;
          iss = refl;
          aud = rw first refl;
        } in
      let q_issued : IsIssued jwt Known laws cache c audience rest now t c.refresh_token_expiry q =
        record {
          known = known_q;
          algorithm = hs;
          audiences = first;
          later = later;
          alive = long;
          iat = refl;
          exp = refl;
          iss = refl;
          aud = rw first refl;
        } in
      (
        record {
          access_token = laws.token_of p c.secret_key;
          refresh_token = laws.token_of q c.secret_key;
          expires_in = c.access_token_expiry;
          session_id = session;
        },
        record s { draws = suc (suc n) },
        rw
            (
              drawn,
              access_lem jwt Known laws cache now user_id email roles session s1 hs set known_p,
              refresh_lem jwt Known laws cache now user_id email session s2 hs set known_q,
            )
            refl,
        refl,
        passes_lem jwt Known laws cache c audience rest now t c.access_token_expiry p p_issued
            access refl refl,
        mistyped_lem jwt Known laws cache c audience rest now t c.access_token_expiry p p_issued
            refresh "access" refl refl,
        passes_lem jwt Known laws cache c audience rest now t c.refresh_token_expiry q q_issued
            refresh refl refl,
        mistyped_lem jwt Known laws cache c audience rest now t c.refresh_token_expiry q q_issued
            access "refresh" refl refl,
        (refl, refl, refl),
        (refl, refl, refl),
      )
