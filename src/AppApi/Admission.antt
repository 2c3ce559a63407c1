-- ===== src/AppApi/Admission.antt =====
-- Which requests the middleware admits (`AuthMiddleware` of internal/appapi/auth.go), with a
-- configuration that `LoadConfig` of internal/appapi/config.go accepts.
use go_live_transcription.Prelude.{
  ◌≡◌, ◌↔◌, refl, ◌∙◌, ap, true, false, [], ◌∷◌, nat_eq_iff, ok, arith, sym,
}
use go_live_transcription.AppApi.Base64.{Bytes, is_nil, decode_string, decode_quads}
use go_live_transcription.AppApi.Auth.{
  Config, load_config, same, decode_auth_header, split_colon, auth_middleware, admitted,
  check_secret,
}

same_refl : (xs : Bytes) → same xs xs ≡ true
same_refl [] = refl
same_refl (x ∷ xs) = ground (arith, same_refl xs)

same-eq : (xs ys : Bytes) → same xs ys ≡ true → xs ≡ ys
same-eq [] [] h = refl
same-eq [] (y ∷ ys) h = absurd (ground (arith, h))
same-eq (x ∷ xs) [] h = absurd (ground (arith, h))
same-eq (x ∷ xs) (y ∷ ys) h = ground (arith, h, nat_eq_iff x y, same-eq xs ys)

-- A configuration that is accepted has an app id and a secret.
load_config-nonempty :
    (env cfg : Config)
    → load_config env ≡ ok cfg
    → (is_nil cfg.app_id ≡ false) × (is_nil cfg.app_secret ≡ false)
unfolding load_config
load_config-nonempty env cfg h = ground (arith, h)

decode_nothing : decode_auth_header [] ≡ ([], [])
unfolding decode_auth_header decode_string decode_quads split_colon
decode_nothing = refl

check_secret-admits :
    (cfg : Config) (parts : Bytes × Bytes) (u : Bytes)
    → check_secret cfg parts ≡ admitted u
    → parts ≡ (u, cfg.app_secret)
unfolding check_secret
check_secret-admits cfg (username, secret) u h = ground (arith, h, same-eq secret cfg.app_secret)

admits-check_secret :
    (cfg : Config) (parts : Bytes × Bytes) (u : Bytes)
    → parts ≡ (u, cfg.app_secret)
    → check_secret cfg parts ≡ admitted u
unfolding check_secret
admits-check_secret cfg parts u h = rw (h, same_refl cfg.app_secret) refl

middleware-admits :
    (cfg : Config) (id header u : Bytes)
    → auth_middleware cfg false id header ≡ admitted u
    → (id ≡ cfg.app_id) × (decode_auth_header header ≡ (u, cfg.app_secret))
unfolding auth_middleware
middleware-admits cfg id header u h =
    ground (arith, h, same-eq id cfg.app_id, check_secret-admits cfg (decode_auth_header header) u)

secret-decodes :
    (cfg : Config) (header u : Bytes)
    → is_nil cfg.app_secret ≡ false
    → decode_auth_header header ≡ (u, cfg.app_secret)
    → is_nil header ≡ false
secret-decodes cfg [] u s d =
    absurd (ground (arith, s, ap (λ (p : Bytes × Bytes). is_nil (p.1)) (sym decode_nothing ∙ d)))
secret-decodes cfg (b ∷ header) u s d = refl

admits-middleware :
    (cfg : Config) (id header u : Bytes)
    → is_nil cfg.app_id ≡ false
    → is_nil cfg.app_secret ≡ false
    → id ≡ cfg.app_id
    → decode_auth_header header ≡ (u, cfg.app_secret)
    → auth_middleware cfg false id header ≡ admitted u
unfolding auth_middleware
admits-middleware cfg id header u a s e d =
    rw (e, a, secret-decodes cfg header u s d, same_refl cfg.app_id)
      (admits-check_secret cfg (decode_auth_header header) u d)

-- With a configuration that was accepted, a request to a path that is not skipped is admitted in a
-- user's name exactly when its first header is the app's id and its second one decodes to that name
-- and the app's secret. So a header that does not decode is never admitted.
pub auth_middleware-admits :
    (env cfg : Config) (id header u : Bytes)
    → load_config env ≡ ok cfg
    → (auth_middleware cfg false id header ≡ admitted u)
      ↔ ((id ≡ cfg.app_id) × (decode_auth_header header ≡ (u, cfg.app_secret)))
auth_middleware-admits env cfg id header u h =
    let (a, s) = load_config-nonempty env cfg h in
    (middleware-admits cfg id header u, λ p. admits-middleware cfg id header u a s p.0 p.1)
