-- ===== src/Server/Credentials.antt =====
-- Who may change the app (main.go with internal/appapi and internal/handlers).
use go_live_transcription.Prelude.{
  String, ◌==◌, ◌||◌, eq_iff, ◌≡◌, refl, Bool, true, false, none, some, ok, arith, ◌⊎◌, inl, inr,
  Bool-cases, subst,
}
use go_live_transcription.AppApi.Base64.{Bytes}
use go_live_transcription.AppApi.Auth.{
  Config, load_config, Decision, skipped, admitted, missing_headers, invalid_app_id, invalid_secret,
  auth_middleware, decode_auth_header, check_secret,
}
use go_live_transcription.AppApi.Admission.{auth_middleware-admits}
use go_live_transcription.AppApi.Client.{header_of}
use go_live_transcription.Handlers.Routes.{
  Handler, Around, HttpCall, serve_mux, handle_found, handle, find_route, register_routes,
  heartbeat, to_heartbeat,
}
use go_live_transcription.Server.{after_auth, serve, skip_auth}

-- The headers name the app, and carry its secret.
abbrev pub Credentials : Config → HttpCall → Type 0
Credentials cfg c =
    (header_of "EX-APP-ID" c.header ≡ cfg.app_id)
    × ((user : Bytes) × (decode_auth_header (header_of "AUTHORIZATION-APP-API" c.header)
          ≡ (user, cfg.app_secret)))

-- The path that needs no authentication has one route.
heartbeat_route :
    (method : String)
    → (find_route method "/heartbeat" register_routes ≡ none)
      ⊎ (find_route method "/heartbeat" register_routes ≡ some to_heartbeat)
unfolding find_route register_routes
heartbeat_route method = elim (Bool-cases ("GET" == method || method == "HEAD")) [
  | inl get ↦ inr (ground (arith, get))
  | inr other ↦ inl (ground (arith, other))
]

middleware-skips :
    (cfg : Config) (skip : Bool) (id header : Bytes)
    → auth_middleware cfg skip id header ≡ skipped
    → skip ≡ true
unfolding auth_middleware check_secret
middleware-skips cfg true id header h = refl
middleware-skips cfg false id header h = absurd (ground (arith, h))

middleware-Credentials :
    (env cfg : Config) (skip : Bool) (c : HttpCall) (user : Bytes)
    → load_config env ≡ ok cfg
    → auth_middleware cfg skip
        (header_of "EX-APP-ID" c.header)
        (header_of "AUTHORIZATION-APP-API" c.header)
      ≡ admitted user
    → Credentials cfg c
unfolding auth_middleware
middleware-Credentials env cfg true c user accepted h = absurd (ground (arith, h))
middleware-Credentials env cfg false c user accepted h =
    let (id, decodes) =
      (auth_middleware-admits env cfg (header_of "EX-APP-ID" c.header)
          (header_of "AUTHORIZATION-APP-API" c.header) user accepted).0
        h in
    (id, (user, decodes))

module _ (hmac : String → String → String) where
  heartbeat_path_keeps :
      (a : Around) (c : HttpCall) (h : Handler)
      → "/heartbeat" ≡ c.path
      → (serve_mux hmac a c h).1 ≡ h
  unfolding serve_mux handle_found handle heartbeat
  heartbeat_path_keeps a c h e = elim (heartbeat_route c.method) [
    | inl none_there ↦
        rw (subst (λ p. find_route c.method p register_routes ≡ none) e none_there) refl
    | inr there ↦
        rw (subst (λ p. find_route c.method p register_routes ≡ some to_heartbeat) e there) refl
  ]

  after_auth-guarded :
      (d : Decision) (a : Around) (c : HttpCall) (h : Handler)
      → (d ≡ skipped → "/heartbeat" ≡ c.path)
      → ((user : Bytes) → d ≡ admitted user → Credentials h.config c)
      → ((after_auth hmac d a c h).1 ≡ h) ⊎ Credentials h.config c
  unfolding after_auth
  after_auth-guarded skipped a c h skip admit = inl (heartbeat_path_keeps a c h (skip refl))
  after_auth-guarded (admitted user) a c h skip admit = inr (admit user refl)
  after_auth-guarded missing_headers a c h skip admit = inl refl
  after_auth-guarded invalid_app_id a c h skip admit = inl refl
  after_auth-guarded invalid_secret a c h skip admit = inl refl

  -- With an accepted configuration, a request either leaves the app as it is, or it names the app
  -- and carries a header that decodes to a user's name and the app's secret.
  pub serve_guarded :
      (env : Config) (a : Around) (c : HttpCall) (h : Handler)
      → load_config env ≡ ok h.config
      → ((serve hmac a c h).1 ≡ h) ⊎ Credentials h.config c
  unfolding serve
  serve_guarded env a c h accepted =
      let id = header_of "EX-APP-ID" c.header in
      let auth = header_of "AUTHORIZATION-APP-API" c.header in
      after_auth-guarded (auth_middleware h.config (skip_auth c.path) id auth) a c h
        (λ e. ground (
          arith,
          eq_iff "/heartbeat" c.path,
          middleware-skips h.config (skip_auth c.path) id auth e,
        ))
        (λ user e. middleware-Credentials env h.config (skip_auth c.path) c user accepted e)
