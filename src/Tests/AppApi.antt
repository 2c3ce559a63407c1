-- ===== src/Tests/AppApi.antt =====
-- Authentication: runs, and the theorems at inputs.
use go_live_transcription.Prelude.{◌≡◌, ◌↔◌, refl, false, [], ◌∷◌}
use go_live_transcription.AppApi.Base64.{encode_to_string, char_of}
use go_live_transcription.AppApi.Auth.{
  Config, load_config, encode_auth, decode_auth_header, auth_middleware, admitted,
}
use go_live_transcription.AppApi.RoundTrip.{decode_auth_header-encode_auth}
use go_live_transcription.AppApi.Admission.{auth_middleware-admits}

-- The environment "app", "s3" and nothing else.
abbrev pub environment : Config
environment = record {
  app_id = 97 ∷ 112 ∷ 112 ∷ [];
  app_secret = 115 ∷ 51 ∷ [];
  app_version = [];
  app_port = [];
  nextcloud_url = [];
  hpb_url = [];
  internal_secret = [];
}

abbrev pub config : Config
config = record environment {
  app_version = 48 ∷ 46 ∷ 48 ∷ 46 ∷ 49 ∷ [];
  app_port = 50 ∷ 51 ∷ 48 ∷ 48 ∷ 48 ∷ [];
}

-- "a:b" is "YTpi".
encoded : encode_to_string (97 ∷ 58 ∷ 98 ∷ []) ≡ 89 ∷ 84 ∷ 112 ∷ 105 ∷ []
unfolding encode_to_string char_of
encoded = refl

decode_auth_header-encode_auth_example :
    decode_auth_header (encode_auth (97 ∷ 98 ∷ []) (115 ∷ 58 ∷ 51 ∷ []))
    ≡ (97 ∷ 98 ∷ [], 115 ∷ 58 ∷ 51 ∷ [])
decode_auth_header-encode_auth_example =
    decode_auth_header-encode_auth (97 ∷ 98 ∷ []) (115 ∷ 58 ∷ 51 ∷ []) refl refl refl

auth_middleware-admits_example :
    (auth_middleware config false (97 ∷ 112 ∷ 112 ∷ []) (encode_auth [] (115 ∷ 51 ∷ []))
      ≡ admitted [])
    ↔ ((97 ∷ 112 ∷ 112 ∷ [] ≡ config.app_id)
        × (decode_auth_header (encode_auth [] (115 ∷ 51 ∷ [])) ≡ ([], config.app_secret)))
unfolding load_config
auth_middleware-admits_example =
    auth_middleware-admits environment config (97 ∷ 112 ∷ 112 ∷ []) (encode_auth [] (115 ∷ 51 ∷ []))
      [] refl
