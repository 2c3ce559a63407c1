-- ===== src/AppApi/Auth.antt =====
-- internal/appapi/auth.go, `encodeAuth` of internal/appapi/client.go and `LoadConfig` of
-- internal/appapi/config.go. Texts are lists of bytes.
use go_live_transcription.Prelude.{
  ℕ, Bool, true, false, not, ◌&&◌, ◌||◌, Option, none, some, [], ◌∷◌, ◌++◌, if◌then◌else◌, nat_eq,
  Result, ok, err,
}
use go_live_transcription.AppApi.Base64.{Bytes, encode_to_string, decode_string, is_nil}

abbrev pub same : Bytes → Bytes → Bool
same [] [] = true
same [] (y ∷ ys) = false
same (x ∷ xs) [] = false
same (x ∷ xs) (y ∷ ys) = nat_eq x y && same xs ys

pub record Config : Type 0 where
  pub app_id : Bytes
  pub app_secret : Bytes
  pub app_version : Bytes
  pub app_port : Bytes
  pub nextcloud_url : Bytes
  pub hpb_url : Bytes
  pub internal_secret : Bytes

pub data ConfigError : Type 0 where
  app_id_required app_secret_required : ConfigError

-- A variable or its default.
abbrev pub or_default : Bytes → Bytes → Bytes
or_default value default = if is_nil value then default else value

-- `LoadConfig`, from the variables of the environment. The defaults are "23000" and "0.0.1".
unfoldable pub load_config : Config → Result ConfigError Config
load_config env =
    if is_nil env.app_id
    then err app_id_required
    else (if is_nil env.app_secret
        then err app_secret_required
        else ok (record env {
          app_port = or_default env.app_port (50 ∷ 51 ∷ 48 ∷ 48 ∷ 48 ∷ []);
          app_version = or_default env.app_version (48 ∷ 46 ∷ 48 ∷ 46 ∷ 49 ∷ []);
        }))

-- The byte `:`.
abbrev pub colon : ℕ
colon = 58

abbrev pub put_first : ℕ → Option (Bytes × Bytes) → Option (Bytes × Bytes)
put_first b none = none
put_first b (some (front, back)) = some (b ∷ front, back)

-- `strings.SplitN(…, ":", 2)`, where it gives two parts.
unfoldable pub split_colon : Bytes → Option (Bytes × Bytes)
split_colon [] = none
split_colon (b ∷ bs) =
    let rest = split_colon bs in if nat_eq b colon then some ([], bs) else put_first b rest

abbrev pub both_or_empty : Option (Bytes × Bytes) → Bytes × Bytes
both_or_empty none = ([], [])
both_or_empty (some parts) = parts

abbrev pub parts_of : Option Bytes → Bytes × Bytes
parts_of none = ([], [])
parts_of (some decoded) = both_or_empty (split_colon decoded)

unfoldable pub decode_auth_header : Bytes → Bytes × Bytes
unfolding split_colon decode_string
decode_auth_header header = parts_of (decode_string header)

unfoldable pub encode_auth : Bytes → Bytes → Bytes
unfolding encode_to_string
encode_auth username secret = encode_to_string (username ++ colon ∷ secret)

-- What the middleware does with a request: it passes it on, with the user's name where there is one,
-- or it answers 401.
pub data Decision : Type 0 where
  skipped : Decision
  admitted : Bytes → Decision
  missing_headers invalid_app_id invalid_secret : Decision

-- The test of the secret.
unfoldable pub check_secret : Config → Bytes × Bytes → Decision
check_secret cfg (username, secret) =
    if same secret cfg.app_secret then admitted username else invalid_secret

-- `AuthMiddleware`, from the path's entry in `skipPaths` and the two headers.
unfoldable pub auth_middleware : Config → Bool → Bytes → Bytes → Decision
unfolding decode_auth_header check_secret
auth_middleware cfg skip ex_app_id auth_header =
    if skip
    then skipped
    else (if is_nil ex_app_id || is_nil auth_header
        then missing_headers
        else (if not (same ex_app_id cfg.app_id)
            then invalid_app_id
            else check_secret cfg (decode_auth_header auth_header)))
