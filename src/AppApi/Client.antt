-- ===== src/AppApi/Client.antt =====
-- The requests of internal/appapi/client.go. Texts are lists of bytes; what is outside is the
-- transport, and JSON.
use Prim.Native.Char.{code}
use go_live_transcription.Prelude.{
  ℕ, String, Bool, Option, none, some, [], ◌∷◌, ◌++◌, if◌then◌else◌, nat_eq, Result, ok, err,
}
use go_live_transcription.Prelude.Int.{ℤ}
use go_live_transcription.GoMap.{GoMap, lookup, insert}
use go_live_transcription.AppApi.Base64.{Bytes}
use go_live_transcription.AppApi.Auth.{Config, encode_auth}

-- The bytes of an ASCII text.
abbrev pub codes : String → Bytes
codes String.[] = []
codes (String.◌∷◌ c s) = code c ∷ codes s

pub data Method : Type 0 where
  get_method post_method put_method : Method

-- The header's names stand as the source spells them.
pub record HttpRequest : Type 0 where
  pub method : Method
  pub url : Bytes
  pub header : GoMap Bytes
  pub body : Bytes

-- The body is none where reading it fails.
pub record HttpResponse : Type 0 where
  pub status : ℕ
  pub body : Option Bytes

-- What a request meets: whether its URL is one, the transport, and `ocs.data` of a body that parses.
pub record Http : Type 0 where
  pub valid : Bytes → Bool
  pub send : HttpRequest → Option HttpResponse
  pub data_of : Bytes → Option Bytes

pub data OcsError : Type 0 where
  marshaling creating executing reading parsing : OcsError
  request_failed : ℕ → OcsError

-- `http.Header.Get`
unfoldable pub header_of : String → GoMap Bytes → Bytes
header_of name header = elim (lookup name header) [ none ↦ [] | some value ↦ value ]

unfoldable pub set_headers : Config → Bytes → GoMap Bytes → GoMap Bytes
set_headers cfg user header = insert "Accept" (codes "application/json") (
    insert "AUTHORIZATION-APP-API" (encode_auth user cfg.app_secret)
      (insert "EX-APP-VERSION" cfg.app_version (insert "EX-APP-ID" cfg.app_id header)))

-- The data of a body.
unfoldable pub parse_data : Option Bytes → Result OcsError Bytes
parse_data none = err parsing
parse_data (some value) = ok value

unfoldable pub read_body : Http → ℕ → Option Bytes → Result OcsError Bytes
unfolding parse_data
read_body http status none = err reading
read_body http status (some body) =
    if nat_eq status 200 then parse_data (http.data_of body) else err (request_failed status)

unfoldable pub read_response : Http → Option HttpResponse → Result OcsError Bytes
unfolding read_body
read_response http none = err executing
read_response http (some response) = read_body http response.status response.body

-- The request that an operation has sent, if any, and what it returns.
pub record Exchange : Type 0 where
  pub sent : Option HttpRequest
  pub result : Result OcsError Bytes

unfoldable pub exchange : Http → HttpRequest → Exchange
unfolding read_response
exchange http req =
    if http.valid req.url
    then record { sent = some req; result = read_response http (http.send req) }
    else record { sent = none; result = err creating }

unfoldable pub ocs_get : Config → Http → Bytes → Bytes → Exchange
unfolding exchange set_headers
ocs_get cfg http path user = exchange http (record {
  method = get_method;
  url = cfg.nextcloud_url ++ path;
  header = insert "OCS-APIRequest" (codes "true") (set_headers cfg user []);
  body = [];
})

-- `OCSPost` and `OCSPut` from the request on, where the body is what `json.Marshal` gives.
unfoldable pub ocs_send : Method → Config → Http → Bytes → Bytes → Option Bytes → Exchange
unfolding exchange set_headers
ocs_send method cfg http path user none = record { sent = none; result = err marshaling }
ocs_send method cfg http path user (some body) = exchange http (record {
  method = method;
  url = cfg.nextcloud_url ++ path;
  header =
      insert "Content-Type" (codes "application/json")
        (insert "OCS-APIRequest" (codes "true") (set_headers cfg user []));
  body = body;
})

unfoldable pub ocs_post : Config → Http → Bytes → Bytes → Option Bytes → Exchange
unfolding ocs_send
ocs_post cfg http path user body = ocs_send post_method cfg http path user body

unfoldable pub ocs_put : Config → Http → Bytes → Bytes → Option Bytes → Exchange
unfolding ocs_send
ocs_put cfg http path user body = ocs_send put_method cfg http path user body

-- The map that `SetInitStatus` sends.
pub record InitStatus : Type 0 where
  pub progress : ℤ
  pub error : String

unfoldable pub init_status_path : Config → Bytes
init_status_path cfg = codes "/ocs/v1.php/apps/app_api/apps/status/" ++ cfg.app_id

unfoldable pub set_init_status : (InitStatus → Option Bytes) → Config → Http → ℤ → Exchange
unfolding ocs_put init_status_path
set_init_status marshal cfg http progress =
    ocs_put cfg http (init_status_path cfg) []
      (marshal (record { progress = progress; error = "" }))
