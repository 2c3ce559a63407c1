-- ===== src/AppApi/Requests.antt =====
-- The requests of the client and the middleware (internal/appapi): the one makes what the other
-- Admits.
use go_live_transcription.Prelude.{
  ◌≡◌, refl, ◌∙◌, ap, subst, true, false, Option, none, some, [], ◌++◌, arith, ok,
}
use go_live_transcription.GoMap.{lookup, insert, GoMap}
use go_live_transcription.AppApi.Base64.{Bytes}
use go_live_transcription.AppApi.Auth.{
  Config, load_config, auth_middleware, admitted, encode_auth, decode_auth_header,
}
use go_live_transcription.AppApi.Admission.{auth_middleware-admits}
use go_live_transcription.AppApi.RoundTrip.{are_bytes, has_no_colon, decode_auth_header-encode_auth}
use go_live_transcription.AppApi.Client.{
  Method, get_method, post_method, put_method, HttpRequest, Http, Exchange, header_of, set_headers,
  exchange, ocs_get, ocs_send, ocs_post, ocs_put, codes,
}

-- An operation of the client.
pub data OcsCall : Type 0 where
  gets : Bytes → Bytes → OcsCall
  posts puts : Bytes → Bytes → Option Bytes → OcsCall

abbrev pub user_of : OcsCall → Bytes
user_of (gets path user) = user
user_of (posts path user body) = user
user_of (puts path user body) = user

abbrev pub ocs : Config → Http → OcsCall → Exchange
ocs cfg http (gets path user) = ocs_get cfg http path user
ocs cfg http (posts path user body) = ocs_post cfg http path user body
ocs cfg http (puts path user body) = ocs_put cfg http path user body

-- The middleware's two headers of a request.
abbrev pub Admits : Config → GoMap Bytes → Bytes → Type 0
Admits cfg header user =
    auth_middleware cfg false (header_of "EX-APP-ID" header)
      (header_of "AUTHORIZATION-APP-API" header)
    ≡ admitted user

-- The headers that identify the app and the user, as the client sets them.
abbrev Signed : Config → Bytes → GoMap Bytes → Type 0
Signed cfg user header =
    (header_of "EX-APP-ID" header ≡ cfg.app_id)
    × (header_of "AUTHORIZATION-APP-API" header ≡ encode_auth user cfg.app_secret)

exchange-Signed :
    (cfg : Config) (user : Bytes) (http : Http) (req r : HttpRequest)
    → Signed cfg user req.header
    → (exchange http req).sent ≡ some r
    → Signed cfg user r.header
unfolding exchange
exchange-Signed cfg user http req r h e =
    let same : req ≡ r = ground (arith, e) in
    subst (λ (x : HttpRequest). Signed cfg user x.header) same h

ocs_send-Signed :
    (method : Method) (cfg : Config) (http : Http) (path user : Bytes) (body : Option Bytes)
    (r : HttpRequest)
    → (ocs_send method cfg http path user body).sent ≡ some r
    → Signed cfg user r.header
unfolding ocs_send set_headers header_of insert lookup
ocs_send-Signed method cfg http path user none r e = absurd (ground (arith, e))
ocs_send-Signed method cfg http path user (some body) r e =
    exchange-Signed cfg user http
      (record {
        method = method;
        url = cfg.nextcloud_url ++ path;
        header =
            insert "Content-Type" (codes "application/json")
              (insert "OCS-APIRequest" (codes "true") (set_headers cfg user []));
        body = body;
      })
      r (refl, refl) e

ocs-Signed :
    (cfg : Config) (http : Http) (call : OcsCall) (r : HttpRequest)
    → (ocs cfg http call).sent ≡ some r
    → Signed cfg (user_of call) r.header
unfolding ocs_get ocs_post ocs_put set_headers header_of insert lookup
ocs-Signed cfg http (gets path user) r e =
    exchange-Signed cfg user http
      (record {
        method = get_method;
        url = cfg.nextcloud_url ++ path;
        header = insert "OCS-APIRequest" (codes "true") (set_headers cfg user []);
        body = [];
      })
      r (refl, refl) e
ocs-Signed cfg http (posts path user body) r e =
    ocs_send-Signed post_method cfg http path user body r e
ocs-Signed cfg http (puts path user body) r e =
    ocs_send-Signed put_method cfg http path user body r e

-- With an accepted configuration whose secret is a text of bytes, every request that an operation of
-- the client sends for a user whose name is a text of bytes without a colon is one that the
-- middleware of an app with this configuration Admits in the name of that user.
pub ocs_admitted :
    (env cfg : Config) (http : Http) (call : OcsCall) (r : HttpRequest)
    → load_config env ≡ ok cfg
    → are_bytes cfg.app_secret ≡ true
    → are_bytes (user_of call) ≡ true
    → has_no_colon (user_of call) ≡ true
    → (ocs cfg http call).sent ≡ some r
    → Admits cfg r.header (user_of call)
ocs_admitted env cfg http call r accepted secret user plain e =
    let (id, auth) = ocs-Signed cfg http call r e in
    let decodes = decode_auth_header-encode_auth (user_of call) cfg.app_secret user secret plain in
    (auth_middleware-admits env cfg (header_of "EX-APP-ID" r.header)
        (header_of "AUTHORIZATION-APP-API" r.header) (user_of call) accepted).1
      (id, ap decode_auth_header auth ∙ decodes)
