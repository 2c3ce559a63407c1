-- ===== src/Server.antt =====
-- The process (main.go): the routes behind the authentication, and the end of the app.
pub mod Credentials
pub mod Ending
use go_live_transcription.Prelude.{
  ℕ, String, ◌==◌, Bool, Option, none, some, List, [], ◌∷◌, Result, ok, err,
}
use go_live_transcription.GoMap.{GoMap, lookup}
use go_live_transcription.AppApi.Base64.{Bytes}
use go_live_transcription.AppApi.Auth.{
  Config, ConfigError, load_config, Decision, skipped, admitted, missing_headers, invalid_app_id,
  invalid_secret, auth_middleware,
}
use go_live_transcription.AppApi.Client.{Http, header_of}
use go_live_transcription.Signaling.Messages.{HpbSettings}
use go_live_transcription.Service.Startup.{new_application}
use go_live_transcription.Service.Application.{Application, leave_call_cb, shutdown_all}
use go_live_transcription.Handlers.Routes.{
  Handler, new_handler, Response, write_report, Around, HttpCall, serve_mux,
}

-- `skipAuth`
abbrev pub skip_auth : String → Bool
skip_auth path = "/heartbeat" == path

-- What happens to the process: a request, or the callback of a client that is closed.
pub data Happening : Type 0 where
  request : Around → HttpCall → Happening
  callback : String → Happening

module _ (hmac : String → String → String) where
  -- What becomes of a request after the middleware's decision. The header with the user's name, which
  -- it adds to an admitted request, is read by no handler.
  unfoldable pub after_auth : Decision → Around → HttpCall → Handler → Response × Handler
  after_auth skipped a c h = serve_mux hmac a c h
  after_auth (admitted username) a c h = serve_mux hmac a c h
  after_auth missing_headers a c h = (write_report 401, h)
  after_auth invalid_app_id a c h = (write_report 401, h)
  after_auth invalid_secret a c h = (write_report 401, h)

  unfoldable pub serve : Around → HttpCall → Handler → Response × Handler
  unfolding after_auth
  serve a c h =
      after_auth
        (auth_middleware h.config (skip_auth c.path) (header_of "EX-APP-ID" c.header)
          (header_of "AUTHORIZATION-APP-API" c.header))
        a c h

  unfoldable pub happen : Happening → Handler → Handler
  unfolding serve
  happen (request a c) h = (serve a c h).1
  happen (callback token) h = record h { service = leave_call_cb token h.service }

  unfoldable pub serve_all : List Happening → Handler → Handler
  unfolding happen
  serve_all [] h = h
  serve_all (x ∷ xs) h = serve_all xs (happen x h)

  -- The process with its configuration: what happens up to the signal, `Shutdown` of the service, and
  -- what still happens until the HTTP server is down, which serves requests up to then. A
  -- configuration that is refused ends the process at once. `http` and `parse` are what the request
  -- for the settings at the start meets.
  unfoldable pub main_with :
      Http
      → (Bytes → Option HpbSettings)
      → Result ConfigError Config
      → List Happening
      → List Happening
      → Result ConfigError Application
  unfolding serve_all
  main_with http parse (err e) before during = err e
  main_with http parse (ok cfg) before during =
      let h = serve_all before (new_handler cfg (new_application cfg http parse)) in
      ok (serve_all during (record h { service = shutdown_all h.service })).service

  unfoldable pub main :
      Http
      → (Bytes → Option HpbSettings)
      → Config
      → List Happening
      → List Happening
      → Result ConfigError Application
  unfolding main_with
  main http parse env before during = main_with http parse (load_config env) before during
