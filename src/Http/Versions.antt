-- ===== src/Http/Versions.antt =====
-- http/server/api/api.go: what is answered outside of the routes of version 1: a path that lacks the
-- version is sent to it, and a path that it does not have is not found. The router httptreemux, which chooses the handler of a path, and CORS are not in the
-- repository.
use boruta.Common.{ℕ, ◌≡◌, ◌++◌, List, [], ◌∷◌, Text, codes, Option}
use boruta.Types.{not_found}
use boruta.Http.{
  Web, WebLaws, ServerError, server_error, core, HttpResponse, new_server_error, content_type_hdr,
  status_bad_request, status_no_content, status_not_found, status_internal_server_error,
}
use boruta.Http.Router.{content_type}
use boruta.Http.Client.{process_response, failed, of_server}
use boruta.Http.Exchange.{read_error}

abbrev default_api : Text
default_api = codes "v1"

-- url.URL
pub record Url : Type 0 where
  pub path : Text
  pub query : Text

abbrev pub status_permanent_redirect : ℕ
status_permanent_redirect = 308

-- The status of a redirection and where it leads; `path` is what follows /api/.
unfoldable pub redirect_to_default : Url → Text → ℕ × Url
redirect_to_default u path = (
  status_permanent_redirect,
  record u { path = codes "/api/" ++ default_api ++ codes "/" ++ path },
)

unfoldable pub not_found_handler : ⦃web : Web⦄ → Url → HttpResponse
unfolding new_server_error
not_found_handler ⦃web⦄ u =
    let srv_err = new_server_error (core (not_found u.path)) in
    record {
      status = srv_err.status;
      headers = (content_type_hdr, content_type) ∷ [];
      body = web.marshal (server_error srv_err);
    }

-- The handlers that setDefaultAPIRedirect registers below /api.
pub data Fallback : Type 0 where
  redirects not_founds : Fallback

abbrev methods : List Text
methods =
    codes "GET"
    ∷ codes "HEAD"
    ∷ codes "POST"
    ∷ codes "PUT"
    ∷ codes "PATCH"
    ∷ codes "DELETE"
    ∷ codes "CONNECT"
    ∷ codes "OPTIONS"
    ∷ codes "TRACE"
    ∷ []

abbrev fallbacks : List Text → List (Text × Text × Fallback)
fallbacks [] = []
fallbacks (method ∷ rest) =
    (method, codes "/*path", redirects)
    ∷ (method, codes "/" ++ default_api ++ codes "/*path", not_founds)
    ∷ fallbacks rest

unfoldable set_default_api_redirect : List (Text × Text × Fallback)
set_default_api_redirect = fallbacks methods

module _ ⦃web : Web⦄ (laws : WebLaws web) {A : Type 0} (zero : A)
    (unmarshal : Text → Option A) where
  -- The client reports a path that is not found.
  process_response-not_found_handler :
      (u : Url)
      → process_response zero unmarshal (not_found_handler u)
        ≡ failed
            (of_server (record { err = u.path ++ codes " not found"; status = status_not_found }))
  unfolding not_found_handler new_server_error boruta.Http.http_error_text boruta.Http.error_text
  process_response-not_found_handler u = read_error laws zero unmarshal (core (not_found u.path))
