-- ===== src/Http/Network.antt =====
-- A client and one route of a server, and what a handler makes of what the client sends.
use boruta.Common.{
  ◌&&◌, ◌||◌, ◌≡◌, refl, ap, Bool, true, false, Option, none, some, List, [], ◌∷◌, Text, nat_eq,
  text_eq, text_beq_refl, ◌==◌, if◌then◌else◌,
}
use boruta.Types.{req_state_eq, ReqId, WorkerUuid}
use boruta.Std.{Std}
use boruta.Server.{Server}
use boruta.Http.{Web, HttpResponse, Decoded, value}
use boruta.Http.Handlers.{Clocks, Answer, with_req_id, with_uuid, is_valid_uuid, decoded}
use boruta.Http.Router.{serve, Route, post, get, route_methods, route_path}
use boruta.Http.Router.{head, Method}
use boruta.Http.Client.{HttpCall, Reply, received, transport, ◌>>-◌}
use boruta.Http.Exchange.{answered}

-- A call reaches a route by its method and its path.
abbrev method_eq : Method → Method → Bool
method_eq get get = true
method_eq head head = true
method_eq post post = true
method_eq _ _ = false

abbrev pub has_method : Method → List Method → Bool
has_method m [] = false
has_method m (n ∷ l) = method_eq m n || has_method m l

abbrev pub reaches : Route → Text → HttpCall → Bool
reaches route id call =
    has_method call.method (route_methods route) && (call.path == route_path route id)

-- The transport between a client and one route of a server in the state `s`.
abbrev pub network :
    ⦃web : Web⦄ ⦃std : Std⦄ → Route → Text → Clocks → Server → HttpCall → Option HttpResponse
network route id c s call =
    if reaches route id call
    then answered (serve route c (record { id = id; body = call.body }) s)
    else none

-- A call on the route's path, by one of its methods.
pub network-routed :
    ⦃web : Web⦄ ⦃std : Std⦄ (route : Route) (id : Text) (c : Clocks) (s : Server) (method : Method)
    (body : Text)
    → has_method method (route_methods route) ≡ true
    → network route id c s (record { method = method; path = route_path route id; body = body })
      ≡ answered (serve route c (record { id = id; body = body }) s)
network-routed route id c s method body h = rw (h, text_beq_refl (route_path route id)) refl

module _ ⦃web : Web⦄ where
  pub with_req_id-parsed :
      (id body : Text) (s : Server) (k : ReqId → Answer) (rid : ReqId)
      → web.parse_uint id ≡ some rid
      → with_req_id (record { id = id; body = body }) s k ≡ k rid
  with_req_id-parsed id body s k rid e = rw (e, with_req_id) refl

  pub decoded-value :
      {A : Type 0} (s : Server) {m : Decoded A} (k : A → Answer) (a : A)
      → m ≡ value a
      → decoded s m k ≡ k a
  decoded-value s k a e = rw (e, decoded) refl

  pub with_uuid-valid :
      (id body : Text) (s : Server) (k : WorkerUuid → Answer)
      → is_valid_uuid id ≡ true
      → with_uuid (record { id = id; body = body }) s k ≡ k id
  with_uuid-valid id body s k e = rw (e, with_uuid) refl

-- What a method reads of the answer to its POST.
pub posted :
    ⦃web : Web⦄ ⦃std : Std⦄ {A : Type 0} (route : Route) (id : Text) (c : Clocks) (s : Server)
    (body : Text) (read : HttpResponse → Reply A)
    → has_method post (route_methods route) ≡ true
    → (received
          (network route id c s (record { method = post; path = route_path route id; body = body }))
          transport
        >>- read)
      ≡ (received (answered (serve route c (record { id = id; body = body }) s)) transport >>- read)
posted route id c s body read h =
    ap (λ o. received o transport >>- read) (network-routed route id c s post body h)
