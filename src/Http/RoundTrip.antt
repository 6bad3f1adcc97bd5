-- ===== src/Http/RoundTrip.antt =====
-- A request that the client has made, as the client is told of it.
use boruta.Common.{
  ◌^◌, ◌+◌, ◌≤◌, ◌<◌, ◌≡◌, ap, ◌∙◌, refl, Bool, true, subst, false, none, [], arith, length, lookup,
  nat_eq, some,
}
use boruta.Types.{
  ReqId, Priority, UserInfo, Capabilities, Time, ReqInfo, Error, wait, hi_prio, lo_prio, Result, ok,
}
use boruta.Std.{Std}
use boruta.Outcome.{Sound-ok}
use boruta.Requests.{ReqsCollection, get_request}
use boruta.Requests.Keeps.{new_request-Kept}
use boruta.Requests.Effects.{new_request-accepted}
use boruta.Server.{Server}
use boruta.Server.Invariant.{Inv}
use boruta.Server.Keeps.{Kept-Inv, settled}
use boruta.Http.{Web, WebLaws, req_info, bare_request, HttpResponse}
use boruta.Http.Handlers.{Clocks}
use boruta.Http.Router.{serve}
use boruta.Http.Router
use boruta.Http.Client.{ClientError, Reply, returned, client_new_request, client_get_request_info}
use boruta.Http.Network.{network}
use boruta.Http.Exchange.{AgreesBy, Sends, beside}
use boruta.Http.Calls.{entered, client_new_request-Agrees, client_get_request_info-Agrees}

-- A request as NewRequest makes it.
abbrev pub made : ReqId → Capabilities → Priority → (valid_after deadline : Time) → ReqInfo
made id caps priority valid_after deadline = record {
  id = id;
  priority = priority;
  owner = record { groups = [] };
  deadline = deadline;
  valid_after = valid_after;
  state = wait;
  job = none;
  caps = caps;
}

get_request-found :
    (id : ReqId) (r : ReqInfo) (c : ReqsCollection)
    → lookup id c.requests ≡ some r
    → get_request id c ≡ ok r
unfolding get_request
get_request-found id r c e = ground (arith, e)

-- What agrees with a call that returns.
AgreesBy-ok :
    ⦃web : Web⦄ {A : Type 0} {m : Result (A × Server)} (shown : A → Reply A)
    (told_as : Error → ClientError) (fault : ClientError) (a : A) (t s : Server)
    (served : Result (HttpResponse × Server)) (reply : Reply A)
    → m ≡ ok (a, t)
    → AgreesBy shown told_as fault m s served reply
    → ((resp : HttpResponse) × (served ≡ ok (resp, t))) × (reply ≡ shown a)
AgreesBy-ok shown told_as fault a t s served reply e h =
    subst (λ m. AgreesBy shown told_as fault m s served reply) e h

Sends-marshalled :
    {A : Type 0} {b : Bool} (reply : Reply A) (P : Type 0) → b ≡ true → Sends b reply P → P
Sends-marshalled {b = true} reply P e h = h
Sends-marshalled {b = false} reply P e h = cc

module _ ⦃web : Web⦄ ⦃std : Std⦄ (laws : WebLaws web) where
  -- If what is marshalled and formatted can be read back, the server has the invariant, the times
  -- of ValidAfter and of deadlines are free, the priority is in range, the Deadline is not in the
  -- past, ValidAfter is set and not after the Deadline, both can be marshalled, and the ID that
  -- comes next has 64 bits, then the client's NewRequest, brought to its route, returns that ID,
  -- and GetRequestInfo of that ID, brought to the server that the answer leaves, returns the
  -- request, waiting, with the capabilities, the priority and the times that were given, and with
  -- no groups.
  pub client_get_request_info-client_new_request :
      {s : Server}
      → Inv false s
      → (caps : Capabilities) (p : Priority) (owner : UserInfo) (va dl : Time) (c d : Clocks)
        (zero : ReqInfo)
      → s.reqs.valid_after_times.is_locked ≡ false
      → s.reqs.deadline_times.is_locked ≡ false
      → hi_prio ≤ p
      → p ≤ lo_prio
      → c.now ≤ dl
      → va ≤ dl
      → 0 < va
      → length s.reqs.requests + 1 < 2 ^ 64
      → web.can_marshal_time dl ≡ true
      → web.can_marshal_time va ≡ true
      → let id = length s.reqs.requests + 1 in
        (t : Server) × (client_new_request (network Router.new_request [] c s) caps p owner va dl
          ≡ returned id)
        × ((resp : HttpResponse) × (serve Router.new_request c
                (record {
                  id = [];
                  body = web.marshal (req_info (bare_request p owner dl va caps));
                })
                s
              ≡ ok (resp, t)))
        × (client_get_request_info
              (network Router.get_request_info (web.format_uint id) d t)
              zero
              id
            ≡ returned (made id caps p va dl))
  client_get_request_info-client_new_request {s} v caps p owner va dl c d zero lv ld lo hi nd vd pos
        small md mv =
      let id = length s.reqs.requests + 1 in
      let (r, e, found, _) =
        new_request-accepted (settled v) caps p (record { groups = [] }) va dl c.now c.now_valid
          c.month_ahead lv ld lo hi nd vd pos in
      let t : Server = record s { reqs = r } in
      let kept =
        Sound-ok (id, r)
          (new_request-Kept (settled v) caps p (record { groups = [] }) va dl c.now c.now_valid
            c.month_ahead)
          e in
      let (answered, first) = AgreesBy-ok _ _ _ id t s _ _ (ap (entered s) e) (
        Sends-marshalled _ _ (rw (md, mv) refl)
          (client_new_request-Agrees laws caps p owner va dl c s)) in
      let got = get_request-found id (made id caps p va dl) r found in
      let (_, second) =
        AgreesBy-ok _ _ _ (made id caps p va dl) t t _ _ (ap (beside t) got)
          (client_get_request_info-Agrees laws (Kept-Inv v kept) zero id d small) in
      (t, first, answered, second ∙ rw (md, mv) refl)
