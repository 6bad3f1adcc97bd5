-- ===== src/Http/Exchange.antt =====
-- A method of the client, answered by the server: what it returns, against the call that it stands for.
use boruta.Common.{
  ℕ, ◌++◌, ◌≤◌, ◌≡◌, refl, ap, ◌∙◌, Bool, Bool-cases, inl, inr, true, false, if◌then◌else◌, Option,
  none, some, [], ◌∷◌, Text, Map, lookup, nat_beq, leb, nat_eq, text_eq, text_beq, arith,
}
use boruta.Types.{Error, Result, ok, err, panic, blocked, ◌>>=◌}
use boruta.Requests.{ReqsCollection}
use boruta.Server.{Server}
use boruta.Http.{
  Web, WebLaws, marshals, Payload, nothing, server_error, content_type_hdr, Response, HttpResponse,
  HttpError, core, new_server_error, error_response, new_response, status_no_content,
  status_bad_request,
}
use boruta.Http.Handlers.{Answer, done, answer}
use boruta.Http.Router.{payload_headers, response_status, respond, content_type}
use boruta.Http.Panics.{
  Fault, other_fault, fault_status, panic_text, panic_handler, write_body, json_must_marshal,
  marshal_fault,
}
use boruta.Http.Client.{
  ClientError, not_marshalled, unmarshalling, Reply, returned, failed, transport, received, ◌>>-◌,
  of_server, process_response, process_nil, get_server_error,
}

-- A value that is sent only if it can be marshalled.
abbrev pub if_marshalled {ℓ} : ⦃web : Web⦄ {A : Type ℓ} → Payload → ClientError → A → Reply A
if_marshalled payload e a = if marshals payload then returned a else failed e

-- The status of an error is an error's.
pub error_status :
    ⦃web : Web⦄
    → (e : HttpError)
    → (status_bad_request ≤ (new_server_error e).status)
      × (nat_beq (new_server_error e).status status_no_content ≡ false)
unfolding new_server_error
error_status e = ground arith

module _ ⦃web : Web⦄ (laws : WebLaws web) where
  abbrev pub error_reply : HttpError → HttpResponse
  error_reply e = record {
    status = (new_server_error e).status;
    headers = (content_type_hdr, content_type) ∷ [];
    body = web.marshal (server_error (new_server_error e));
  }

  get_server_error-reply :
      (e : HttpError) → get_server_error (error_reply e) ≡ of_server (new_server_error e)
  unfolding get_server_error lookup text_beq
  get_server_error-reply e = rw (laws.error_back (new_server_error e), get_server_error) refl

  pub read_error :
      {A : Type 0} (zero : A) (unmarshal : Text → Option A) (e : HttpError)
      → process_response zero unmarshal (error_reply e) ≡ failed (of_server (new_server_error e))
  unfolding process_response
  read_error zero unmarshal e =
      let (least, other) = error_status e in ground (arith, other, get_server_error-reply e)

  -- An error reaches the client as the server made it.
  pub respond-error :
      (success : ℕ) (e : HttpError) → respond success (error_response e) ≡ ok (error_reply e)
  unfolding respond error_response write_body json_must_marshal
  respond-error success e = let (least, other) = error_status e in rw other refl

  -- Data that is marshalled, and read back, when a call succeeds.
  pub answered_data :
      {A : Type 0} (success : ℕ) (payload : Payload) (hdrs : Map Text Text) (zero : A)
      (unmarshal : Text → Option A) (a : A)
      → payload_headers payload ≡ ok hdrs
      → response_status success payload ≡ success
      → nat_beq success status_no_content ≡ false
      → leb status_bad_request success ≡ false
      → marshals payload ≡ true
      → unmarshal (web.marshal payload) ≡ some a
      → (resp : HttpResponse) × (respond success (new_response payload []) ≡ ok resp)
        × (process_response zero unmarshal resp ≡ returned a)
  unfolding respond new_response process_response write_body json_must_marshal
  answered_data success payload hdrs zero unmarshal a eh es e l em eu = (
    record {
      status = success;
      headers = hdrs ++ (((content_type_hdr, content_type) ∷ []) ++ []);
      body = web.marshal payload;
    },
    rw (eh, es, e, em) refl,
    rw (e, l, eu) refl,
  )

  -- Data that may not be marshalled: the status is written before that is known.
  pub answered_or_panic :
      {A : Type 0} (success : ℕ) (payload : Payload) (hdrs : Map Text Text) (zero : A)
      (unmarshal : Text → Option A) (a : A)
      → payload_headers payload ≡ ok hdrs
      → response_status success payload ≡ success
      → nat_beq success status_no_content ≡ false
      → leb status_bad_request success ≡ false
      → (marshals payload ≡ true → unmarshal (web.marshal payload) ≡ some a)
      → unmarshal (panic_text marshal_fault) ≡ none
      → (resp : HttpResponse) × (respond success (new_response payload []) ≡ ok resp)
        × (process_response zero unmarshal resp ≡ if_marshalled payload unmarshalling a)
  unfolding respond new_response process_response write_body json_must_marshal
  answered_or_panic success payload hdrs zero unmarshal a eh es e l eu en =
      elim (Bool-cases (marshals payload)) [
        | inl em ↦
            let (resp, er, got) =
              answered_data success payload hdrs zero unmarshal a eh es e l em (eu em) in
            (resp, er, got ∙ rw em refl)
        | inr em ↦ (
          record {
            status = success;
            headers = hdrs ++ (((content_type_hdr, content_type) ∷ []) ++ []);
            body = panic_text marshal_fault;
          },
          rw (eh, es, e, em) refl,
          rw (e, l, em, en) refl,
        )
      ]

  pub answered_nothing :
      (resp : HttpResponse) × (respond status_no_content (new_response nothing []) ≡ ok resp)
      × (process_nil resp ≡ returned tt)
  unfolding respond new_response process_response write_body
  answered_nothing = (record { status = status_no_content; headers = []; body = [] }, refl, refl)

-- What a panic of a handler carries.
abbrev pub handler_fault : ⦃web : Web⦄ → Fault
handler_fault ⦃web⦄ = other_fault web.fault_text

-- The transport brings the client what the server has answered; panicHandler answers for a handler
-- that panics, and there is no answer while one waits. No handler ends with an error.
abbrev pub answered : ⦃web : Web⦄ → Result (HttpResponse × Server) → Option HttpResponse
answered (ok (resp, t)) = some resp
answered panic = some (panic_handler handler_fault)
answered _ = none

-- What the client makes of an answer of panicHandler.
abbrev pub panic_error : Fault → ClientError
panic_error fault = of_server (record { err = panic_text fault; status = fault_status fault })

-- A method of the client agrees with the call `m`: where the call returns a value and a server, the
-- server ends so and the method returns what `shown` makes of the value; where it returns an error,
-- the server is as it was and the method returns what `told_as` makes of that error; where it panics
-- the method returns `fault`; and where it waits no response comes.
abbrev pub AgreesBy {ℓ} :
    ⦃web : Web⦄ {A : Type ℓ}
    → (shown : A → Reply A) (told_as : Error → ClientError) (fault : ClientError)
    → Result (A × Server)
    → Server
    → Result (HttpResponse × Server)
    → Reply A
    → Type ℓ
AgreesBy shown told_as fault (ok (a, t)) s served reply =
    ((resp : HttpResponse) × (served ≡ ok (resp, t))) × (reply ≡ shown a)
AgreesBy shown told_as fault (err e) s served reply =
    ((resp : HttpResponse) × (served ≡ ok (resp, s))) × (reply ≡ failed (told_as e))
AgreesBy shown told_as fault panic s served reply = (served ≡ panic) × (reply ≡ failed fault)
AgreesBy shown told_as fault blocked s served reply =
    (served ≡ blocked) × (reply ≡ failed transport)

-- The same where the value is returned, and the error is the one that the server has made of the
-- call's.
abbrev pub Agrees {ℓ} :
    ⦃web : Web⦄ {A : Type ℓ}
    → Result (A × Server)
    → Server
    → Result (HttpResponse × Server)
    → Reply A
    → Type ℓ
Agrees m s served reply =
    AgreesBy (λ a. returned a) (λ e. of_server (new_server_error (core e)))
      (panic_error handler_fault) m s served reply

-- What holds of a method whose body can be marshalled; of another, that it sends nothing and fails.
abbrev pub Sends {ℓ} : {A : Type ℓ} → Bool → Reply A → Type ℓ → Type ℓ
Sends true reply agrees = agrees
Sends false reply agrees = reply ≡ failed not_marshalled

module _ ⦃web : Web⦄ (laws : WebLaws web) (success : ℕ) where
  abbrev pub sent : Answer → Result (HttpResponse × Server)
  sent handled = handled >>= λ (response, t). respond success response >>= λ resp. ok (resp, t)

  -- A handler that answers to a call, and a method that reads its answer.
  pub handled-AgreesBy :
      {A : Type 0} (shown : A → Reply A) (told_as : Error → ClientError) (fault : ClientError)
      (s : Server) (m : Result (A × Server)) (k : A → Response) (read : HttpResponse → Reply A)
      (served : Result (HttpResponse × Server)) (reply : Reply A)
      → served ≡ sent (answer s m λ (a, t). ok (k a, t))
      → reply ≡ (received (answered served) transport >>- read)
      → ((e : Error) → read (error_reply laws (core e)) ≡ failed (told_as e))
      → read (panic_handler handler_fault) ≡ failed fault
      → ((a : A) (t : Server)
          → m ≡ ok (a, t)
          → (resp : HttpResponse) × (respond success (k a) ≡ ok resp) × (read resp ≡ shown a))
      → AgreesBy shown told_as fault m s served reply
  handled-AgreesBy shown told_as fault s (ok (a, t)) k read served reply es er bad broken good =
      let (resp, e, got) = good a t refl in
      let this : served ≡ ok (resp, t) = es ∙ rw e refl in ((resp, this), er ∙ rw this got)
  handled-AgreesBy shown told_as fault s (err e) k read served reply es er bad broken good =
      let this : served ≡ ok (error_reply laws (core e), s) =
        es ∙ rw (respond-error laws success (core e)) refl in
      ((error_reply laws (core e), this), er ∙ rw this (bad e))
  handled-AgreesBy shown told_as fault s panic k read served reply es er bad broken good =
      (es, er ∙ rw es broken)
  handled-AgreesBy shown told_as fault s blocked k read served reply es er bad broken good =
      (es, er ∙ rw es refl)

  pub handled-Agrees :
      {A : Type 0} (s : Server) (m : Result (A × Server)) (k : A → Response)
      (read : HttpResponse → Reply A) (served : Result (HttpResponse × Server)) (reply : Reply A)
      → served ≡ sent (answer s m λ (a, t). ok (k a, t))
      → reply ≡ (received (answered served) transport >>- read)
      → ((e : HttpError) → read (error_reply laws e) ≡ failed (of_server (new_server_error e)))
      → read (panic_handler handler_fault) ≡ failed (panic_error handler_fault)
      → ((a : A) (t : Server)
          → m ≡ ok (a, t)
          → (resp : HttpResponse) × (respond success (k a) ≡ ok resp) × (read resp ≡ returned a))
      → Agrees m s served reply
  handled-Agrees s m k read served reply es er bad broken good =
      handled-AgreesBy (λ a. returned a) (λ e. of_server (new_server_error (core e)))
        (panic_error handler_fault) s m k read served reply es er (λ e. bad (core e)) broken good

-- The client reports a panic, with its reason.
pub read_panic :
    ⦃web : Web⦄ {A : Type 0} (zero : A) (unmarshal : Text → Option A) (fault : Fault)
    → status_bad_request ≤ fault_status fault
    → process_response zero unmarshal (panic_handler fault) ≡ failed (panic_error fault)
unfolding process_response get_server_error panic_handler lookup text_beq
read_panic zero unmarshal fault h = ground (arith, h)

-- A handler answers to the outcome of a call, or to that outcome with a value and a server made of it.
pub answer-mapped :
    ⦃web : Web⦄ {X A : Type 0} (s : Server) (m : Result X) (f : X → A × Server) (k : A → Response)
    → answer s m (λ x. ok (k (f x).0, (f x).1))
      ≡ answer s (m >>= λ x. ok (f x)) (λ (a, t). ok (k a, t))
answer-mapped s (ok x) f k = refl
answer-mapped s (err e) f k = refl
answer-mapped s panic f k = refl
answer-mapped s blocked f k = refl

-- A call that leaves the server as it was.
abbrev pub beside : {A : Type 0} → Server → Result A → Result (A × Server)
beside s m = m >>= λ a. ok (a, s)

-- A call with no value, and a call of the requests' collection.
abbrev pub told : Result Server → Result (Unit {0} × Server)
told m = m >>= λ t. ok (tt, t)

abbrev pub with_reqs : Server → Result ReqsCollection → Result Server
with_reqs s m = m >>= λ d. ok (record s { reqs = d })

module _ ⦃web : Web⦄ (laws : WebLaws web) where
  -- The same of a call with no value.
  pub told-Agrees :
      (s : Server) (m : Result Server) (served : Result (HttpResponse × Server))
      (reply : Reply (Unit {0}))
      → served ≡ sent laws status_no_content (done s m)
      → reply ≡ (received (answered served) transport >>- process_nil)
      → Agrees (told m) s served reply
  unfolding process_response
  told-Agrees s m served reply es er =
      handled-Agrees laws status_no_content s (told m) (λ _. new_response nothing []) process_nil
        served reply
        (es
          ∙ ap (sent laws status_no_content)
              (answer-mapped s m (λ t. (tt, t)) (λ _. new_response nothing [])))
        er (read_error laws tt (λ _. none)) (read_panic tt (λ _. none) handler_fault (omega arith))
        (λ a t e. answered_nothing laws)
