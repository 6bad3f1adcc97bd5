-- ===== src/Http/Answers.antt =====
-- How a handler answers: with an error and the server as it was, or with data.
use boruta.Common.{
  ◌⊎◌, ℕ, ◌≡◌, refl, Bool, true, false, not, Option, none, some, [], Text, Map, if◌then◌else◌,
  nat_eq, text_eq,
}
use boruta.Types.{ReqId, WorkerUuid, req_state_eq, Result, ok, blocked, ◌>>=◌}
use boruta.Outcome.{Sound, returns, fails, waits}
use boruta.Server.{Server}
use boruta.Server.Invariant.{Inv}
use boruta.Std.{Std}
use boruta.Server.Calls.{Call, step}
use boruta.Http.{
  Web, Payload, marshals, Response, HttpError, Decoded, value, no_body, not_json, core, bad_id,
  bad_uuid, error_response, new_response, nothing,
}
use boruta.Http.Handlers.{
  HttpRequest, Answer, answer, fail_with, done, with_req_id, with_uuid, decoded, decoded_or,
  is_valid_uuid,
}
use boruta.Http.Router.{payload_headers, response_status}

-- A request is answered, with what satisfies a predicate, or waits at a channel or a mutex.
pub data Answers {A : Type 0} (P : A → Type 0) : Result A → Type 0 where
  replies : {a : A} → P a → Answers P (ok a)
  hangs : Answers P blocked

pub Answers-if :
    {A : Type 0} {P : A → Type 0} (b : Bool) {m n : Result A}
    → Answers P m
    → Answers P n
    → Answers P (if b then m else n)
Answers-if true h k = h
Answers-if false h k = k

pub Answers-bind :
    {A B : Type 0} {P : A → Type 0} {Q : B → Type 0} {m : Result A} (f : A → Result B)
    → Answers P m
    → ((a : A) → P a → Answers Q (f a))
    → Answers Q (m >>= f)
Answers-bind f (replies p) h = h _ p
Answers-bind f hangs h = hangs

-- What one call, or none, makes of a server.
abbrev pub IsCalled : ⦃std : Std⦄ → Server → Server → Type 0
IsCalled s t = (t ≡ s) ⊎ ((call : Call) × (step call s ≡ ok t))

module _ ⦃web : Web⦄ ⦃std : Std⦄ where
  -- An answer to a server in the state `s`: an error, which leaves the server as it was, or data, that
  -- can be marshalled unless `d` holds, with a server that has the invariant, and is as it was if `b`
  -- holds, and as one call makes it, or none.
  pub data Good (b d : Bool) (s : Server) : Response × Server → Type 0 where
    errs : (e : HttpError) → Good b d s (error_response e, s)
    gives :
        (payload : Payload) (headers hdrs : Map Text Text) (t : Server)
        → payload_headers payload ≡ ok hdrs
        → ((success : ℕ) → response_status success payload ≡ success)
        → Inv false t
        → (b ≡ true → t ≡ s)
        → IsCalled s t
        → (d ≡ false → marshals payload ≡ true)
        → Good b d s (new_response payload headers, t)

  module _ {b d : Bool} {s : Server} where
    pub answer-Good :
        {A : Type 0} {Q : A → Type 0} {m : Result A} (k : A → Answer)
        → Sound Q m
        → ((a : A) → m ≡ ok a → Q a → Answers (Good b d s) (k a))
        → Answers (Good b d s) (answer s m k)
    answer-Good k (returns q) h = h _ refl q
    answer-Good k (fails {e = e}) h = replies (errs (core e))
    answer-Good k waits h = hangs

    -- A call that returns a server only.
    pub done-Good :
        {m : Result Server}
        → b ≡ false
        → ((t : Server) → m ≡ ok t → IsCalled s t)
        → Sound (Inv false) m
        → Answers (Good b d s) (done s m)
    unfolding payload_headers response_status
    done-Good e called h = answer-Good _ h λ t f v.
        replies (gives nothing [] [] t refl (λ n. refl) v (λ g. cc) (called t f) (λ g. refl))

    parsed-Good :
        (o : Option ReqId) (k : ReqId → Answer)
        → ((rid : ReqId) → Answers (Good b d s) (k rid))
        → Answers (Good b d s) (elim o [ none ↦ fail_with s bad_id | some rid ↦ k rid ])
    parsed-Good none k h = replies (errs bad_id)
    parsed-Good (some rid) k h = h rid

    pub with_req_id-Good :
        (r : HttpRequest) (k : ReqId → Answer)
        → ((rid : ReqId) → Answers (Good b d s) (k rid))
        → Answers (Good b d s) (with_req_id r s k)
    with_req_id-Good r k h = parsed-Good (web.parse_uint r.id) k h

    pub with_uuid-Good :
        (r : HttpRequest) (k : WorkerUuid → Answer)
        → ((uuid : WorkerUuid) → Answers (Good b d s) (k uuid))
        → Answers (Good b d s) (with_uuid r s k)
    with_uuid-Good r k h = Answers-if (not (is_valid_uuid r.id)) (replies (errs bad_uuid)) (h r.id)

    pub decoded-Good :
        {A : Type 0} (m : Decoded A) (k : A → Answer)
        → ((a : A) → Answers (Good b d s) (k a))
        → Answers (Good b d s) (decoded s m k)
    decoded-Good (value a) k h = h a
    decoded-Good no_body k h = replies (errs _)
    decoded-Good (not_json t) k h = replies (errs _)

    pub decoded_or-Good :
        {A : Type 0} (default : A) (m : Decoded A) (k : A → Answer)
        → ((a : A) → Answers (Good b d s) (k a))
        → Answers (Good b d s) (decoded_or s default m k)
    decoded_or-Good default (value a) k h = h a
    decoded_or-Good default no_body k h = h default
    decoded_or-Good default (not_json t) k h = replies (errs _)
