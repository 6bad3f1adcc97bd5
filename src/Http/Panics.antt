-- ===== src/Http/Panics.antt =====
-- http/server/api/api.go: panicHandler, which httptreemux calls on a panic of a handler, and
-- jsonMustMarshal of http/server/api/v1/api.go. A panic before the status is written is answered by
-- panicHandler; after it, panicHandler adds its text to what has been sent. Headers that a handler
-- has set before it panics are left out.
use boruta.Common.{ℕ, ◌++◌, [], ◌∷◌, Text, codes, nat_beq, if◌then◌else◌}
use boruta.Http.{
  Web, Payload, marshals, ServerError, HttpResponse, internal_server_error, http_error_text,
  content_type_hdr, status_no_content, status_internal_server_error,
}

-- What a panic carries: a ServerError, or another value, as it is printed.
pub data Fault : Type 0 where
  server_fault : ServerError → Fault
  other_fault : Text → Fault

-- The `switch` of panicHandler.
abbrev pub fault_status : Fault → ℕ
fault_status (server_fault e) = e.status
fault_status (other_fault t) = status_internal_server_error

abbrev pub fault_reason : Fault → Text
fault_reason (server_fault e) = e.err
fault_reason (other_fault t) = t

abbrev pub panic_text : Fault → Text
panic_text fault = codes "Internal Server Error:" ++ 10 ∷ fault_reason fault

unfoldable pub panic_handler : Fault → HttpResponse
panic_handler fault = record {
  status = fault_status fault;
  headers = (content_type_hdr, codes "text/plain; charset=utf-8") ∷ [];
  body = panic_text fault;
}

-- What jsonMustMarshal ends with.
pub data Marshalled : Type 0 where
  bytes : Text → Marshalled
  panics : Fault → Marshalled

module _ ⦃web : Web⦄ where
  -- What NewServerError makes of ErrInternalServerError and the error of json.Marshal.
  abbrev pub marshal_fault : Fault
  marshal_fault = server_fault (record {
    err =
        http_error_text internal_server_error
        ++ (codes ": " ++ (codes "unable to marshal JSON:" ++ web.time_error_text));
    status = status_internal_server_error;
  })

  unfoldable pub json_must_marshal : Payload → Marshalled
  json_must_marshal payload =
      if marshals payload then bytes (web.marshal payload) else panics marshal_fault

  -- What is written after the status: the bytes, or what panicHandler then writes.
  abbrev pub written : Marshalled → Text
  written (bytes t) = t
  written (panics fault) = panic_text fault

  unfoldable pub write_body : ℕ → Payload → Text
  unfolding json_must_marshal
  write_body status payload =
      if nat_beq status status_no_content then [] else written (json_must_marshal payload)
