-- ===== src/Client/Network/Requests.antt =====
-- `patchedRequest` of `patchModule`, src/client.ts: one request of the patched modules, and its report.
pub mod Reports
use aria_bridge.Prelude.{
  ◌&&◌, ℕ, ◌+◌, ◌-◌, ltb, Bool, true, false, not, Text, text, decimal, if◌then◌else◌, Option, none,
  some, List, [], ◌∷◌, ◌++◌,
}
use aria_bridge.Value.{Value, undefined, nat, str}
use aria_bridge.Client.Network.{Payload}

-- A request of a patched module: what the closures of `patchedRequest` share.
pub record Response : Type 0 where
  pub status : ℕ
  pub size : ℕ

pub record Request : Type 0 where
  pub request_id : Text
  pub url : Text
  pub method : Text
  pub transport : Text
  pub start : ℕ
  pub request_size : ℕ
  pub finished : Bool
  pub response : Option Response
  -- The calls of `dispatchNetwork`, in their order.
  pub reports : List Payload

unfoldable pub patched_request : (id url method transport : Text) → ℕ → Request
patched_request id url method transport now = record {
  request_id = id;
  url = url;
  method = method;
  transport = transport;
  start = now;
  request_size = 0;
  finished = false;
  response = none;
  reports = [];
}

-- What `write` and `end` are given: nothing that counts as true, a `Buffer` with its length, or another
-- value with the text that `String` makes of it. An encoding that is no text is none.
pub data Chunk : Type 0 where
  absent : Chunk
  buffer : (length : ℕ) → Chunk
  other : (shown : Text) (encoding : Option Text) → Chunk

-- `trackChunk`, which `patchedWrite` and `patchedEnd` call. `Buffer.byteLength` is a parameter.
unfoldable pub track_chunk : (byte_length : Text → Option Text → ℕ) → Chunk → Request → Request
track_chunk byte_length absent r = r
track_chunk byte_length (buffer length) r = record r { request_size = r.request_size + length }
track_chunk byte_length (other shown encoding) r = record r {
  request_size = r.request_size + byte_length shown encoding;
}

-- The listener of `response`; `statusCode || 0`.
unfoldable pub on_response : ℕ → Request → Request
on_response status r = record r { response = some (record { status = status; size = 0 }) }

abbrev pub grow : ℕ → Option Response → Option Response
grow bytes none = none
grow bytes (some res) = some (record res { size = res.size + bytes })

-- The listener of `data`, with the length of the chunk, or 0 where there is none.
unfoldable pub on_data : ℕ → Request → Request
on_data bytes r = record r { response = grow bytes r.response }

unfoldable pub status_message : Request → Text → Text
status_message r status = r.method ++ (text " " ++ (r.url ++ (text " -> " ++ status)))

-- The report of a response that has ended.
unfoldable pub response_report : ℕ → Response → Request → Payload
response_report now res r =
    let ok = ltb res.status 400 in
    record {
      request_id = r.request_id;
      url = r.url;
      method = r.method;
      status = nat res.status;
      ok = some ok;
      duration_ms = now - r.start;
      request_size = nat r.request_size;
      response_size = nat res.size;
      transport = r.transport;
      error_message = undefined;
      message = status_message r (decimal res.status);
      breadcrumb_level = if ok then text "info" else text "warn";
      event_level = if ok then text "info" else text "error";
      bypass_throttle = some (not ok);
    }

unfoldable pub report : Payload → Request → Request
report payload r =
    if r.finished then r else record r { finished = true; reports = r.reports ++ payload ∷ [] }

-- The listener of `end`, which only a response has.
abbrev pub ended : ℕ → Option Response → Request → Request
ended now none r = r
ended now (some res) r = report (response_report now res r) r

unfoldable pub on_end : ℕ → Request → Request
on_end now r = ended now r.response r

-- `err?.message || 'request error'`, for a message that is a text or missing.
abbrev pub error_text : Option Text → Text
error_text (some (c ∷ s)) = c ∷ s
error_text _ = text "request error"

abbrev pub opt_text : Option Text → Value
opt_text none = undefined
opt_text (some t) = str t

unfoldable pub error_report : ℕ → Option Text → Request → Payload
error_report now message r = record {
  request_id = r.request_id;
  url = r.url;
  method = r.method;
  status = undefined;
  ok = none;
  duration_ms = now - r.start;
  request_size = nat r.request_size;
  response_size = undefined;
  transport = r.transport;
  error_message = opt_text message;
  message = status_message r (error_text message);
  breadcrumb_level = text "error";
  event_level = text "error";
  bypass_throttle = some true;
}

-- The listener of `error`.
unfoldable pub on_error : ℕ → Option Text → Request → Request
on_error now message r = report (error_report now message r) r

-- What may happen to a request.
pub data Happening : Type 0 where
  writes : Chunk → Happening
  responds : ℕ → Happening
  gets : ℕ → Happening
  ends : ℕ → Happening
  fails : ℕ → Option Text → Happening

module _ (byte_length : Text → Option Text → ℕ) where
  unfoldable pub happen : Happening → Request → Request
  happen (writes chunk) r = track_chunk byte_length chunk r
  happen (responds status) r = on_response status r
  happen (gets bytes) r = on_data bytes r
  happen (ends now) r = on_end now r
  happen (fails now message) r = on_error now message r

  unfoldable pub happen_all : List Happening → Request → Request
  happen_all [] r = r
  happen_all (h ∷ hs) r = happen_all hs (happen h r)

  -- The lengths of the buffers that were written, and the bytes of the texts that all else is shown as.
  unfoldable pub written : List Happening → ℕ
  written [] = 0
  written (writes absent ∷ hs) = written hs
  written (writes (buffer length) ∷ hs) = length + written hs
  written (writes (other shown encoding) ∷ hs) = byte_length shown encoding + written hs
  written (_ ∷ hs) = written hs

abbrev pub is_quiet : Happening → Bool
is_quiet (ends now) = false
is_quiet (fails now message) = false
is_quiet _ = true

-- What has happened so far neither ends a response nor fails.
unfoldable pub quiet : List Happening → Bool
quiet [] = true
quiet (h ∷ hs) = is_quiet h && quiet hs

abbrev pub report_of_response : ℕ → Option Response → Request → Option Payload
report_of_response now none r = none
report_of_response now (some res) r = some (response_report now res r)

-- The report of a request that is still open, if what happens finishes it.
unfoldable pub closing_report : Happening → Request → Option Payload
closing_report (ends now) r = report_of_response now r.response r
closing_report (fails now message) r = some (error_report now message r)
closing_report _ r = none
