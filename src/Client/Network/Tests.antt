-- ===== src/Client/Network/Tests.antt =====
-- `instrumentNodeNetwork`, src/client.ts, run.
use aria_bridge.Prelude.{
  ℕ, Text, Option, length, false, text, contains, decimal, none, some, [], ◌∷◌, ◌++◌, map, ◌≡◌,
  refl,
}
use aria_bridge.Value.{nat, truthy}
use aria_bridge.Client.Network.{
  Sink, fresh_process, attach, detach, remove_sink, Payload, deliver, dispatch_network,
}
use aria_bridge.Client.Network.Sinks.{
  shared_by, joins, leaves, use_all, remaining, occurrences, in_turn, use_all-shares, detach-twice,
}
use aria_bridge.Client.Network.Requests.{
  Request, buffer, other, patched_request, track_chunk, on_response, on_data, on_end, on_error,
  report, response_report, error_report, status_message, happen, happen_all, writes, responds, ends,
  fails, written, quiet, closing_report,
}
use aria_bridge.Client.Network.Requests.Reports.{happen_all-reports}

code : Unit {0}
unfolding contains decimal truthy attach detach remove_sink deliver dispatch_network shared_by
    use_all remaining occurrences in_turn patched_request track_chunk on_response on_data on_end
    on_error report response_report error_report status_message happen happen_all written quiet
    closing_report
code = tt

abbrev first : Sink
first = record { id = 0; bridge_url = some (text "localhost:9876") }

abbrev second : Sink
second = record { id = 1; bridge_url = none }

abbrev upload : Request
upload = patched_request (text "r") (text "http://localhost:9876/x") (text "PUT") (text "http") 100

-- The bytes of texts of ASCII.
abbrev byte_length : Text → Option Text → ℕ
byte_length shown encoding = length shown

abbrev failed_upload : Payload
failed_upload = error_report 350 none (track_chunk byte_length (buffer 12) upload)

-- Three bytes in an array that is no `Buffer` count as the five of the text `1,2,3`.
bytes_as_text : (track_chunk byte_length (other (text "1,2,3") none) upload).request_size ≡ 5
unfolding code
bytes_as_text = refl

-- The bridge's own traffic is not reported to it, and another bridge sees it.
skips_its_own :
    map (λ d. d.sink) (dispatch_network failed_upload (attach second (attach first fresh_process)))
    ≡ 1 ∷ []
unfolding code
skips_its_own = refl

use_all-shares_example :
    use_all (joins first ∷ joins second ∷ leaves 0 ∷ []) (shared_by [])
    ≡ shared_by (remaining (joins first ∷ joins second ∷ leaves 0 ∷ []) [])
unfolding code
use_all-shares_example = use_all-shares (joins first ∷ joins second ∷ leaves 0 ∷ []) [] refl

detach-twice_example :
    let p = detach 0 (detach 0 (attach second (attach first fresh_process))) in
    (p.patched ≡ false) × (dispatch_network failed_upload p ≡ [])
detach-twice_example = detach-twice first second failed_upload refl

happen_all-reports_example :
    ((happen_all byte_length
        ((writes (buffer 12) ∷ []) ++ fails 350 none ∷ responds 200 ∷ ends 400 ∷ [])
        upload).reports
      ≡ failed_upload ∷ [])
    × (failed_upload.request_size ≡ nat (written byte_length (writes (buffer 12) ∷ [])))
unfolding code
happen_all-reports_example =
    happen_all-reports byte_length (text "r") (text "http://localhost:9876/x") (text "PUT")
      (text "http") 100 (writes (buffer 12) ∷ []) (responds 200 ∷ ends 400 ∷ []) (fails 350 none)
      failed_upload refl refl
