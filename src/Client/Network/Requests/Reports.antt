-- ===== src/Client/Network/Requests/Reports.antt =====
-- `patchedRequest`, src/client.ts: a request is reported once.
use aria_bridge.Prelude.{
  if_true, ap, ◌∙◌, ℕ, ◌+◌, true, false, Text, Option, none, some, List, [], ◌∷◌, ◌++◌, arith, ◌≡◌,
  refl,
}
use aria_bridge.Value.{nat}
use aria_bridge.Client.Network.{Payload}
use aria_bridge.Client.Network.Requests.{
  Response, Request, patched_request, track_chunk, on_response, on_data, response_report, report,
  ended, on_end, error_report, on_error, Happening, happen, happen_all, written, quiet,
  report_of_response, closing_report, absent, buffer, other, writes, responds, gets, ends, fails,
}

module _ (byte_length : Text → Option Text → ℕ) where
  happen_all-append :
      (hs ks : List Happening) (r : Request)
      → happen_all byte_length (hs ++ ks) r
        ≡ happen_all byte_length ks (happen_all byte_length hs r)
  unfolding happen_all
  happen_all-append [] ks r = refl
  happen_all-append (h ∷ hs) ks r = happen_all-append hs ks (happen byte_length h r)

  happen_all-quiet :
      (hs : List Happening) (r : Request)
      → quiet hs ≡ true
      → ((happen_all byte_length hs r).finished ≡ r.finished)
        × ((happen_all byte_length hs r).reports ≡ r.reports)
        × ((happen_all byte_length hs r).request_size ≡ r.request_size + written byte_length hs)
  unfolding happen_all quiet written happen track_chunk on_response on_data
  happen_all-quiet [] r q = (refl, refl, omega arith)
  happen_all-quiet (writes absent ∷ hs) r q = happen_all-quiet hs r q
  happen_all-quiet (writes (buffer length) ∷ hs) r q =
      let (f, p, n) = happen_all-quiet hs (track_chunk byte_length (buffer length) r) q in
      (f, p, omega arith)
  happen_all-quiet (writes (other shown encoding) ∷ hs) r q =
      let (f, p, n) = happen_all-quiet hs (track_chunk byte_length (other shown encoding) r) q in
      (f, p, omega arith)
  happen_all-quiet (responds status ∷ hs) r q = happen_all-quiet hs (on_response status r) q
  happen_all-quiet (gets bytes ∷ hs) r q = happen_all-quiet hs (on_data bytes r) q
  happen_all-quiet (ends now ∷ hs) r q = cc
  happen_all-quiet (fails now message ∷ hs) r q = cc

  report-finished : (p : Payload) (r : Request) → r.finished ≡ true → report p r ≡ r
  unfolding report
  report-finished p r f = if_true r _ f

  -- A request that has finished reports nothing more.
  happen-finished :
      (h : Happening) (r : Request)
      → r.finished ≡ true
      → ((happen byte_length h r).finished ≡ true) × ((happen byte_length h r).reports ≡ r.reports)
  unfolding happen track_chunk on_response on_data on_end on_error
  happen-finished (ends now) r f = end_finished r.response
    where
      end_finished :
          (res : Option Response)
          → ((ended now res r).finished ≡ true) × ((ended now res r).reports ≡ r.reports)
      end_finished none = (f, refl)
      end_finished (some res) = rw (report-finished (response_report now res r) r f) (f, refl)
  happen-finished (fails now message) r f =
      rw (report-finished (error_report now message r) r f) (f, refl)
  happen-finished (writes absent) r f = (f, refl)
  happen-finished (writes (buffer length)) r f = (f, refl)
  happen-finished (writes (other shown encoding)) r f = (f, refl)
  happen-finished (responds status) r f = (f, refl)
  happen-finished (gets bytes) r f = (f, refl)

  happen_all-finished :
      (hs : List Happening) (r : Request)
      → r.finished ≡ true
      → (happen_all byte_length hs r).reports ≡ r.reports
  unfolding happen_all
  happen_all-finished [] r f = refl
  happen_all-finished (h ∷ hs) r f =
      let (g, e) = happen-finished h r f in happen_all-finished hs (happen byte_length h r) g ∙ e

  happen-closes :
      (h : Happening) (r : Request) (p : Payload)
      → r.finished ≡ false
      → closing_report h r ≡ some p
      → ((happen byte_length h r).finished ≡ true)
        × ((happen byte_length h r).reports ≡ r.reports ++ p ∷ [])
  unfolding happen on_end on_error report closing_report
  happen-closes (ends now) r p f e = closes r.response e
    where
      closes :
          (res : Option Response)
          → report_of_response now res r ≡ some p
          → ((ended now res r).finished ≡ true) × ((ended now res r).reports ≡ r.reports ++ p ∷ [])
      closes none e' = cc
      closes (some res) e' = ground arith
  happen-closes (fails now message) r p f e = ground arith
  happen-closes (writes bytes) r p f e = cc
  happen-closes (responds status) r p f e = cc
  happen-closes (gets bytes) r p f e = cc

  closing_report-size :
      (h : Happening) (r : Request) (p : Payload)
      → closing_report h r ≡ some p
      → p.request_size ≡ nat r.request_size
  unfolding closing_report response_report error_report
  closing_report-size (ends now) r p e = of_response r.response e
    where
      of_response :
          (res : Option Response)
          → report_of_response now res r ≡ some p
          → p.request_size ≡ nat r.request_size
      of_response none e' = cc
      of_response (some res) e' = ground arith
  closing_report-size (fails now message) r p e = ground arith
  closing_report-size (writes bytes) r p e = cc
  closing_report-size (responds status) r p e = cc
  closing_report-size (gets bytes) r p e = cc

  -- A request is reported once: when its response first ends or it first fails. The size of the
  -- request is then the lengths of the buffers that were written until then, with the bytes of the text
  -- that any other chunk is shown as. Whatever comes afterwards adds no report.
  pub happen_all-reports :
      (id url method transport : Text) (now : ℕ) (before after : List Happening) (h : Happening)
      (p : Payload)
      → quiet before ≡ true
      → closing_report h
          (happen_all byte_length before (patched_request id url method transport now))
        ≡ some p
      → ((happen_all byte_length
            (before ++ h ∷ after)
            (patched_request id url method transport now)).reports
          ≡ p ∷ [])
        × (p.request_size ≡ nat (written byte_length before))
  unfolding happen_all patched_request
  happen_all-reports id url method transport now before after h p q e =
      let r0 = patched_request id url method transport now in
      let (f, none_yet, size) = happen_all-quiet before r0 q in
      let total : (happen_all byte_length before r0).request_size ≡ written byte_length before =
        omega (arith, size) in
      let (g, one) = happen-closes h (happen_all byte_length before r0) p f e in
      (
        ap (λ r. r.reports) (happen_all-append before (h ∷ after) r0)
            ∙ happen_all-finished after (happen byte_length h (happen_all byte_length before r0)) g
            ∙ one
            ∙ ap (λ ps. ps ++ p ∷ []) none_yet,
        closing_report-size h (happen_all byte_length before r0) p e ∙ ap nat total,
      )
