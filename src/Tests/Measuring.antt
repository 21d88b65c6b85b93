-- ===== src/Tests/Measuring.antt =====
-- Runs of the metrics.
use scaffold_go.Base.{
  ℕ, ◌≤◌, ◌≡◌, refl, true, false, Bool, some, List, [], ◌∷◌, get_elem?, arith, zero, suc,
}
use scaffold_go.Go.{returns, sprintf}
use scaffold_go.Http.{Request, Labels, counted, observed, or_ok, response, bytes}
use scaffold_go.Metrics.Collectors.{Caller, returned, interleave, calls_for}
use scaffold_go.Metrics.Collectors.Once.{registrations, interleave-once}
use scaffold_go.Metrics.Collectors.Ends.{is_ended, interleave-ends}
use scaffold_go.Metrics.Collectors.Steps.{turns}
use scaffold_go.Metrics.Measure.{labels, pattern_label, measuring}
use scaffold_go.Metrics.Measure.Label.{
  writes_header, writes, flushes, making, routing, unsent_exchange, measuring-status,
  measuring-superfluous,
}
use scaffold_go.Tests.Serving.{request}

-- Two calls for one registerer, which race, and one for another that refuses.
abbrev registerers : List ℕ
registerers = 5 ∷ 5 ∷ 6 ∷ []

abbrev schedule : List ℕ
schedule = 0 ∷ 1 ∷ 0 ∷ 2 ∷ 1 ∷ 0 ∷ 2 ∷ 2 ∷ 1 ∷ []

abbrev refuses : ℕ → Bool
refuses (suc (suc (suc (suc (suc (suc n)))))) = true
refuses _ = false

interleave-once_example :
    let (callers, s) = interleave refuses schedule (calls_for registerers) in
    ((r : ℕ) → registrations r s.registered ≤ 1)
    × ((i j : ℕ) (c d : Caller) (a b : ℕ)
        → get_elem? callers i ≡ some c
        → get_elem? callers j ≡ some d
        → c.registerer ≡ d.registerer
        → c.stage ≡ returned a
        → d.stage ≡ returned b
        → a ≡ b)
interleave-once_example = interleave-once refuses registerers schedule

fair : (i r : ℕ) → get_elem? registerers i ≡ some r → 3 ≤ turns i schedule
fair zero r e = omega arith
fair (suc zero) r e = omega arith
fair (suc (suc zero)) r e = omega arith
fair (suc (suc (suc i))) r e = cc

interleave-ends_example :
    let (callers, s) = interleave refuses schedule (calls_for registerers) in
    (d : Caller) × (get_elem? callers 1 ≡ some d)
    × (is_ended d.stage ≡ true)
    × (registrations 5 s.registered ≡ 1)
interleave-ends_example = interleave-ends refuses registerers schedule fair 1 5 refl

-- A generated handler sets the pattern.
abbrev matched : Request → Request
matched r = record r { pattern = "/v1/transfer.funds" }

measuring-status_example :
    let calls = flushes ∷ writes (bytes (sprintf "" [])) ∷ [] in
    let (y, end) = measuring 0 (routing matched calls) (unsent_exchange request [] []) in
    let l : Labels = record {
      method = "GET";
      pattern = pattern_label "/v1/transfer.funds";
      status = or_ok (response y.writer).status;
    } in
    (y.samples ≡ counted 0 l ∷ observed 0 l ∷ []) × (end ≡ returns tt)
measuring-status_example =
    measuring-status 0 matched (flushes ∷ writes (bytes (sprintf "" [])) ∷ []) request [] [] refl

measuring-superfluous_example :
    let y =
      (measuring 0
        (making (writes_header 200 ∷ writes_header 500 ∷ []))
        (unsent_exchange request [] [])).0 in
    ((response y.writer).status ≡ 200)
    × (y.samples ≡ counted 0 (labels request 500) ∷ observed 0 (labels request 500) ∷ [])
measuring-superfluous_example = measuring-superfluous 0 200 500 request [] [] refl
