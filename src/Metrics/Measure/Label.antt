-- ===== src/Metrics/Measure/Label.antt =====
-- The status under which a request is counted, and the one that its client was sent
-- (prometheus/metrics.go, prometheus/writer.go).
use scaffold_go.Base.{
  ℕ, zero, suc, String, ◌≡◌, refl, sym, ap, subst, ◌∙◌, Bool, true, false, not, ◌&&◌, List, [], ◌∷◌,
  ◌++◌, ◌==◌, arith, if◌then◌else◌,
}
use scaffold_go.Go.{returns}
use scaffold_go.Http.{
  Request, Body, Response, Writer, server_writer, response_writer, Labels, Sample, counted,
  observed, Exchange, Handler, is_informational, respond_once, respond, append_body, write_header,
  or_ok, write, flush, set_header, header_set, response,
}
use scaffold_go.Metrics.Measure.{pattern_label, labels, measured, recorded, measuring}

-- A call of WriteHeader, Write or Flush of the response writer, or of `Header().Set`.
pub data WriterCall : Type 0 where
  writes_header : ℕ → WriterCall
  writes : Body → WriterCall
  flushes : WriterCall
  sets_header : String → String → WriterCall

unfoldable pub call_writer : WriterCall → Writer → Writer
unfolding write_header write flush set_header
call_writer (writes_header code) w = write_header code w
call_writer (writes b) w = write b w
call_writer flushes w = flush w
call_writer (sets_header key v) w = set_header key v w

unfoldable pub call_writer_each : List WriterCall → Writer → Writer
call_writer_each [] w = w
call_writer_each (c ∷ cs) w = call_writer_each cs (call_writer c w)

-- A status that is sent: neither 0 nor informational.
abbrev pub is_final : ℕ → Bool
is_final code = not (code == 0) && not (is_informational code)

-- No header is written once the response has begun, and none is informational.
abbrev pub is_orderly : Bool → List WriterCall → Bool
is_orderly begun [] = true
is_orderly begun (writes_header code ∷ cs) = (not begun && is_final code) && is_orderly true cs
is_orderly begun (writes b ∷ cs) = is_orderly true cs
is_orderly begun (flushes ∷ cs) = is_orderly true cs
is_orderly begun (sets_header key v ∷ cs) = is_orderly begun cs

-- The wrapper and the server agree on the status.
record IsInStep (begun : Bool) (status : ℕ) (r : Response) : Type 0 where
  sent : begun ≡ true → or_ok status ≡ r.status
  unsent : begun ≡ false → (status ≡ 0) × (r.status ≡ 0)

-- The states that the calls go through.
record Reaches (begun : Bool) (w : Writer) : Type 0 where
  status : ℕ
  served : Response
  shape : w ≡ response_writer status false (server_writer served)
  in_step : IsInStep begun status served

and-true : (a b : Bool) → (a && b) ≡ true → (a ≡ true) × (b ≡ true)
and-true a b e = ground arith

of_not : (b : Bool) → not b ≡ true → b ≡ false
of_not b e = ground arith

or_ok-nonzero : (n : ℕ) → (n == 0) ≡ false → or_ok n ≡ n
or_ok-nonzero zero e = cc
or_ok-nonzero (suc n) e = refl

or_ok_idem : (n : ℕ) → or_ok (or_ok n) ≡ or_ok n
or_ok_idem zero = refl
or_ok_idem (suc n) = refl

in_step-or_ok :
    (begun : Bool) (status : ℕ) (r : Response)
    → IsInStep begun status r
    → or_ok status ≡ or_ok r.status
in_step-or_ok true status r h = sym (or_ok_idem status) ∙ ap or_ok (h.sent refl)
in_step-or_ok false status r h = ap or_ok (h.unsent refl).0 ∙ sym (ap or_ok (h.unsent refl).1)

-- A body or a flush sends 200 where nothing has been sent.
respond-ok : (r : Response) (n : ℕ) → r.status ≡ n → (respond_once 200 r n).status ≡ or_ok n
respond-ok r zero e = refl
respond-ok r (suc n) e = e

respond-final :
    (code : ℕ) (r : Response)
    → r.status ≡ 0
    → is_final code ≡ true
    → (respond code r).status ≡ or_ok code
unfolding respond
respond-final code r unsent final =
    let (nonzero, late) = and-true (not (code == 0)) (not (is_informational code)) final in
    ap (λ n. (respond_once code r n).status) unsent
    ∙ ap (λ (b : Bool). (if b then r else record r { status = code }).status) (of_not _ late)
    ∙ sym (or_ok-nonzero code (of_not _ nonzero))

respond-kept :
    (code : ℕ) (r : Response) (n : ℕ)
    → r.status ≡ n
    → (n == 0) ≡ false
    → (respond code r).status ≡ n
unfolding respond
respond-kept code r zero e nonzero = cc
respond-kept code r (suc n) e nonzero = ap (λ m. (respond_once code r m).status) e ∙ e

header_set-status : (key v : String) (r : Response) → (header_set key v r).status ≡ r.status
unfolding header_set
header_set-status key v r = ground arith

IsInStep-status :
    (begun : Bool) (status : ℕ) (r q : Response)
    → q.status ≡ r.status
    → IsInStep begun status r
    → IsInStep begun status q
IsInStep-status begun status r q same h = record {
  sent = λ e. h.sent e ∙ sym same;
  unsent = λ e. ((h.unsent e).0, same ∙ (h.unsent e).1);
}

call_writer_each-Reaches :
    (cs : List WriterCall) (begun : Bool) (status : ℕ) (r : Response)
    → IsInStep begun status r
    → is_orderly begun cs ≡ true
    → (end : Bool) × Reaches end
        (call_writer_each cs (response_writer status false (server_writer r)))
unfolding call_writer_each call_writer write_header write flush set_header append_body respond
call_writer_each-Reaches [] begun status r h o =
    (begun, record { status = status; served = r; shape = refl; in_step = h })
call_writer_each-Reaches (writes_header code ∷ cs) begun status r h o =
    let (allowed, orderly) = and-true (not begun && is_final code) (is_orderly true cs) o in
    let (not_begun, final) = and-true (not begun) (is_final code) allowed in
    let unsent = (h.unsent (of_not begun not_begun)).1 in
    call_writer_each-Reaches cs true code (respond code r)
      (record { sent = λ _. sym (respond-final code r unsent final); unsent = λ e. cc }) orderly
call_writer_each-Reaches (writes b ∷ cs) begun status r h o =
    call_writer_each-Reaches cs true (or_ok status) (append_body b r)
      (record {
        sent = λ _.
            or_ok_idem status ∙ in_step-or_ok begun status r h ∙ sym (respond-ok r r.status refl);
        unsent = λ e. cc;
      })
      o
call_writer_each-Reaches (flushes ∷ cs) begun status r h o =
    call_writer_each-Reaches cs true status (record (respond 200 r) { flushes = suc r.flushes })
      (record {
        sent = λ _. in_step-or_ok begun status r h ∙ sym (respond-ok r r.status refl);
        unsent = λ e. cc;
      })
      o
call_writer_each-Reaches (sets_header key v ∷ cs) begun status r h o =
    call_writer_each-Reaches cs begun status (header_set key v r)
      (IsInStep-status begun status r (header_set key v r) (header_set-status key v r) h) o

-- A handler that makes these calls on its writer, and returns.
abbrev pub making : List WriterCall → Handler
making cs x = (record x { writer = call_writer_each cs x.writer }, returns tt)

-- The same, of a handler that has the request changed: a mux, or a generated handler, sets the pattern.
abbrev pub routing : (Request → Request) → List WriterCall → Handler
routing route cs x =
    (record x { request = route x.request; writer = call_writer_each cs x.writer }, returns tt)

-- A request that reaches the middleware with nothing sent.
abbrev pub unsent_exchange : Request → List (String × String) → List Sample → Exchange
unsent_exchange r header samples = record {
  request = r;
  writer = server_writer (record { status = 0; header = header; body = []; flushes = 0 });
  log = [];
  samples = samples;
}

-- A request whose handler calls no method of its writer but WriteHeader, Write, Flush and the Set of its
-- header, may change the request, and returns, and which writes its header at most once, before any body
-- or flush and with no informational code: it is counted once and observed once, under the method and the
-- pattern that the handler has left, or "unknown" if there is none, and the status that its client is
-- sent, which is 200 if the handler sends none.
pub measuring-status :
    (set : ℕ) (route : Request → Request) (cs : List WriterCall) (r : Request)
    (header : List (String × String)) (samples : List Sample)
    → is_orderly false cs ≡ true
    → let (y, end) = measuring set (routing route cs) (unsent_exchange r header samples) in
      let l : Labels = record {
        method = (route r).method;
        pattern = pattern_label (route r).pattern;
        status = or_ok (response y.writer).status;
      } in
      (y.samples ≡ samples ++ counted set l ∷ observed set l ∷ []) × (end ≡ returns tt)
unfolding measuring
measuring-status set route cs r header samples orderly =
    let served : Response = record { status = 0; header = header; body = []; flushes = 0 } in
    let (begun, reached) =
      call_writer_each-Reaches cs false 0 served
        (record { sent = λ e. cc; unsent = λ _. (refl, refl) }) orderly in
    let agreed = in_step-or_ok begun reached.status reached.served reached.in_step in
    subst (Counted set r samples) (sym reached.shape) (
      ap
          (λ n.
            let l : Labels = record {
              method = (route r).method;
              pattern = pattern_label (route r).pattern;
              status = n;
            } in
            samples ++ counted set l ∷ observed set l ∷ [])
          agreed,
      refl,
    )
  where
    Counted : ℕ → Request → List Sample → Writer → Type 0
    Counted set r samples w =
        let x = record (unsent_exchange r header samples) { request = route r } in
        let (y, end) = recorded set (measured w) (record x { writer = w }, returns tt) in
        let l : Labels = record {
          method = (route r).method;
          pattern = pattern_label (route r).pattern;
          status = or_ok (response y.writer).status;
        } in
        (y.samples ≡ samples ++ counted set l ∷ observed set l ∷ []) × (end ≡ returns tt)

-- A second header is not sent, but counted: a request whose handler writes the header of one status
-- and then that of another is counted under the latter, and its client is sent the former.
pub measuring-superfluous :
    (set sent later : ℕ) (r : Request) (header : List (String × String)) (samples : List Sample)
    → is_final sent ≡ true
    → let cs = writes_header sent ∷ writes_header later ∷ [] in
      let y = (measuring set (making cs) (unsent_exchange r header samples)).0 in
      ((response y.writer).status ≡ sent)
      × (y.samples ≡ samples ++ counted set (labels r later) ∷ observed set (labels r later) ∷ [])
unfolding measuring call_writer_each call_writer write_header respond
measuring-superfluous set sent later r header samples final =
    let served : Response = record { status = 0; header = header; body = []; flushes = 0 } in
    let nonzero = of_not _ (and-true (not (sent == 0)) (not (is_informational sent)) final).0 in
    (
      respond-kept later (respond sent served) sent
          (respond-final sent served refl final ∙ or_ok-nonzero sent nonzero) nonzero,
      refl,
    )
