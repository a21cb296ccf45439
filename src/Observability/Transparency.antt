-- ===== src/Observability/Transparency.antt =====
-- The wrapper changes nothing for the caller of a bus.
use shiori_api.Shared.{ℕ, ◌≡◌, refl, ◌-◌, Option, none, some, [], ◌∷◌, ◌++◌, Str}
use shiori_api.Observability.{
  Outcome, returned, threw, Dispatch, promised, threw_at_once, Kind, Status, success, error, Span,
  Measurement, Telemetry, kind_name, name_or_unknown, message_of, record_metrics, end_span, Bus,
  settle, instrument,
}

-- what the outcome of a dispatch is in the telemetry
abbrev pub status_of : {A : Type 0} → Outcome A → Status
status_of (returned a) = success
status_of (threw e) = error

abbrev pub exception_of : {A : Type 0} → Outcome A → Option Str
exception_of (returned a) = none
exception_of (threw e) = some (message_of e)

abbrev pub span_of : {A : Type 0} → Kind → Str → Outcome A → Span
span_of kind name outcome = record {
  name = kind_name kind ++ 46 ∷ name;
  exception = exception_of outcome;
  status = status_of outcome;
}

abbrev pub measurement_of : {A : Type 0} → Kind → Str → Outcome A → ℕ → Measurement
measurement_of kind name outcome duration = record {
  handler = name;
  kind = kind;
  status = status_of outcome;
  duration = duration;
}

-- the telemetry behind a dispatch of some duration
abbrev pub recorded : {A : Type 0} → Kind → Str → ℕ → Dispatch A → Telemetry → Telemetry
recorded kind name duration (promised outcome) t = record {
  spans = t.spans ++ span_of kind name outcome ∷ [];
  measurements = t.measurements ++ measurement_of kind name outcome duration ∷ [];
}
recorded kind name duration (threw_at_once e) t = t

module _ {Message Value State : Type 0} (constructor_name : Message → Option Str) (started_at : ℕ)
    (clock : State → ℕ) (original : Bus Message Value State) (kind : Kind) where
  -- A dispatch on an instrumented bus gives what the bus itself does, a promise or a throw of the call, with the same
  -- outcome and the same state behind it. For a promise that has settled, the telemetry has one ended span and one
  -- measurement more, with the status of the outcome, and the span has the message of a rejection. For a throw of the call
  -- itself, before there is a promise, the telemetry has no ended span and no measurement more.
  pub instrument_transparent :
      (message : Message) (s : State) (t : Telemetry)
      → let (dispatch, s') = original message s in
        let name = name_or_unknown (constructor_name message) in
        instrument constructor_name started_at clock original kind message (s, t)
        ≡ (dispatch, s', recorded kind name (clock s' - started_at) dispatch t)
  unfolding instrument settle record_metrics end_span
  instrument_transparent message s t =
      settled (name_or_unknown (constructor_name message)) (original message s)
    where
      settled :
          (name : Str) (r : Dispatch Value × State)
          → settle kind name started_at (clock r.1) r t
            ≡ (r.0, r.1, recorded kind name (clock r.1 - started_at) r.0 t)
      settled name (promised (returned value), s') = refl
      settled name (promised (threw e), s') = refl
      settled name (threw_at_once e, s') = refl
