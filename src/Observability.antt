-- ===== src/Observability.antt =====
-- The wrapper around the two buses (src/core/observability/cqrs-observability.service.ts). A bus takes a message to a
-- promise, which gives a value or rejects, or throws before there is one; the spans that have ended and the metrics are records of the telemetry. OpenTelemetry's calls do
-- not throw, as its API says; the clock is a parameter, read once before and once behind a dispatch.
pub mod Transparency
pub mod Tests
use shiori_api.Shared.{ℕ, suc, ◌+◌, ◌-◌, Option, none, some, List, [], ◌∷◌, ◌++◌, Str, codes}

-- what is thrown: an Error with its message, or another value with its `String(value)`
pub data Thrown : Type 0 where
  error_object : Str → Thrown
  other_value : Str → Thrown

pub data Outcome (A : Type 0) : Type 0 where
  returned : A → Outcome A
  threw : Thrown → Outcome A

-- what a call of `execute` gives: a promise, by its outcome, or a throw of the call itself
pub data Dispatch (A : Type 0) : Type 0 where
  promised : Outcome A → Dispatch A
  threw_at_once : Thrown → Dispatch A

pub data Kind : Type 0 where
  command query : Kind

pub data Status : Type 0 where
  success error : Status

-- a span that has ended: its name, the message of the exception that it records, and its status
pub record Span : Type 0 where
  pub name : Str
  pub exception : Option Str
  pub status : Status

-- one measurement of `cqrs.handler.duration`, in milliseconds, which goes with a count of one
pub record Measurement : Type 0 where
  pub handler : Str
  pub kind : Kind
  pub status : Status
  pub duration : ℕ

pub record Telemetry : Type 0 where
  pub spans : List Span
  pub measurements : List Measurement

abbrev pub kind_name : Kind → Str
kind_name command = codes "command"
kind_name query = codes "query"

-- `message?.constructor?.name ?? 'unknown'`
abbrev pub name_or_unknown : Option Str → Str
name_or_unknown none = codes "unknown"
name_or_unknown (some name) = name

-- the message of `error instanceof Error ? error : new Error(String(error))`
abbrev pub message_of : Thrown → Str
message_of (error_object message) = message
message_of (other_value text) = text

unfoldable pub record_metrics : Kind → Str → Status → ℕ → ℕ → Telemetry → Telemetry
record_metrics kind name status started_at now t = record t {
  measurements =
      t.measurements
      ++ record { handler = name; kind = kind; status = status; duration = now - started_at } ∷ [];
}

-- `span.end()`, with what was set on the span
unfoldable pub end_span : Span → Telemetry → Telemetry
end_span span t = record t { spans = t.spans ++ span ∷ [] }

-- `bus.execute`
abbrev pub Bus : Type 0 → Type 0 → Type 0 → Type 0
Bus Message Value State = Message → State → Dispatch Value × State

module _ {Value State : Type 0} where
  -- The callbacks of `then`, `catch` and `finally`. A throw of the call itself is thrown before `Promise.resolve`, so
  -- that none of them is there; its span is not ended.
  settle :
      Kind → Str → ℕ → ℕ → Dispatch Value × State → Telemetry → Dispatch Value × State × Telemetry
  unfolding record_metrics end_span
  settle kind name started_at now (promised (returned value), s) t = (
    promised (returned value),
    s,
    end_span (record { name = kind_name kind ++ 46 ∷ name; exception = none; status = success })
        (record_metrics kind name success started_at now t),
  )
  settle kind name started_at now (threw_at_once e, s) t = (threw_at_once e, s, t)
  settle kind name started_at now (promised (threw e), s) t = (
    promised (threw e),
    s,
    end_span
        (record {
          name = kind_name kind ++ 46 ∷ name;
          exception = some (message_of e);
          status = error;
        })
        (record_metrics kind name error started_at now t),
  )

  -- the `execute` that `instrument` puts in the place of the bus's own
  unfoldable pub instrument :
      {Message : Type 0}
      → (Message → Option Str)
      → ℕ
      → (State → ℕ)
      → Bus Message Value State
      → Kind
      → Message
      → State × Telemetry
      → Dispatch Value × State × Telemetry
  unfolding settle
  instrument constructor_name started_at clock original kind message (s, t) =
      let (dispatch, s') = original message s in
      settle kind (name_or_unknown (constructor_name message)) started_at (clock s') (dispatch, s')
        t
