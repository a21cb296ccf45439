-- ===== src/Observability/Tests.antt =====
-- A query bus that rejects with what is no Error, and one that throws at once.
use shiori_api.Shared.{ℕ, ◌≡◌, refl, some, [], ◌+◌, Str, codes, Option}
use shiori_api.Observability.{
  threw, Dispatch, promised, threw_at_once, error_object, other_value, query, Bus, Telemetry,
  instrument,
}
use shiori_api.Observability.Transparency.{recorded, instrument_transparent}

abbrev failing : Bus Str ℕ ℕ
failing message n = (promised (threw (other_value message)), n + 5)

abbrev names : Str → Option Str
names message = some (codes "DocumentFindByIdQuery")

abbrev empty : Telemetry
empty = record { spans = []; measurements = [] }

-- a bus without a handler for the message
abbrev unhandled : Bus Str ℕ ℕ
unhandled message n = (threw_at_once (error_object message), n)

nothing_recorded : (instrument names 3 (λ n. n) unhandled query (codes "?") (4, empty)).2 ≡ empty
unfolding instrument
nothing_recorded = refl

instrument_transparent_example :
    let dispatch : Dispatch ℕ = promised (threw (other_value (codes "down"))) in
    instrument names 3 (λ n. n) failing query (codes "down") (4, empty)
    ≡ (dispatch, 9, recorded query (codes "DocumentFindByIdQuery") 6 dispatch empty)
instrument_transparent_example =
    instrument_transparent names 3 (λ n. n) failing query (codes "down") 4 empty
