-- ===== src/Agent/Stream.antt =====
-- `boundedStreamSink` of internal/agent/runtime.go, for a limit that is not negative. The map of the
-- kinds is a list of its entries; a call gives the new map and the calls of `sink` it makes.
pub mod Prefix
use ops_terminator.Base.{
  ℕ, ◌+◌, ◌-◌, Bool, true, false, List, [], ◌∷◌, ◌++◌, Option, none, some, ◌==◌, text_eq, nat_eq,
  leb, if◌then◌else◌,
}
use ops_terminator.Base.Text.{Text, bytes, length, take}
use ops_terminator.Base.Text.Decimal.{decimal}

-- `streamState`.
pub record StreamState : Type 0 where
  pub used : ℕ
  pub truncated : Bool

abbrev pub new_stream : StreamState
new_stream = record { used = 0; truncated = false }

-- `states[kind]`, or a new state.
unfoldable pub state_of : Text → List (Text × StreamState) → StreamState
state_of kind [] = new_stream
state_of kind ((k, s) ∷ states) = if k == kind then s else state_of kind states

-- `states[kind] = s`.
unfoldable pub set_state :
    Text → StreamState → List (Text × StreamState) → List (Text × StreamState)
set_state kind s [] = (kind, s) ∷ []
set_state kind s ((k, t) ∷ states) =
    if k == kind then (kind, s) ∷ states else (k, t) ∷ set_state kind s states

unfoldable pub truncation_notice : Text → ℕ → Text
truncation_notice kind limit =
    bytes "[truncated further "
    ++ (kind ++ (bytes " output after " ++ (decimal limit ++ bytes " bytes]\n")))

-- The body of the sink on the state of the kind, for a chunk that is not empty.
unfoldable pub stream_chunk : ℕ → Text → Text → StreamState → StreamState × List Text
stream_chunk limit kind chunk s =
    let remaining = limit - s.used in
    if s.truncated
    then (s, [])
    else if remaining == 0
    then (record s { truncated = true }, truncation_notice kind limit ∷ [])
    else if leb (length chunk) remaining
    then (record s { used = s.used + length chunk }, chunk ∷ [])
    else (
      record { used = limit; truncated = true },
      take remaining chunk ∷ (b'\n' ∷ truncation_notice kind limit) ∷ [],
    )

-- A call of the bounded sink.
unfoldable pub bounded_sink :
    ℕ → Text → Text → List (Text × StreamState) → List (Text × StreamState) × List Text
bounded_sink limit kind chunk states =
    let (s, out) = stream_chunk limit kind chunk (state_of kind states) in
    if chunk == [] then (states, []) else (set_state kind s states, out)
