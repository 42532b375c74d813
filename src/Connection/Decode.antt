-- ===== src/Connection/Decode.antt =====
-- The stream of messages that a connection reads, as a decoder over a list of bytes: what
-- `on_tcp_recv_cb` is to take out of its buffer.
pub mod Laws
pub mod Pieces
pub mod Messages
use tcpeen.Base.{
  ℕ, zero, suc, ◌+◌, ◌-◌, ◌≤◌, ◌<◌, ◌≡◌, ◌≢◌, refl, sym, ap, ◌∙◌, ◌⊎◌, inl, inr, Bool, true, false,
  List, [], ◌∷◌, ◌++◌, length, take, drop, length-append, length-drop, if◌then◌else◌, ltb, leb,
  ◌==◌, Bool-cases, add64, sub64, arith,
}
use tcpeen.Bytes.Endian.{be_value}
use tcpeen.Channel.{ReadState, read_header, read_payload}
use tcpeen.Connection.Receive.{Clock}

-- `need` is the length of the payload that is waited for, `last` the number of the last message that
-- was counted.
pub record Decoder : Type 0 where
  pub state : ReadState
  pub need : ℕ
  pub last : ℕ
  pub latency : ℕ
  pub stream : List ℕ

pub data Step : Type 0 where
  waits breaks : Step
  moves : Decoder → Step

-- The outcome of all steps: `short` where the fuel runs out, `broken` where a payload is too short
-- for its own header.
pub data Outcome : Type 0 where
  short broken : Outcome
  rests : Decoder → Outcome

module _ (clock : Clock) where
  abbrev pub after_header : Decoder → Decoder
  after_header d = record d {
    need = be_value 0 (take 4 d.stream);
    state = read_payload;
    stream = drop 4 d.stream;
  }

  abbrev pub header_step : Decoder → Step
  header_step d = if ltb (length d.stream) 4 then waits else moves (after_header d)

  abbrev pub next_id : ℕ → ℕ → ℕ
  next_id last id = if id == add64 last 1 then add64 last 1 else last

  abbrev pub after_payload : Decoder → Decoder
  after_payload d = record d {
    last = next_id d.last (be_value 0 (take 8 d.stream));
    latency = clock.to_millis (sub64 clock.now (be_value 0 (take 8 (drop 8 d.stream))));
    state = read_header;
    stream = drop d.need d.stream;
  }

  abbrev pub payload_step : Decoder → Step
  payload_step d =
      if ltb (length d.stream) d.need
      then waits
      else (if leb d.need 16 then breaks else moves (after_payload d))

  unfoldable pub step : Decoder → Step
  step d = elim d.state [
    | read_header ↦ header_step d
    | read_payload ↦ payload_step d
    | _ ↦ moves d
  ]

  unfoldable pub drain : ℕ → Decoder → Outcome
  drain zero d = short
  drain (suc fuel) d = elim (step d) [
    | waits ↦ rests d
    | breaks ↦ broken
    | moves d' ↦ drain fuel d'
  ]

abbrev pub IsAwake : ReadState → Type 0
IsAwake s = (s ≡ read_header) ⊎ (s ≡ read_payload)

-- `bs` come in.
abbrev pub fed : List ℕ → Decoder → Decoder
fed bs d = record d { stream = d.stream ++ bs }
