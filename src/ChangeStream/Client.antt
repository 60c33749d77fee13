-- ===== src/ChangeStream/Client.antt =====
-- cdc/changestream/client.go: the control messages of a websocket client. A message is the map that
-- JSON decodes, in which numbers are float64. The writes to the connection and the clock are the
-- parameter `Conn`. The goroutine that runStreamer is in is the time in `streams` that it starts at;
-- what it does is not modelled, nor are Ping and its timeout.
pub mod Once
pub mod Lag
mod Tests
use etre.Base.{
  ℕ, ◌+◌, ◌-◌, ◌/◌, ◌%◌, ◌^◌, String, Bool, true, false, Option, none, some, List, [], ◌∷◌, ◌++◌,
  str_eq, ltb, if◌then◌else◌,
}
use etre.Base.Dict.{Dict, lookup, insert, has_key}
use etre.Base.Int64.{add64}
use etre.Etre.{Value, string, float64, int64, Outcome, returns, panics}
use etre.Entity.Validate.{to_int}

pub record Latency : Type 0 where
  pub send : ℕ
  pub recv : ℕ
  pub rtt : ℕ

-- What ends Run or is sent to the client as an error.
pub data ClientError : Type 0 where
  network websocket_closed bad_json bad_data write_failed no_timestamps : ClientError
  already_started unknown_control : ClientError

pub data Message : Type 0 where
  pong : Dict Value → Message
  ack : Message
  error : ClientError → Message

-- What ReadMessage returns: a message, none where it is not JSON, or that the connection is lost or
-- closed.
pub data Received : Type 0 where
  message : Option (Dict Value) → Received
  lost closed : Received

-- The connection, for which false is a failed write, and the time in nanoseconds and in seconds.
pub record Conn : Type 1 where
  pub World : Type 0
  pub write_json : Message → World → World × Bool
  pub unix_nano : World → ℕ
  pub unix : World → ℕ

-- a - b and a / 1000000 of int64 values.
unfoldable pub sub64 : ℕ → ℕ → ℕ
sub64 a b = add64 a (2 ^ 64 - b % 2 ^ 64)

unfoldable pub millis : ℕ → ℕ
millis a = if ltb a (2 ^ 63) then a / 1000000 else (2 ^ 64 - (2 ^ 64 - a) / 1000000) % 2 ^ 64

-- int64(v.(float64))
unfoldable pub as_time : Value → Outcome ℕ
unfolding to_int
as_time (float64 negative magnitude) = returns (to_int negative magnitude)
as_time v = panics

unfoldable pub name_of : Option Value → String
name_of (some (string s)) = s
name_of v = ""

module _ (C : Conn) where
  open C use {World, write_json, unix_nano, unix}

  pub record WebsocketClient : Type 0 where
    pub conn : World
    pub stopped : Bool
    pub stream_started : Bool
    pub ping_chan : Option Latency
    pub streams : List ℕ

  abbrev pub Result : Type 0
  Result = WebsocketClient × Outcome (Option ClientError)

  abbrev pub after_write : WebsocketClient → World × Bool → Result
  after_write c (w, true) = (record c { conn = w }, returns none)
  after_write c (w, false) = (record c { conn = w }, returns (some write_failed))

  unfoldable pub send : Message → WebsocketClient → Result
  send m c = after_write c (write_json m c.conn)

  abbrev pub reply_to : ℕ → Dict Value → Dict Value
  reply_to now msg = insert "dstTs" (int64 now) (insert "control" (string "pong") msg)

  -- Behind the conversion of srcTs.
  unfoldable pub pong_back : ℕ → Dict Value → Outcome ℕ → WebsocketClient → Result
  unfolding send
  pong_back now msg (returns t) c = send (pong (reply_to now msg)) c
  pong_back now msg panics c = (c, panics)

  unfoldable pub answer : ℕ → Dict Value → Option Value → WebsocketClient → Result
  unfolding pong_back as_time
  answer now msg none c = send (pong (reply_to now msg)) c
  answer now msg (some v) c = pong_back now msg (as_time v) c

  unfoldable pub on_ping : ℕ → Dict Value → WebsocketClient → Result
  unfolding answer
  on_ping now msg c = answer now msg (lookup "srcTs" msg) c

  abbrev pub latency_of : ℕ → ℕ → ℕ → Latency
  latency_of now t0 t1 = record {
    send = millis (sub64 t1 t0);
    recv = millis (sub64 now t1);
    rtt = millis (sub64 now t0);
  }

  -- The channel holds one latency; another is dropped.
  unfoldable pub offer : Latency → Option Latency → WebsocketClient → Result
  offer lag none c = (record c { ping_chan = some lag }, returns none)
  offer lag (some l) c = (c, returns none)

  unfoldable pub measured : ℕ → Outcome ℕ → Outcome ℕ → WebsocketClient → Result
  unfolding offer sub64 millis
  measured now (returns t0) (returns t1) c = offer (latency_of now t0 t1) c.ping_chan c
  measured now t0 t1 c = (c, panics)

  unfoldable pub timestamps : ℕ → Option Value → Option Value → WebsocketClient → Result
  unfolding measured as_time
  timestamps now (some v1) (some v2) c = measured now (as_time v1) (as_time v2) c
  timestamps now v1 v2 c = (c, returns (some no_timestamps))

  unfoldable pub on_pong : ℕ → Dict Value → WebsocketClient → Result
  unfolding timestamps
  on_pong now msg c = timestamps now (lookup "srcTs" msg) (lookup "dstTs" msg) c

  -- The stream starts, and the client is told so.
  unfoldable pub start_at : Outcome ℕ → WebsocketClient → Result
  start_at (returns ts) c = send ack (record c { streams = c.streams ++ ts ∷ [] })
  start_at panics c = (c, panics)

  pub start_time : Option Value → WebsocketClient → Outcome ℕ
  unfolding as_time
  start_time none c = returns (unix c.conn)
  start_time (some v) c = as_time v

  unfoldable pub on_start : Dict Value → WebsocketClient → Result
  unfolding start_at start_time
  on_start msg c =
      let c' = record c { stream_started = true } in
      if c.stream_started
      then (c, returns (some already_started))
      else start_at (start_time (lookup "startTs" msg) c') c'

  unfoldable pub control : ℕ → Dict Value → WebsocketClient → Result
  unfolding name_of on_ping on_pong on_start
  control now msg c =
      let name = name_of (lookup "control" msg) in
      if str_eq name "ping"
      then on_ping now msg c
      else if str_eq name "pong"
      then on_pong now msg c
      else if str_eq name "start"
      then on_start msg c
      else (c, returns (some unknown_control))

  -- Stop. That it stops the streamer and closes the connection is left out.
  unfoldable pub stop : WebsocketClient → WebsocketClient
  stop c = if c.stopped then c else record c { stopped = true }

  -- sendError: a failed write is ignored.
  unfoldable pub send_error : ClientError → WebsocketClient → Result
  send_error e c = ((send (error e) c).0, returns (some e))

  -- The part of the loop of Run behind ReadMessage: `none` is that the loop goes on.
  pub after_control : Result → Result
  unfolding send_error
  after_control (c, returns none) = (c, returns none)
  after_control (c, returns (some e)) = send_error e c
  after_control (c, panics) = (c, panics)

  unfoldable pub handle : ℕ → Received → WebsocketClient → Result
  unfolding after_control control
  handle now lost c = (c, returns (some network))
  handle now closed c = (c, returns (some websocket_closed))
  handle now (message none) c = send_error bad_json c
  handle now (message (some msg)) c =
      if has_key "control" msg then after_control (control now msg c) else send_error bad_data c

  -- The loop of Run over what is received, with the deferred Stop where it ends. It waits where the
  -- messages end.
  pub run_on : (WebsocketClient → Result) → Result → Result
  unfolding stop
  run_on go_on (c, returns none) = go_on c
  run_on go_on (c, returns (some e)) = (stop c, returns (some e))
  run_on go_on (c, panics) = (stop c, panics)

  unfoldable pub run : List Received → WebsocketClient → Result
  unfolding handle run_on
  run [] c = (c, returns none)
  run (m ∷ ms) c = run_on (run ms) (handle (unix_nano c.conn) m c)
