-- ===== src/ChangeStream/Client/Tests.antt =====
-- A connection in memory, and instances of the theorems.
use etre.Base.{◌+◌, ◌-◌, ◌/◌, ◌≤◌, ◌≡◌, refl, true, false, inr, none, some, List, [], ◌∷◌, arith}
use etre.Base.Dict.{Dict, lookup}
use etre.Etre.{returns, Value, string, float64, int64, panics}
use etre.ChangeStream.Client.Lag.{measured-bounds}
use etre.ChangeStream.Client.{
  Latency, measured, Message, pong, Received, message, Conn, WebsocketClient, send, control, handle,
  run,
}
use etre.ChangeStream.Client.Once.{StartsOnce, EndsStopped, run-StartsOnce, control-ping}

abbrev in_memory : Conn
in_memory = record {
  World = List Message;
  write_json = λ m w. (m ∷ w, true);
  unix_nano = λ w. 1700000000000000000;
  unix = λ w. 1700000000;
}

abbrev fresh : WebsocketClient in_memory
fresh = record {
  conn = [];
  stopped = false;
  stream_started = false;
  ping_chan = none;
  streams = [];
}

abbrev start_message : Received
start_message = message (some (("control", string "start") ∷ []))

run-StartsOnce_example :
    StartsOnce in_memory (run in_memory (start_message ∷ start_message ∷ []) fresh).0
    × EndsStopped in_memory (run in_memory (start_message ∷ start_message ∷ []) fresh)
run-StartsOnce_example =
    run-StartsOnce in_memory (start_message ∷ start_message ∷ []) fresh
      (record { at_most_one = omega arith; none_before = λ h. refl })

abbrev ping_at : Value → Dict Value
ping_at t = ("control", string "ping") ∷ ("srcTs", t) ∷ []

-- A ping whose srcTs is a text makes the handling of the message panic.
bad_ping : (handle in_memory 7 (message (some (ping_at (string "now")))) fresh).1 ≡ panics
unfolding handle control lookup etre.Base.Dict.has_key
bad_ping = refl

control-ping_example :
    (reply : Dict Value) × (control in_memory 7 (ping_at (float64 false 0)) fresh
      ≡ send in_memory (pong reply) fresh)
    × (lookup "srcTs" reply ≡ lookup "srcTs" (ping_at (float64 false 0)))
    × (lookup "dstTs" reply ≡ some (int64 7))
    × (lookup "control" reply ≡ some (string "pong"))
unfolding lookup
control-ping_example =
    control-ping in_memory 7 (ping_at (float64 false 0)) fresh refl (inr (false, 0, refl))

measured-bounds_example :
    (lag : Latency) × (measured in_memory 9000000 (returns 1000000) (returns 4500000) fresh
      ≡ (record fresh { ping_chan = some lag }, returns none))
    × (lag.send ≡ (4500000 - 1000000) / 1000000)
    × (lag.recv ≡ (9000000 - 4500000) / 1000000)
    × (lag.send + lag.recv ≤ lag.rtt)
    × (lag.rtt ≤ lag.send + lag.recv + 1)
measured-bounds_example =
    measured-bounds in_memory 9000000 1000000 4500000 fresh (omega arith) (omega arith)
      (omega arith) refl
