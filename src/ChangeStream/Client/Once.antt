-- ===== src/ChangeStream/Client/Once.antt =====
-- A client streams at most once, and is stopped where Run ends; what it answers to a ping.
use etre.Base.{
  ℕ, ◌≤◌, String, ◌≡◌, refl, ◌∙◌, Bool, true, false, ◌⊎◌, inl, inr, Option, none, some, List, [],
  ◌∷◌, ◌++◌, length, arith, str_eq, if◌then◌else◌,
}
use etre.Base.Dict.{Dict, lookup, insert, has_key, lookup-insert}
use etre.Etre.{Value, string, float64, int64, Outcome, returns, panics}
use etre.ChangeStream.Client.{
  Latency, unknown_control, already_started, bad_json, bad_data, Message, pong, ack, error,
  Received, message, lost, closed, Conn, as_time, name_of, WebsocketClient, Result, after_write,
  send, reply_to, pong_back, answer, on_ping, offer, measured, timestamps, on_pong, start_at,
  start_time, on_start, control, stop, send_error, after_control, handle, run_on, run,
}

module _ (C : Conn) where
  -- At most one stream was started, and none before the client asked for it.
  pub record StartsOnce (c : WebsocketClient C) : Type 0 where
    pub at_most_one : length c.streams ≤ 1
    pub none_before : c.stream_started ≡ false → c.streams ≡ []

  after_write-StartsOnce :
      (c : WebsocketClient C) (r : Conn.World C × Bool)
      → StartsOnce c
      → StartsOnce (after_write C c r).0
  after_write-StartsOnce c (w, true) h = record {
    at_most_one = h.at_most_one;
    none_before = h.none_before;
  }
  after_write-StartsOnce c (w, false) h = record {
    at_most_one = h.at_most_one;
    none_before = h.none_before;
  }

  send-StartsOnce : (m : Message) (c : WebsocketClient C) → StartsOnce c → StartsOnce (send C m c).0
  unfolding send
  send-StartsOnce m c h = after_write-StartsOnce c (Conn.write_json C m c.conn) h

  pong_back-StartsOnce :
      (now : ℕ) (msg : Dict Value) (t : Outcome ℕ) (c : WebsocketClient C)
      → StartsOnce c
      → StartsOnce (pong_back C now msg t c).0
  unfolding pong_back
  pong_back-StartsOnce now msg (returns t) c h = send-StartsOnce (pong (reply_to C now msg)) c h
  pong_back-StartsOnce now msg panics c h = h

  answer-StartsOnce :
      (now : ℕ) (msg : Dict Value) (v : Option Value) (c : WebsocketClient C)
      → StartsOnce c
      → StartsOnce (answer C now msg v c).0
  unfolding answer
  answer-StartsOnce now msg none c h = send-StartsOnce (pong (reply_to C now msg)) c h
  answer-StartsOnce now msg (some v) c h = pong_back-StartsOnce now msg (as_time v) c h

  offer-StartsOnce :
      (l : Latency) (o : Option Latency) (c : WebsocketClient C)
      → StartsOnce c
      → StartsOnce (offer C l o c).0
  unfolding offer
  offer-StartsOnce l none c h = record { at_most_one = h.at_most_one; none_before = h.none_before }
  offer-StartsOnce l (some k) c h = h

  measured-StartsOnce :
      (now : ℕ) (t0 t1 : Outcome ℕ) (c : WebsocketClient C)
      → StartsOnce c
      → StartsOnce (measured C now t0 t1 c).0
  unfolding measured
  measured-StartsOnce now (returns t0) (returns t1) c h = offer-StartsOnce _ c.ping_chan c h
  measured-StartsOnce now (returns t0) panics c h = h
  measured-StartsOnce now panics t1 c h = h

  timestamps-StartsOnce :
      (now : ℕ) (v1 v2 : Option Value) (c : WebsocketClient C)
      → StartsOnce c
      → StartsOnce (timestamps C now v1 v2 c).0
  unfolding timestamps
  timestamps-StartsOnce now (some v1) (some v2) c h =
      measured-StartsOnce now (as_time v1) (as_time v2) c h
  timestamps-StartsOnce now (some v1) none c h = h
  timestamps-StartsOnce now none v2 c h = h

  start_at-StartsOnce :
      (t : Outcome ℕ) (c : WebsocketClient C)
      → c.streams ≡ []
      → c.stream_started ≡ true
      → StartsOnce (start_at C t c).0
  unfolding start_at
  start_at-StartsOnce (returns t) c h k =
      send-StartsOnce ack (record c { streams = c.streams ++ t ∷ [] })
        (record { at_most_one = rw h (omega arith); none_before = λ f. cc })
  start_at-StartsOnce panics c h k = record {
    at_most_one = rw h (omega arith);
    none_before = λ f. h;
  }

  on_start-StartsOnce :
      (msg : Dict Value) (c : WebsocketClient C) → StartsOnce c → StartsOnce (on_start C msg c).0
  unfolding on_start
  on_start-StartsOnce msg c h = at c.stream_started refl
    where
      started : WebsocketClient C
      started = record c { stream_started = true }

      at :
          (b : Bool)
          → c.stream_started ≡ b
          → StartsOnce (
              (if b
                then (c, returns (some already_started))
                else start_at C (start_time C (lookup "startTs" msg) started) started).0)
      at true e = h
      at false e =
          start_at-StartsOnce (start_time C (lookup "startTs" msg) started) started
            (h.none_before e) refl

  control-StartsOnce :
      (now : ℕ) (msg : Dict Value) (c : WebsocketClient C)
      → StartsOnce c
      → StartsOnce (control C now msg c).0
  unfolding control on_pong on_ping
  control-StartsOnce now msg c h =
      at (str_eq name "ping") (str_eq name "pong") (str_eq name "start")
    where
      name : String
      name = name_of (lookup "control" msg)

      at :
          (p q r : Bool)
          → StartsOnce (
              (if p
                then on_ping C now msg c
                else if q
                then on_pong C now msg c
                else if r
                then on_start C msg c
                else (c, returns (some unknown_control))).0)
      at true q r = answer-StartsOnce now msg (lookup "srcTs" msg) c h
      at false true r = timestamps-StartsOnce now (lookup "srcTs" msg) (lookup "dstTs" msg) c h
      at false false true = on_start-StartsOnce msg c h
      at false false false = h

  after_control-StartsOnce : (r : Result C) → StartsOnce r.0 → StartsOnce (after_control C r).0
  unfolding after_control send_error
  after_control-StartsOnce (c, returns none) h = h
  after_control-StartsOnce (c, returns (some e)) h = send-StartsOnce (error e) c h
  after_control-StartsOnce (c, panics) h = h

  handle-StartsOnce :
      (now : ℕ) (m : Received) (c : WebsocketClient C)
      → StartsOnce c
      → StartsOnce (handle C now m c).0
  unfolding handle send_error
  handle-StartsOnce now lost c h = h
  handle-StartsOnce now closed c h = h
  handle-StartsOnce now (message none) c h = send-StartsOnce (error bad_json) c h
  handle-StartsOnce now (message (some msg)) c h = at (has_key "control" msg)
    where
      at :
          (b : Bool)
          → StartsOnce
              ((if b then after_control C (control C now msg c) else send_error C bad_data c).0)
      at true = after_control-StartsOnce (control C now msg c) (control-StartsOnce now msg c h)
      at false = send-StartsOnce (error bad_data) c h

  -- Run waits for a message, or it has stopped the client.
  abbrev pub EndsStopped : Result C → Type 0
  EndsStopped r = (r.1 ≡ returns none) ⊎ (r.0.stopped ≡ true)

  stop-StartsOnce :
      (c : WebsocketClient C) → StartsOnce c → StartsOnce (stop C c) × ((stop C c).stopped ≡ true)
  unfolding stop
  stop-StartsOnce c h = at c.stopped refl
    where
      ended : WebsocketClient C
      ended = record c { stopped = true }

      at :
          (b : Bool)
          → c.stopped ≡ b
          → StartsOnce (if b then c else ended) × ((if b then c else ended).stopped ≡ true)
      at true e = (h, e)
      at false e = (record { at_most_one = h.at_most_one; none_before = h.none_before }, refl)

  run_on-StartsOnce :
      (go_on : WebsocketClient C → Result C) (r : Result C)
      → ((c : WebsocketClient C) → StartsOnce c → StartsOnce (go_on c).0 × EndsStopped (go_on c))
      → StartsOnce r.0
      → StartsOnce (run_on C go_on r).0 × EndsStopped (run_on C go_on r)
  unfolding run_on
  run_on-StartsOnce go_on (c, returns none) k h = k c h
  run_on-StartsOnce go_on (c, returns (some e)) k h =
      let (once, stopped) = stop-StartsOnce c h in (once, inr stopped)
  run_on-StartsOnce go_on (c, panics) k h =
      let (once, stopped) = stop-StartsOnce c h in (once, inr stopped)

  -- Whatever messages it receives, a client starts at most one stream, and Run either waits for the
  -- next message or has stopped the client, also where a message makes it panic.
  pub run-StartsOnce :
      (ms : List Received) (c : WebsocketClient C)
      → StartsOnce c
      → StartsOnce (run C ms c).0 × EndsStopped (run C ms c)
  unfolding run
  run-StartsOnce [] c h = (h, inl refl)
  run-StartsOnce (m ∷ ms) c h =
      run_on-StartsOnce (run C ms) (handle C (Conn.unix_nano C c.conn) m c) (run-StartsOnce ms)
        (handle-StartsOnce (Conn.unix_nano C c.conn) m c h)

  lookup-reply_to :
      (now : ℕ) (msg : Dict Value)
      → (lookup "srcTs" (reply_to C now msg) ≡ lookup "srcTs" msg)
        × (lookup "dstTs" (reply_to C now msg) ≡ some (int64 now))
        × (lookup "control" (reply_to C now msg) ≡ some (string "pong"))
  lookup-reply_to now msg =
      let named = insert "control" (string "pong") msg in
      (
        lookup-insert "dstTs" "srcTs" (int64 now) named
            ∙ lookup-insert "control" "srcTs" (string "pong") msg,
        lookup-insert "dstTs" "dstTs" (int64 now) named,
        lookup-insert "dstTs" "control" (int64 now) named
            ∙ lookup-insert "control" "control" (string "pong") msg,
      )

  -- A ping with a number as its time or without one is answered by a pong with the same srcTs and the
  -- time of its receipt as dstTs.
  pub control-ping :
      (now : ℕ) (msg : Dict Value) (c : WebsocketClient C)
      → lookup "control" msg ≡ some (string "ping")
      → (lookup "srcTs" msg ≡ none)
        ⊎ ((n : Bool) × (t : ℕ) × (lookup "srcTs" msg ≡ some (float64 n t)))
      → (reply : Dict Value) × (control C now msg c ≡ send C (pong reply) c)
        × (lookup "srcTs" reply ≡ lookup "srcTs" msg)
        × (lookup "dstTs" reply ≡ some (int64 now))
        × (lookup "control" reply ≡ some (string "pong"))
  unfolding control on_ping answer pong_back as_time name_of
  control-ping now msg c h (inl k) =
      let (src, dst, name) = lookup-reply_to now msg in
      (reply_to C now msg, rw (h, k) refl, src, dst, name)
  control-ping now msg c h (inr (n, t, k)) =
      let (src, dst, name) = lookup-reply_to now msg in
      (reply_to C now msg, rw (h, k) refl, src, dst, name)
