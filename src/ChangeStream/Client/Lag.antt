-- ===== src/ChangeStream/Client/Lag.antt =====
-- The latencies that a pong gives.
use etre.Base.{ℕ, ◌+◌, ◌-◌, ◌/◌, ◌^◌, ◌≤◌, ◌<◌, ◌≡◌, refl, none, some, arith}
use etre.Etre.{returns}
use etre.ChangeStream.Client.{
  Latency, Conn, WebsocketClient, latency_of, measured, offer, sub64, millis,
}

millis-sub64 : (a b : ℕ) → b ≤ a → a < 2 ^ 63 → millis (sub64 a b) ≡ (a - b) / 1000000
unfolding millis sub64
millis-sub64 a b h k = ground arith

div_bounds :
    (x y : ℕ)
    → (x / 1000000 + y / 1000000 ≤ (x + y) / 1000000)
      × ((x + y) / 1000000 ≤ x / 1000000 + y / 1000000 + 1)
div_bounds x y = (omega arith, omega arith)

-- Where the clocks agree, so that a ping is sent, received and answered in this order, and the times
-- do not reach 2^63: an empty channel gets the three latencies in whole milliseconds without overflow,
-- and the round trip is the two ways together, or one more for what both rounded off.
pub measured-bounds :
    (C : Conn) (now t0 t1 : ℕ) (c : WebsocketClient C)
    → t0 ≤ t1
    → t1 ≤ now
    → now < 2 ^ 63
    → c.ping_chan ≡ none
    → (lag : Latency) × (measured C now (returns t0) (returns t1) c
        ≡ (record c { ping_chan = some lag }, returns none))
      × (lag.send ≡ (t1 - t0) / 1000000)
      × (lag.recv ≡ (now - t1) / 1000000)
      × (lag.send + lag.recv ≤ lag.rtt)
      × (lag.rtt ≤ lag.send + lag.recv + 1)
unfolding measured offer
measured-bounds C now t0 t1 c h k b e =
    let sends = millis-sub64 t1 t0 h (omega arith) in
    let recvs = millis-sub64 now t1 k b in
    let rtts = millis-sub64 now t0 (omega arith) b in
    let (low, high) = div_bounds (t1 - t0) (now - t1) in
    (
      latency_of C now t0 t1,
      rw e refl,
      sends,
      recvs,
      omega (arith, sends, recvs, rtts, low, high),
      omega (arith, sends, recvs, rtts, low, high),
    )
