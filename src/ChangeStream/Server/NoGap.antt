-- ===== src/ChangeStream/Server/NoGap.antt =====
-- The server keeps its bounds, and an open client misses nothing.
use mathlib.Core.List.{append-nil, append_assoc}
use etre.Base.{
  ℕ, ◌+◌, ◌≤◌, String, ◌≡◌, refl, sym, ap, ◌∙◌, Option, none, some, List, [], ◌∷◌, ◌++◌, map, subst,
  length, length-append, All, arith, ltb, Bool-cases, inl, inr, str_eq,
}
use etre.Base.Dict.{Dict, lookup, insert, delete}
use etre.Etre.{CdcEvent}
use etre.ChangeStream.Server.{
  Client, ServerConfig, Server, new_server, new_client, watch, close, send_all, fan_out, receive,
  receive_at, Step, watches, closes, sends, ends, close_all, watch_new, receives, Reachable, starts,
  goes,
}

-- What the client has received and what its channel holds is all that was sent since it came, and
-- the channel is within its size.
abbrev pub InStep : ℕ → List CdcEvent → Client → Type 0
InStep size sent c = ((c.before ++ c.received) ++ c.channel ≡ sent) × (length c.channel ≤ size)

abbrev pub AllInStep : ℕ → List CdcEvent → Dict Client → Type 0
AllInStep size sent = All (λ p. InStep size sent p.1)

AllInStep-insert :
    (size : ℕ) (sent : List CdcEvent) (k : String) (c : Client) (m : Dict Client)
    → InStep size sent c
    → AllInStep size sent m
    → AllInStep size sent (insert k c m)
unfolding insert
AllInStep-insert size sent k c [] h hs = (h, tt)
AllInStep-insert size sent k c ((j, d) ∷ m) h hs = elim (Bool-cases (str_eq j k)) [
  | inl e ↦ rw e (h, hs.1)
  | inr e ↦ rw e (hs.0, AllInStep-insert size sent k c m h hs.1)
]

AllInStep-delete :
    (size : ℕ) (sent : List CdcEvent) (k : String) (m : Dict Client)
    → AllInStep size sent m
    → AllInStep size sent (delete k m)
unfolding delete
AllInStep-delete size sent k [] hs = tt
AllInStep-delete size sent k ((j, d) ∷ m) hs = elim (Bool-cases (str_eq j k)) [
  | inl e ↦ rw e (AllInStep-delete size sent k m hs.1)
  | inr e ↦ rw e (hs.0, AllInStep-delete size sent k m hs.1)
]

AllInStep-send_all :
    (size : ℕ) (sent : List CdcEvent) (e : CdcEvent) (m : Dict Client)
    → AllInStep size sent m
    → AllInStep size (sent ++ e ∷ []) (send_all size e m)
unfolding send_all
AllInStep-send_all size sent e [] hs = tt
AllInStep-send_all size sent e ((j, c) ∷ m) hs = elim (Bool-cases (ltb (length c.channel) size)) [
  | inl room ↦ rw room (
    (
      sym (append_assoc (c.before ++ c.received) c.channel (e ∷ [])) ∙ ap (λ x. x ++ e ∷ []) hs.0.0,
      ground (arith, room, length-append c.channel (e ∷ [])),
    ),
    AllInStep-send_all size sent e m hs.1,
  )
  | inr full ↦ rw full (AllInStep-send_all size sent e m hs.1)
]

InStep-receive :
    (size : ℕ) (sent : List CdcEvent) (c : Client)
    → InStep size sent c
    → InStep size sent (receive c)
unfolding receive
InStep-receive size sent c h = at c.channel h
  where
    at :
        (ch : List CdcEvent)
        → ((c.before ++ c.received) ++ ch ≡ sent) × (length ch ≤ size)
        → InStep size sent (elim ch [
          | [] ↦ c
          | e ∷ es ↦ record c { received = c.received ++ e ∷ []; channel = es }
        ])
    at [] k = h
    at (e ∷ es) k = (
      ap (λ x. x ++ es) (sym (append_assoc c.before c.received (e ∷ [])))
          ∙ append_assoc (c.before ++ c.received) (e ∷ []) es
          ∙ k.0,
      omega (arith, k.1),
    )

AllInStep-receive_at :
    (size : ℕ) (sent : List CdcEvent) (k : String) (m : Dict Client)
    → AllInStep size sent m
    → AllInStep size sent (receive_at k m)
unfolding receive_at
AllInStep-receive_at size sent k [] hs = tt
AllInStep-receive_at size sent k ((j, c) ∷ m) hs = elim (Bool-cases (str_eq j k)) [
  | inl e ↦ rw e (InStep-receive size sent c hs.0, hs.1)
  | inr e ↦ rw e (hs.0, AllInStep-receive_at size sent k m hs.1)
]

length-insert : (k : String) (c : Client) (m : Dict Client) → length (insert k c m) ≤ length m + 1
unfolding insert
length-insert k c [] = omega arith
length-insert k c ((j, d) ∷ m) = ground (arith, length-insert k c m)

length-delete : (k : String) (m : Dict Client) → length (delete k m) ≤ length m
unfolding delete
length-delete k [] = omega arith
length-delete k ((j, d) ∷ m) = ground (arith, length-delete k m)

length-send_all :
    (size : ℕ) (e : CdcEvent) (m : Dict Client) → length (send_all size e m) ≤ length m
unfolding send_all
length-send_all size e [] = omega arith
length-send_all size e ((j, c) ∷ m) = ground (arith, length-send_all size e m)

length-receive_at : (k : String) (m : Dict Client) → length (receive_at k m) ≡ length m
unfolding receive_at
length-receive_at k [] = refl
length-receive_at k ((j, c) ∷ m) = ground (arith, length-receive_at k m)

pub record IsSound (cfg : ServerConfig) (s : Server) : Type 0 where
  pub config : s.cfg ≡ cfg
  pub few : length s.clients ≤ cfg.max_clients
  pub in_step : AllInStep cfg.buffer_size s.sent s.clients

new_client-InStep : (size : ℕ) (s : Server) → InStep size s.sent (new_client s)
new_client-InStep size s = (append-nil (s.sent ++ []) ∙ append-nil s.sent, omega arith)

watch_new-IsSound :
    (cfg : ServerConfig) (s : Server) (k : String) (o : Option Client)
    → IsSound cfg s
    → length s.clients + 1 ≤ cfg.max_clients
    → IsSound cfg (watch_new k s o).0
unfolding watch_new
watch_new-IsSound cfg s k (some c) h room = h
watch_new-IsSound cfg s k none h room = record {
  config = h.config;
  few = omega (arith, room, length-insert k (new_client s) s.clients);
  in_step =
      AllInStep-insert cfg.buffer_size s.sent k (new_client s) s.clients
        (new_client-InStep cfg.buffer_size s) h.in_step;
}

watch-IsSound :
    (cfg : ServerConfig) (s : Server) (k : String) → IsSound cfg s → IsSound cfg (watch k s).0
unfolding watch
watch-IsSound cfg s k h = elim (Bool-cases (ltb s.cfg.max_clients (length s.clients + 1))) [
  | inl full ↦ rw full h
  | inr room ↦ rw room (
      watch_new-IsSound cfg s k (lookup k s.clients) h
        (ground (arith, room, ap (λ c. c.max_clients) h.config)))
]

close-IsSound :
    (cfg : ServerConfig) (s : Server) (k : String) → IsSound cfg s → IsSound cfg (close k s)
unfolding close
close-IsSound cfg s k h = record {
  config = h.config;
  few = omega (arith, h.few, length-delete k s.clients);
  in_step = AllInStep-delete cfg.buffer_size s.sent k s.clients h.in_step;
}

close_all-IsSound :
    (cfg : ServerConfig) (ks : List String) (s : Server)
    → IsSound cfg s
    → IsSound cfg (close_all ks s)
unfolding close_all
close_all-IsSound cfg [] s h = h
close_all-IsSound cfg (k ∷ ks) s h = close_all-IsSound cfg ks (close k s) (close-IsSound cfg s k h)

fan_out-IsSound :
    (cfg : ServerConfig) (s : Server) (e : CdcEvent) → IsSound cfg s → IsSound cfg (fan_out e s)
unfolding fan_out
fan_out-IsSound cfg s e h = record {
  config = h.config;
  few = omega (arith, h.few, length-send_all s.cfg.buffer_size e s.clients);
  in_step =
      subst (λ n. AllInStep cfg.buffer_size (s.sent ++ e ∷ []) (send_all n e s.clients))
        (sym (ap (λ c. c.buffer_size) h.config))
        (AllInStep-send_all cfg.buffer_size s.sent e s.clients h.in_step);
}

Step-IsSound : (cfg : ServerConfig) (s t : Server) → Step s t → IsSound cfg s → IsSound cfg t
Step-IsSound cfg s t (watches k _) h = watch-IsSound cfg s k h
Step-IsSound cfg s t (closes k _) h = close-IsSound cfg s k h
Step-IsSound cfg s t (sends e _) h = fan_out-IsSound cfg s e h
Step-IsSound cfg s t (ends _) h = close_all-IsSound cfg (map (λ p. p.0) s.clients) s h
Step-IsSound cfg s t (receives k _) h = record {
  config = h.config;
  few = omega (arith, h.few, length-receive_at k s.clients);
  in_step = AllInStep-receive_at cfg.buffer_size s.sent k s.clients h.in_step;
}

-- In every state that the server reaches, by any order of watches, closes, sends and receives: it
-- has at most the configured number of clients; no channel holds more than its size; and each open
-- client has received, or has in its channel, exactly the events that were sent since it came, in
-- their order.
pub Reachable-IsSound : (cfg : ServerConfig) (s : Server) → Reachable cfg s → IsSound cfg s
unfolding new_server
Reachable-IsSound cfg s starts = record { config = refl; few = omega arith; in_step = tt }
Reachable-IsSound cfg t (goes s _ r step) = Step-IsSound cfg s t step (Reachable-IsSound cfg s r)
