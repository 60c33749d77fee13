-- ===== src/ChangeStream/Server.antt =====
-- cdc/changestream/server.go: Watch, Close and the fan-out of Run to the buffered channels of the
-- clients. Each of these runs with the server's lock held, so a run of the server is a sequence of
-- them, with the receives of clients between them. A channel holds what is sent and not received;
-- a send to a channel that is full would block. `before` and `received` only record what the server
-- had sent before a client came, and what the client has received.
pub mod NoGap
mod Tests
use etre.Base.{
  ℕ, ◌+◌, String, str_eq, Option, none, some, List, [], ◌∷◌, ◌++◌, length, map, ltb, if◌then◌else◌,
  ◌⊎◌, inl, inr,
}
use etre.Base.Dict.{Dict, lookup, insert, delete}
use etre.Etre.{CdcEvent}

pub record Client : Type 0 where
  pub before : List CdcEvent
  pub received : List CdcEvent
  pub channel : List CdcEvent

pub record ServerConfig : Type 0 where
  pub max_clients : ℕ
  pub buffer_size : ℕ

-- `sent` records the events of the MongoDB change stream so far.
pub record Server : Type 0 where
  pub cfg : ServerConfig
  pub clients : Dict Client
  pub sent : List CdcEvent

pub data WatchError : Type 0 where
  no_more_clients duplicate_client : WatchError

unfoldable pub new_server : ServerConfig → Server
new_server cfg = record { cfg = cfg; clients = []; sent = [] }

abbrev pub new_client : Server → Client
new_client s = record { before = s.sent; received = []; channel = [] }

watch_new : String → Server → Option Client → Server × Option WatchError
watch_new client_id s (some c) = (s, some duplicate_client)
watch_new client_id s none =
    (record s { clients = insert client_id (new_client s) s.clients }, none)

unfoldable pub watch : String → Server → Server × Option WatchError
unfolding watch_new
watch client_id s =
    if ltb s.cfg.max_clients (length s.clients + 1)
    then (s, some no_more_clients)
    else watch_new client_id s (lookup client_id s.clients)

-- Closing a channel and deleting its client: nothing is sent to it any more.
unfoldable pub close : String → Server → Server
close client_id s = record s { clients = delete client_id s.clients }

-- The loop of Run over the clients: one whose channel is full is closed.
unfoldable pub send_all : ℕ → CdcEvent → Dict Client → Dict Client
send_all size e [] = []
send_all size e ((client_id, c) ∷ cs) =
    let rest = send_all size e cs in
    if ltb (length c.channel) size
    then (client_id, record c { channel = c.channel ++ e ∷ [] }) ∷ rest
    else rest

unfoldable pub fan_out : CdcEvent → Server → Server
unfolding send_all
fan_out e s = record s { clients = send_all s.cfg.buffer_size e s.clients; sent = s.sent ++ e ∷ [] }

-- When the change stream ends with an error, each client is closed.
unfoldable pub close_all : List String → Server → Server
close_all [] s = s
close_all (client_id ∷ ids) s = close_all ids (close client_id s)

-- A client's receive from its channel.
unfoldable pub receive : Client → Client
receive c = elim c.channel [
  | [] ↦ c
  | e ∷ es ↦ record c { received = c.received ++ e ∷ []; channel = es }
]

unfoldable pub receive_at : String → Dict Client → Dict Client
unfolding receive
receive_at client_id [] = []
receive_at client_id ((k, c) ∷ cs) =
    if str_eq k client_id then (k, receive c) ∷ cs else (k, c) ∷ receive_at client_id cs

-- What can happen while Run runs.
pub data Step : Server → Server → Type 0 where
  watches : (client_id : String) (s : Server) → Step s (watch client_id s).0
  closes : (client_id : String) (s : Server) → Step s (close client_id s)
  sends : (e : CdcEvent) (s : Server) → Step s (fan_out e s)
  ends : (s : Server) → Step s (close_all (map (λ p. p.0) s.clients) s)
  receives :
      (client_id : String) (s : Server)
      → Step s (record s { clients = receive_at client_id s.clients })

pub data Reachable (cfg : ServerConfig) : Server → Type 0 where
  starts : Reachable cfg (new_server cfg)
  goes : (s t : Server) → Reachable cfg s → Step s t → Reachable cfg t
