-- ===== src/ChangeStream/Server/Tests.antt =====
-- A run of the server with a slow client, and instances of the theorem.
use etre.Base.{ℕ, ◌≡◌, refl, none}
use etre.Base.Dict.{lookup, insert}
use etre.Etre.{CdcEvent}
use etre.ChangeStream.Server.{
  ServerConfig, Server, new_server, watch, fan_out, send_all, watches, sends, Reachable, starts,
  goes,
}
use etre.ChangeStream.Server.NoGap.{IsSound, Reachable-IsSound}

abbrev event : ℕ → CdcEvent
event rev = record {
  id = "e";
  ts = 1700000000000;
  op = "u";
  caller = "alice";
  entity_id = "a0";
  entity_type = "node";
  entity_rev = rev;
  old = none;
  new = none;
  set_id = "";
  set_op = "";
  set_size = 0;
}

abbrev one_slot : ServerConfig
one_slot = record { max_clients = 2; buffer_size = 1 }

abbrev watched : Server
watched = (watch "c1" (new_server one_slot)).0

abbrev after_one : Server
after_one = fan_out (event 0) watched

-- The client has not received the first event when the second comes, so it is closed.
slow_client_is_closed : lookup "c1" (fan_out (event 1) after_one).clients ≡ none
unfolding fan_out send_all lookup watch new_server insert
slow_client_is_closed = refl

after_one-Reachable : Reachable one_slot after_one
after_one-Reachable =
    goes watched after_one (goes (new_server one_slot) watched starts (watches "c1" _))
      (sends (event 0) watched)

Reachable-IsSound_example : IsSound one_slot after_one
Reachable-IsSound_example = Reachable-IsSound one_slot after_one after_one-Reachable
