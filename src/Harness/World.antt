-- ===== src/Harness/World.antt =====
-- The surroundings of server and client in dataDump/DDTest.cpp. The two run by turns, a call of
-- `FSMLoop` at a time, so a mutex is always free.
use data_dump_protocol.Base.{
  ℕ, zero, suc, List, [], ◌∷◌, none, some, Bool, true, false, ltb, if◌then◌else◌, take, Outcome, ok,
  fault, pending,
}
use data_dump_protocol.BTimer
use data_dump_protocol.BTimer.{BTimer, TimerMode, make_btimer}
use data_dump_protocol.DataDump.State.{DataDump, Host}
use data_dump_protocol.Server.Loop.{server_loop}
use data_dump_protocol.Client.Loop.{client_loop}
use data_dump_protocol.Harness.Channel.{Channel, channel_send, channel_receive}

-- `TRANSFER_SIZE`
abbrev pub transfer_size : ℕ
transfer_size = 256

pub record World : Type 0 where
  pub server_in_channel : Channel
  pub server_out_channel : Channel
  pub server_storage : List ℕ
  pub server_timer : BTimer
  pub client_timer : BTimer
  pub clock : ℕ
  pub server_notes : List Bool
  pub client_notes : List Bool
  pub start_next_transfer : Bool

abbrev pub fresh_timer : BTimer
fresh_timer = record {
  mode = TimerMode.one_shot;
  handle = none;
  duration = 1;
  has_callback = false;
  timer_expiry = false;
  waits = [];
}

abbrev pub make_world : List ℕ → World
make_world storage = record {
  server_in_channel = [];
  server_out_channel = [];
  server_storage = storage;
  server_timer = fresh_timer;
  client_timer = fresh_timer;
  clock = 0;
  server_notes = [];
  client_notes = [];
  start_next_transfer = true;
}

unfoldable pub server_send : List ℕ → World → Bool × World
unfolding channel_send
server_send bytes w =
    let r = channel_send bytes w.server_out_channel in (r.0, record w { server_out_channel = r.1 })

unfoldable pub server_receive : ℕ → World → List ℕ × World
unfolding channel_receive
server_receive max_length w =
    let r = channel_receive max_length w.server_in_channel in
    (r.0, record w { server_in_channel = r.1 })

unfoldable pub client_send : List ℕ → World → Bool × World
unfolding channel_send
client_send bytes w =
    let r = channel_send bytes w.server_in_channel in (r.0, record w { server_in_channel = r.1 })

unfoldable pub client_receive : ℕ → World → List ℕ × World
unfolding channel_receive
client_receive max_length w =
    let r = channel_receive max_length w.server_out_channel in
    (r.0, record w { server_out_channel = r.1 })

-- The storage is copied on every call, also when it is told to erase.
unfoldable pub server_storage_read : ℕ → Bool → World → List ℕ × World
server_storage_read max_size erase w =
    (take (if ltb transfer_size max_size then transfer_size else max_size) w.server_storage, w)

abbrev pub server_notify : Bool → World → World
server_notify status w = record w { server_notes = status ∷ w.server_notes }

-- Only a success lets the main thread start the next transfer.
abbrev pub client_notify : Bool → World → World
client_notify true w = record w { client_notes = true ∷ w.client_notes; start_next_transfer = true }
client_notify false w = record w { client_notes = false ∷ w.client_notes }

-- `test_server` and `test_client` with their callbacks; the client has no storage callback.
unfoldable pub server_host : Host World
unfolding server_send server_receive server_storage_read BTimer.start BTimer.stop BTimer.is_expired
server_host = record {
  send_cb = some server_send;
  recv_cb = some server_receive;
  consumer_cb = some server_storage_read;
  notify_cb = some server_notify;
  timer_start = λ interval w.
      let r = BTimer.start w.server_timer interval w.clock true true in
      (r.0, record w { server_timer = r.1 });
  timer_stop =
      λ w. let r = BTimer.stop w.server_timer true in (r.0, record w { server_timer = r.1 });
  timer_is_expired =
      λ w. let r = BTimer.is_expired w.server_timer true in (r.0, record w { server_timer = r.1 });
  try_lock = λ mutex w. (true, w);
}

unfoldable pub client_host : Host World
unfolding client_send client_receive BTimer.start BTimer.stop BTimer.is_expired
client_host = record {
  send_cb = some client_send;
  recv_cb = some client_receive;
  consumer_cb = none;
  notify_cb = some client_notify;
  timer_start = λ interval w.
      let r = BTimer.start w.client_timer interval w.clock true true in
      (r.0, record w { client_timer = r.1 });
  timer_stop =
      λ w. let r = BTimer.stop w.client_timer true in (r.0, record w { client_timer = r.1 });
  timer_is_expired =
      λ w. let r = BTimer.is_expired w.client_timer true in (r.0, record w { client_timer = r.1 });
  try_lock = λ mutex w. (true, w);
}

-- What the server's thread finds outside its object: the client's object and what lies between them.
-- `failed` is set once a call of the client's `FSMLoop` has faulted, or not come back.
pub record Peer : Type 0 where
  pub client : DataDump
  pub world : World
  pub failed : Bool

abbrev pub after_turn : Peer → Outcome (Unit {0} × DataDump × World) → Peer
after_turn p (ok r) = record p { client = r.1; world = r.2 }
after_turn p fault = record p { failed = true }
after_turn p pending = record p { failed = true }

-- The client's thread takes a turn: one call of its `FSMLoop`, whose loops poll once each.
unfoldable pub client_turn : Peer → Peer
client_turn p = after_turn p (client_loop client_host 1 p.client p.world)

abbrev in_world : {A : Type 0} → (World → A × World) → Peer → A × Peer
in_world f p = let r = f p.world in (r.0, record p { world = r.1 })

-- The server beside the client's thread, which takes a turn whenever the server looks for a message.
unfoldable pub paired_host : Host Peer
unfolding server_host client_turn
paired_host = record {
  send_cb = some (λ bytes. in_world (server_send bytes));
  recv_cb = some (λ max_length p. in_world (server_receive max_length) (client_turn p));
  consumer_cb = some (λ max_size erase. in_world (server_storage_read max_size erase));
  notify_cb = some (λ status p. record p { world = server_notify status p.world });
  timer_start = λ interval. in_world (server_host.timer_start interval);
  timer_stop = in_world server_host.timer_stop;
  timer_is_expired = in_world server_host.timer_is_expired;
  try_lock = λ mutex p. (true, p);
}

-- Calls of the server's `FSMLoop`, one after the other.
unfoldable pub server_loops : ℕ → ℕ → DataDump → Peer → Outcome (DataDump × Peer)
server_loops rounds zero d p = ok (d, p)
server_loops rounds (suc n) d p = elim (server_loop paired_host rounds d p) [
  | ok r ↦ server_loops rounds n r.1 r.2
  | fault ↦ fault
  | pending ↦ pending
]
