-- ===== src/Websocket.antt =====
-- The WebSocket hub (internal/websocket/hub.go): the registry of connections, and the events that
-- its one goroutine handles. A connection is known by a number; its send channel is the messages
-- in its buffer, and whether it is closed. A send on a closed
-- channel, and a second close, panic.

pub mod Safety
use vaultflix.Base.{
  ℕ, zero, suc, ◌+◌, Str, eq_str, Bool, true, false, ◌&&◌, ◌||◌, ltb, ◌==◌, if◌then◌else◌, Option,
  none, some, List, [], ◌∷◌, ◌++◌, length,
}

pub record Client : Type 0 where
  pub key : ℕ
  pub user_id : Str

-- The send channel of a connection.
pub record Channel : Type 0 where
  pub key : ℕ
  pub buffer : List Str
  pub closed : Bool

-- `clients` maps a user to the user's connections, in the order of their registration.
pub record Hub : Type 0 where
  pub clients : List (Str × List Client)
  pub channels : List Channel
  pub panicked : Bool

abbrev pub send_buffer_size : ℕ
send_buffer_size = 256

unfoldable pub clients_of : Str → List (Str × List Client) → List Client
clients_of u [] = []
clients_of u ((v, cs) ∷ m) = if eq_str v u then cs else clients_of u m

-- `h.clients[u] = cs`
unfoldable pub set_clients : Str → List Client → List (Str × List Client) → List (Str × List Client)
set_clients u cs [] = (u, cs) ∷ []
set_clients u cs ((v, ds) ∷ m) = if eq_str v u then (u, cs) ∷ m else (v, ds) ∷ set_clients u cs m

unfoldable pub delete_user : Str → List (Str × List Client) → List (Str × List Client)
delete_user u [] = []
delete_user u ((v, cs) ∷ m) = if eq_str v u then delete_user u m else (v, cs) ∷ delete_user u m

-- `append(clients[:i], clients[i+1:]...)` at the first `i` that is the client.
unfoldable pub without : ℕ → List Client → List Client
without key [] = []
without key (c ∷ cs) = if c.key == key then cs else c ∷ without key cs

unfoldable pub has_client : ℕ → List Client → Bool
has_client key [] = false
has_client key (c ∷ cs) = c.key == key || has_client key cs

unfoldable pub channel_of : ℕ → List Channel → Option Channel
channel_of key [] = none
channel_of key (ch ∷ chs) = if ch.key == key then some ch else channel_of key chs

unfoldable pub set_channel : Channel → List Channel → List Channel
set_channel ch [] = []
set_channel ch (x ∷ chs) = if x.key == ch.key then ch ∷ chs else x ∷ set_channel ch chs

-- `close(client.send)`
pub close : ℕ → Hub → Hub
unfolding channel_of set_channel
close key h = elim (channel_of key h.channels) [
  | none ↦ record h { panicked = true }
  | some ch ↦
      if ch.closed
      then record h { panicked = true }
      else record h { channels = set_channel (record ch { closed = true }) h.channels }
]

-- The slice without the client is stored, and an empty one deleted.
unfoldable pub put_rest : Str → List Client → List (Str × List Client) → List (Str × List Client)
unfolding delete_user set_clients
put_rest u [] m = delete_user u m
put_rest u (c ∷ cs) m = set_clients u (c ∷ cs) m

unfoldable pub remove_client : Client → Hub → Hub
unfolding clients_of put_rest without has_client close
remove_client c h =
    let cs = clients_of c.user_id h.clients in
    if has_client c.key cs
    then close c.key (record h { clients = put_rest c.user_id (without c.key cs) h.clients })
    else h

-- One `select` of `deliverToClients`: whether the message went into the buffer.
pub send : ℕ → Str → Hub → Hub × Bool
unfolding channel_of set_channel
send key msg h = elim (channel_of key h.channels) [
  | none ↦ (record h { panicked = true }, true)
  | some ch ↦
      if ch.closed
      then (record h { panicked = true }, true)
      else if ltb (length ch.buffer) send_buffer_size
      then (
        record h {
          channels = set_channel (record ch { buffer = ch.buffer ++ (msg ∷ []) }) h.channels;
        },
        true,
      )
      else (h, false)
]

-- The first loop: the hub, and the clients whose buffer was full.
unfoldable pub send_all : List Client → Str → Hub → List Client → Hub × List Client
unfolding send
send_all [] msg h dead = (h, dead)
send_all (c ∷ cs) msg h dead =
    let (h', sent) = send c.key msg h in
    send_all cs msg h' (if sent then dead else dead ++ (c ∷ []))

-- The second loop.
unfoldable pub remove_all : List Client → Hub → Hub
unfolding remove_client
remove_all [] h = h
remove_all (c ∷ cs) h = remove_all cs (remove_client c h)

unfoldable pub deliver_to_clients : List Client → Str → Hub → Hub
unfolding send_all remove_all
deliver_to_clients cs msg h = let (h', dead) = send_all cs msg h [] in remove_all dead h'

unfoldable pub deliver_to_user : Str → Str → Hub → Hub
unfolding deliver_to_clients clients_of
deliver_to_user u msg h = deliver_to_clients (clients_of u h.clients) msg h

-- The users that the loop of a broadcast visits.
unfoldable pub users : List (Str × List Client) → List Str
users [] = []
users ((u, cs) ∷ m) = u ∷ users m

-- `for userID, clients := range h.clients`: an entry is read when it is reached, and one that was
-- deleted before is not visited.
unfoldable pub broadcast_loop : List Str → Str → Hub → Hub
unfolding deliver_to_clients clients_of
broadcast_loop [] msg h = h
broadcast_loop (u ∷ us) msg h =
    broadcast_loop us msg (deliver_to_clients (clients_of u h.clients) msg h)

-- What the channels of the event loop bring; `connect` is `NewClient`, which makes the send
-- channel of a connection, before the connection registers.
pub data Event : Type 0 where
  connect : ℕ → Event
  register : Client → Event
  unregister : Client → Event
  targeted : Str → Str → Event
  broadcast : Str → Event

unfoldable pub handle : Event → Hub → Hub
unfolding clients_of set_clients remove_client deliver_to_user broadcast_loop users
handle (connect key) h = record h {
  channels = h.channels ++ (record { key = key; buffer = []; closed = false } ∷ []);
}
handle (register c) h = record h {
  clients = set_clients c.user_id (clients_of c.user_id h.clients ++ (c ∷ [])) h.clients;
}
handle (unregister c) h = remove_client c h
handle (targeted u msg) h = deliver_to_user u msg h
handle (broadcast msg) h = broadcast_loop (users h.clients) msg h
