-- ===== src/Hub/State.antt =====
-- backend/internal/infrastructure/websocket/hub.go and client.go: the connected clients, their
-- rooms, and the channels that their write pumps read.
use nim_near.Prelude.{
  ℕ, Bool, true, false, not, ◌||◌, Option, none, some, List, [], ◌∷◌, ltb, ◌==◌, if◌then◌else◌,
  Text, text_eq, find, any, update_where, length, reverse,
}
use nim_near.Realtime.{contains_id}

-- What a Go statement does that may panic: a send on a closed channel, or a second close.
pub data Run {ℓ} (A : Type ℓ) : Type ℓ where
  panics : Run A
  returns : A → Run A

infixl 5 ◌>>=◌
abbrev pub ◌>>=◌ {ℓ κ} : {A : Type ℓ} {B : Type κ} → Run A → (A → Run B) → Run B
panics >>= next = panics
returns a >>= next = next a

-- chan []byte, made with room for 64 messages.
pub record Pipe (M : Type 0) : Type 0 where
  pub queue : List M
  pub is_closed : Bool

-- service.ClientInfo. A nil UUID is 0, and the client id is the number of a UUID too.
pub record ClientInfo : Type 0 where
  pub id : ℕ
  pub user_id : ℕ
  pub organization_id : ℕ
  pub app_id : ℕ

-- The struct client: its id is the one of `info`, and its channel is found by that id.
pub record Client : Type 0 where
  pub info : ClientInfo
  pub rooms : List Text
  pub is_closed : Bool

-- An entry of Hub.rooms: the ids of its members.
pub record Room : Type 0 where
  pub name : Text
  pub members : List ℕ

pub record Hub (M : Type 0) : Type 0 where
  pub max_connections : ℕ
  pub clients : List Client
  pub rooms : List Room
  pub is_closed : Bool
  pub pipes : ℕ → Pipe M

abbrev pub client_id : Client → ℕ
client_id c = c.info.id

abbrev pub by_id : ℕ → Client → Bool
by_id id c = client_id c == id

unfoldable pub contains_text : Text → List Text → Bool
contains_text k [] = false
contains_text k (t ∷ ts) = text_eq t k || contains_text k ts

-- m[k] = v and delete(m, k) on the maps that stand for sets.
abbrev pub add_text : Text → List Text → List Text
add_text k ts = if contains_text k ts then ts else k ∷ ts

unfoldable pub drop_text : Text → List Text → List Text
drop_text k [] = []
drop_text k (t ∷ ts) = let rest = drop_text k ts in if text_eq t k then rest else t ∷ rest

abbrev pub add_id : ℕ → List ℕ → List ℕ
add_id i is = if contains_id i is then is else i ∷ is

unfoldable pub drop_id : ℕ → List ℕ → List ℕ
drop_id i [] = []
drop_id i (j ∷ js) = let rest = drop_id i js in if j == i then rest else j ∷ rest

-- client.subscribe and client.unsubscribe
abbrev pub subscribe_client : Text → Client → Client
subscribe_client k c = record c { rooms = add_text k c.rooms }

unfoldable pub unsubscribe_client : Text → Client → Client
unfolding drop_text
unsubscribe_client k c = record c { rooms = drop_text k c.rooms }

-- h.rooms[room][c.id] = c, with the map made on the first member.
unfoldable pub join_room : Text → ℕ → List Room → List Room
join_room k i [] = record { name = k; members = i ∷ [] } ∷ []
join_room k i (r ∷ rs) =
    if text_eq r.name k
    then record r { members = add_id i r.members } ∷ rs
    else r ∷ join_room k i rs

-- delete(members, c.id), and delete(h.rooms, room) after the last member.
abbrev pub keep_room : Room → List ℕ → List Room → List Room
keep_room r [] rest = rest
keep_room r (i ∷ is) rest = record r { members = i ∷ is } ∷ rest

unfoldable pub leave_room : Text → ℕ → List Room → List Room
unfolding drop_id
leave_room k i [] = []
leave_room k i (r ∷ rs) =
    let rest = leave_room k i rs in
    if text_eq r.name k then keep_room r (drop_id i r.members) rest else r ∷ rest

-- `for room := range c.rooms`
unfoldable pub leave_rooms : List Text → ℕ → List Room → List Room
unfolding leave_room
leave_rooms [] i rs = rs
leave_rooms (k ∷ ks) i rs = leave_rooms ks i (leave_room k i rs)

unfoldable pub without_client : ℕ → List Client → List Client
without_client i [] = []
without_client i (c ∷ cs) = let rest = without_client i cs in if by_id i c then rest else c ∷ rest

unfoldable pub members_of : Text → List Room → List ℕ
members_of k [] = []
members_of k (r ∷ rs) = if text_eq r.name k then r.members else members_of k rs

module _ {M : Type 0} where
  -- make(chan []byte, 64)
  abbrev pub new_pipe : Pipe M
  new_pipe = record { queue = []; is_closed = false }

  abbrev pub set_pipe : ℕ → Pipe M → (ℕ → Pipe M) → ℕ → Pipe M
  set_pipe i p pipes j = if j == i then p else pipes j

  -- select { case c.send <- payload: default: }, on a channel that is open.
  abbrev pub pushed : M → Pipe M → Pipe M
  pushed m p =
      if ltb (length p.queue) 64 then record p { queue = reverse (m ∷ reverse p.queue) } else p

  abbrev pub push : ℕ → M → (ℕ → Pipe M) → Run (ℕ → Pipe M)
  push i m pipes =
      if (pipes i).is_closed then panics else returns (set_pipe i (pushed m (pipes i)) pipes)

  abbrev pub close_pipe : ℕ → (ℕ → Pipe M) → Run (ℕ → Pipe M)
  close_pipe i pipes =
      if (pipes i).is_closed
      then panics
      else returns (set_pipe i (record (pipes i) { is_closed = true }) pipes)

  -- client.closeSend
  abbrev pub close_send : Client → (ℕ → Pipe M) → Run (ℕ → Pipe M)
  close_send c pipes = if c.is_closed then returns pipes else close_pipe (client_id c) pipes

  -- NewHub; a maximum that is not positive is 0.
  abbrev pub new_hub : ℕ → (ℕ → Pipe M) → Hub M
  new_hub max pipes = record {
    max_connections = if max == 0 then 1000 else max;
    clients = [];
    rooms = [];
    is_closed = false;
    pipes = pipes;
  }

  -- addToRoomLocked and removeFromRoomLocked
  unfoldable pub add_to_room : Text → ℕ → Hub M → Hub M
  unfolding update_where join_room
  add_to_room k i h = record h {
    rooms = join_room k i h.rooms;
    clients = update_where (by_id i) (subscribe_client k) h.clients;
  }

  unfoldable pub remove_from_room : Text → ℕ → Hub M → Hub M
  unfolding update_where leave_room unsubscribe_client
  remove_from_room k i h = record h {
    rooms = leave_room k i h.rooms;
    clients = update_where (by_id i) (unsubscribe_client k) h.clients;
  }

  abbrev pub add_to_found : Option Text → ℕ → Hub M → Hub M
  add_to_found none i h = h
  add_to_found (some k) i h = add_to_room k i h

  -- broadcastLocked: the members are sent to one after the other.
  unfoldable pub send_each : List ℕ → M → (ℕ → Pipe M) → Run (ℕ → Pipe M)
  send_each [] m pipes = returns pipes
  send_each (i ∷ is) m pipes = push i m pipes >>= send_each is m

  abbrev pub with_pipes : Hub M → (ℕ → Pipe M) → Run (Hub M)
  with_pipes h pipes = returns (record h { pipes = pipes })

  unfoldable pub broadcast : Text → M → Hub M → Run (Hub M)
  unfolding send_each members_of
  broadcast k m h =
      if h.is_closed then returns h else send_each (members_of k h.rooms) m h.pipes >>= with_pipes h

  -- broadcastLocked of each room in turn.
  unfoldable pub broadcast_each : List Room → M → Hub M → Run (Hub M)
  unfolding broadcast
  broadcast_each [] m h = returns h
  broadcast_each (r ∷ rs) m h = broadcast r.name m h >>= broadcast_each rs m

  -- SendToClient
  unfoldable pub send_to_client : ℕ → M → Hub M → Run (Hub M)
  unfolding any
  send_to_client i m h =
      if not (any (by_id i) h.clients) || h.is_closed
      then returns h
      else push i m h.pipes >>= with_pipes h

  -- removeClient, of the client struct that the caller holds.
  unfoldable pub remove_client : Client → Hub M → Run (Hub M)
  unfolding any leave_rooms without_client
  remove_client c h =
      if any (by_id (client_id c)) h.clients
      then close_send c h.pipes
        >>= with_pipes (record h {
          clients = without_client (client_id c) h.clients;
          rooms = leave_rooms c.rooms (client_id c) h.rooms;
        })
      else returns h

  -- The function that Register returns: removeClient of the struct that the hub itself keeps.
  unfoldable pub unregister : ℕ → Hub M → Run (Hub M)
  unfolding find remove_client
  unregister i h = elim (find (by_id i) h.clients) [ none ↦ returns h | some c ↦ remove_client c h ]

  unfoldable pub close_each : List Client → (ℕ → Pipe M) → Run (ℕ → Pipe M)
  close_each [] pipes = returns pipes
  close_each (c ∷ cs) pipes = close_send c pipes >>= close_each cs

  -- Close
  unfoldable pub close_hub : Hub M → Run (Hub M)
  unfolding close_each
  close_hub h =
      close_each h.clients h.pipes
      >>= with_pipes (record h { clients = []; rooms = []; is_closed = true })
