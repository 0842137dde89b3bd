-- ===== src/Ipc.antt =====
-- The message channels of crates/kernel/src/ipc.rs. Every function runs under the thread lock, so
-- each is one step on the table. What it asks of the processes is answered as a list of effects,
-- in the order of the calls.
pub mod Bounds
pub mod History
mod Tests
use kazuos.Prelude.{
  ℕ, zero, suc, ◌+◌, ◌-◌, ◌^◌, ◌%◌, min, Bool, true, false, not, ◌&&◌, ◌||◌, Option, none, some,
  List, [], ◌∷◌, ◌++◌, map, ◌==◌, ltb, leb, if◌then◌else◌, length, get_elem?, set, take, drop, pad,
  add64, u64_max,
}
use kazuos.Fs.Path.{bytes_eq}

abbrev pub max_channels : ℕ
max_channels = 32

abbrev pub max_msg_size : ℕ
max_msg_size = 8192

abbrev pub max_queue : ℕ
max_queue = 8

abbrev pub name_capacity : ℕ
name_capacity = 32

-- A `Message` is its bytes.
pub record Channel : Type 0 where
  pub name : List ℕ
  pub name_len : ℕ
  pub queue : List (List ℕ)
  pub recv_waiters : List ℕ
  pub send_waiters : List ℕ
  pub ref_count : ℕ

abbrev pub Channels : Type 0
Channels = List (Option Channel)

-- `wakeup_ipc_waiter(pid, 0)`, and `set_wait_target(pid, Ipc(channel_id))` with `set_sleeping(pid)`.
pub data Effect : Type 0 where
  wakeup : ℕ → Effect
  sleep_on : ℕ → ℕ → Effect

pub data SendResult : Type 0 where
  ok block error : SendResult

pub data RecvResult : Type 0 where
  ok : ℕ → RecvResult
  block error : RecvResult

abbrev pub join : Option (Option Channel) → Option Channel
join none = none
join (some o) = o

-- Ids count from 1.
unfoldable pub slot : Channels → ℕ → Option Channel
slot channels zero = none
slot channels (suc idx) = join (get_elem? channels idx)

abbrev pub put : Channels → ℕ → Channel → Channels
put channels id c = set channels (id - 1) (some c)

abbrev pub has_name : List ℕ → Channel → Bool
has_name name c = (c.name_len == length name) && bytes_eq (take c.name_len c.name) name

-- The first channel of that name gets one more reference.
unfoldable pub reopen : List ℕ → Channels → Option (ℕ × Channels)
reopen name [] = none
reopen name (none ∷ channels) = elim (reopen name channels) [
  | none ↦ none
  | some r ↦ some (suc r.0, none ∷ r.1)
]
reopen name (some c ∷ channels) =
    let rest = reopen name channels in
    if has_name name c
    then some (1, some (record c { ref_count = add64 c.ref_count 1 }) ∷ channels)
    else elim rest [ none ↦ none | some r ↦ some (suc r.0, some c ∷ r.1) ]

abbrev pub new_channel : List ℕ → Channel
new_channel name = record {
  name = pad name name_capacity 0;
  name_len = length name;
  queue = [];
  recv_waiters = [];
  send_waiters = [];
  ref_count = 1;
}

-- The first hole.
unfoldable pub fill : Channel → Channels → Option (ℕ × Channels)
fill c [] = none
fill c (none ∷ channels) = some (1, some c ∷ channels)
fill c (some d ∷ channels) = elim (fill c channels) [
  | none ↦ none
  | some r ↦ some (suc r.0, some d ∷ r.1)
]

abbrev pub grow : Channel → Channels → ℕ × Channels
grow c channels =
    if leb max_channels (length channels)
    then (u64_max, channels)
    else (length channels + 1, channels ++ some c ∷ [])

abbrev pub or_else : Option (ℕ × Channels) → ℕ × Channels → ℕ × Channels
or_else none r = r
or_else (some r) _ = r

unfoldable pub open_channel : List ℕ → Channels → ℕ × Channels
unfolding reopen fill
open_channel [] channels = (u64_max, channels)
open_channel (b ∷ bs) channels =
    let name = b ∷ bs in
    if ltb name_capacity (length name)
    then (u64_max, channels)
    else or_else (reopen name channels)
        (or_else (fill (new_channel name) channels) (grow (new_channel name) channels))

-- The first waiter, if any, is taken off the list and woken.
abbrev pub wake_first : List ℕ → List Effect
wake_first [] = []
wake_first (pid ∷ pids) = wakeup pid ∷ []

abbrev pub enqueue : Channel → List ℕ → Channel
enqueue c bytes = record c { queue = c.queue ++ bytes ∷ []; recv_waiters = drop 1 c.recv_waiters }

abbrev pub send_reliable :
    ℕ → List ℕ → Channels → Option Channel → SendResult × List Effect × Channels
send_reliable id bytes channels none = (SendResult.error, [], channels)
send_reliable id bytes channels (some c) =
    if leb max_queue (length c.queue)
    then (SendResult.block, [], channels)
    else (SendResult.ok, wake_first c.recv_waiters, put channels id (enqueue c bytes))

unfoldable pub try_send_reliable : ℕ → List ℕ → Channels → SendResult × List Effect × Channels
unfolding slot
try_send_reliable id bytes channels =
    if ltb max_msg_size (length bytes)
    then (SendResult.error, [], channels)
    else send_reliable id bytes channels (slot channels id)

-- `while c.queue.len() >= MAX_QUEUE { c.queue.pop_front(); }`
unfoldable pub drop_oldest : List (List ℕ) → List (List ℕ)
drop_oldest [] = []
drop_oldest (m ∷ queue) =
    let rest = drop_oldest queue in if leb max_queue (suc (length queue)) then rest else m ∷ queue

abbrev pub send_now : ℕ → List ℕ → Channels → Option Channel → SendResult × List Effect × Channels
send_now id bytes channels none = (SendResult.error, [], channels)
send_now id bytes channels (some c) = (
  SendResult.ok,
  wake_first c.recv_waiters,
  put channels id (enqueue (record c { queue = drop_oldest c.queue }) bytes),
)

unfoldable pub try_send : ℕ → List ℕ → Channels → SendResult × List Effect × Channels
unfolding slot drop_oldest
try_send id bytes channels =
    if ltb max_msg_size (length bytes)
    then (SendResult.error, [], channels)
    else send_now id bytes channels (slot channels id)

abbrev pub cut : List ℕ → List ℕ → ℕ
cut message buf = min (length message) (length buf)

abbrev pub filled : List ℕ → List ℕ → List ℕ
filled message buf = take (cut message buf) message ++ drop (cut message buf) buf

abbrev pub dequeue : Channel → List (List ℕ) → Channel
dequeue c rest = record c { queue = rest; send_waiters = drop 1 c.send_waiters }

-- The result, the buffer after the copy, the effects and the table.
abbrev pub Received : Type 0
Received = RecvResult × List ℕ × List Effect × Channels

abbrev pub take_message : ℕ → List ℕ → Channels → Channel → List (List ℕ) → Received → Received
take_message id buf channels c [] otherwise = otherwise
take_message id buf channels c (message ∷ rest) otherwise = (
  RecvResult.ok (cut message buf),
  filled message buf,
  wake_first c.send_waiters,
  put channels id (dequeue c rest),
)

abbrev pub register : ℕ → List ℕ → ℕ → Channels → Channel → Received
register id buf pid channels c = if pid == 0 then (RecvResult.block, buf, [], channels) else (
  RecvResult.block,
  buf,
  sleep_on pid id ∷ [],
  put channels id (record c { recv_waiters = c.recv_waiters ++ pid ∷ [] }),
)

abbrev pub receive : ℕ → List ℕ → ℕ → Channels → Option Channel → Received
receive id buf pid channels none = (RecvResult.error, buf, [], channels)
receive id buf pid channels (some c) =
    take_message id buf channels c c.queue (register id buf pid channels c)

unfoldable pub try_recv : ℕ → List ℕ → ℕ → Channels → Received
unfolding slot
try_recv id buf pid channels = receive id buf pid channels (slot channels id)

abbrev pub poll : ℕ → List ℕ → Channels → Option Channel → Received
poll id buf channels none = (RecvResult.error, buf, [], channels)
poll id buf channels (some c) =
    take_message id buf channels c c.queue (RecvResult.block, buf, [], channels)

unfoldable pub try_recv_nonblock : ℕ → List ℕ → Channels → Received
unfolding slot
try_recv_nonblock id buf channels = poll id buf channels (slot channels id)

abbrev pub contains : ℕ → List ℕ → Bool
contains x [] = false
contains x (y ∷ ys) = (y == x) || contains x ys

abbrev pub await_space : ℕ → ℕ → Channels → Option Channel → Bool × List Effect × Channels
await_space id pid channels none = (false, [], channels)
await_space id pid channels (some c) =
    if ltb (length c.queue) max_queue
    then (false, [], channels)
    else if not (pid == 0) && not (contains pid c.send_waiters)
    then (
      true,
      sleep_on pid id ∷ [],
      put channels id (record c { send_waiters = c.send_waiters ++ pid ∷ [] }),
    )
    else (true, [], channels)

unfoldable pub wait_send_space : ℕ → ℕ → Channels → Bool × List Effect × Channels
unfolding slot
wait_send_space id pid channels = await_space id pid channels (slot channels id)

abbrev pub abort : ℕ → Channels → Option Channel → List Effect × Channels
abort id channels none = ([], channels)
abort id channels (some c) =
    (map wakeup c.send_waiters, put channels id (record c { queue = []; send_waiters = [] }))

unfoldable pub abort_senders : ℕ → Channels → List Effect × Channels
unfolding slot
abort_senders id channels = abort id channels (slot channels id)

abbrev pub add_waiter : ℕ → ℕ → Channels → Option Channel → Channels
add_waiter id pid channels none = channels
add_waiter id pid channels (some c) =
    put channels id (record c { send_waiters = c.send_waiters ++ pid ∷ [] })

unfoldable pub add_send_waiter : ℕ → ℕ → Channels → Channels
unfolding slot
add_send_waiter id pid channels = add_waiter id pid channels (slot channels id)

abbrev pub is_empty : List (List ℕ) → Bool
is_empty [] = true
is_empty (m ∷ queue) = false

abbrev pub release : ℕ → Channels → Option Channel → Channels
release id channels none = channels
release id channels (some c) =
    if ltb 1 c.ref_count
    then put channels id (record c { ref_count = c.ref_count - 1 })
    else if is_empty c.queue
    then set channels (id - 1) none
    else put channels id (record c { ref_count = 0 })

unfoldable pub close : ℕ → Channels → Channels
unfolding slot
close id channels = release id channels (slot channels id)
