-- ===== src/Ipc/History.antt =====
-- Histories of the calls of crates/kernel/src/ipc.rs.
use kazuos.Prelude.{
  ℕ, suc, ◌≤◌, false, Option, none, some, List, [], ◌∷◌, ltb, leb, ◌≡◌, refl, arith, Bool-cases,
  inl, inr, length, All, length-append, length-pad,
}
use kazuos.Ipc.{
  Channel, Channels, max_channels, max_msg_size, name_capacity, slot, has_name, reopen, new_channel,
  fill, grow, or_else, open_channel, try_send_reliable, try_send, try_recv, try_recv_nonblock,
  wait_send_space, abort_senders, add_send_waiter, close,
}
use kazuos.Ipc.Bounds.{
  IsChannel, SlotOk, IsTable, slot-SlotOk, All-append, send_reliable-IsTable, send_now-IsTable,
  receive-IsTable, poll-IsTable, await_space-IsTable, abort-IsTable, add_waiter-IsTable,
  release-IsTable,
}

pub data Request : Type 0 where
  opens : List ℕ → Request
  sends sends_reliably : ℕ → List ℕ → Request
  receives : ℕ → List ℕ → ℕ → Request
  polls : ℕ → List ℕ → Request
  awaits adds_waiter : ℕ → ℕ → Request
  aborts closes : ℕ → Request

unfoldable pub step : Request → Channels → Channels
unfolding open_channel try_send try_send_reliable try_recv try_recv_nonblock wait_send_space
    abort_senders add_send_waiter close
step (opens name) channels = (open_channel name channels).1
step (sends id bytes) channels = (try_send id bytes channels).2
step (sends_reliably id bytes) channels = (try_send_reliable id bytes channels).2
step (receives id buf pid) channels = (try_recv id buf pid channels).3
step (polls id buf) channels = (try_recv_nonblock id buf channels).3
step (awaits id pid) channels = (wait_send_space id pid channels).2
step (adds_waiter id pid) channels = add_send_waiter id pid channels
step (aborts id) channels = (abort_senders id channels).1
step (closes id) channels = close id channels

unfoldable pub run : List Request → Channels → Channels
unfolding step
run [] channels = channels
run (r ∷ requests) channels = run requests (step r channels)

-- What an attempt to find a place for a channel may answer.
abbrev pub Kept : ℕ → Option (ℕ × Channels) → Type 0
Kept n none = Unit
Kept n (some r) = (length r.1 ≡ n) × All SlotOk r.1

Kept-cons :
    (n : ℕ) (o : Option Channel) (r : Option (ℕ × Channels))
    → SlotOk o
    → Kept n r
    → Kept (suc n) (elim r [ none ↦ none | some q ↦ some (suc q.0, o ∷ q.1) ])
Kept-cons n o none h k = tt
Kept-cons n o (some q) h k = (omega (arith, k.0), (h, k.1))

reopen-Kept :
    (name : List ℕ) (channels : Channels)
    → All SlotOk channels
    → Kept (length channels) (reopen name channels)
unfolding reopen
reopen-Kept name [] a = tt
reopen-Kept name (none ∷ channels) a =
    Kept-cons (length channels) none (reopen name channels) tt (reopen-Kept name channels a.1)
reopen-Kept name (some c ∷ channels) a = elim (Bool-cases (has_name name c)) [
  | inl e ↦ rw e (refl, a)
  | inr e ↦ rw e (
      Kept-cons (length channels) (some c) (reopen name channels) a.0
        (reopen-Kept name channels a.1))
]

fill-Kept :
    (c : Channel) (channels : Channels)
    → IsChannel c
    → All SlotOk channels
    → Kept (length channels) (fill c channels)
unfolding fill
fill-Kept c [] h a = tt
fill-Kept c (none ∷ channels) h a = (refl, (h, a.1))
fill-Kept c (some d ∷ channels) h a =
    Kept-cons (length channels) (some d) (fill c channels) a.0 (fill-Kept c channels h a.1)

grow-IsTable :
    (c : Channel) (channels : Channels)
    → IsChannel c
    → IsTable channels
    → IsTable (grow c channels).1
grow-IsTable c channels h t = elim (Bool-cases (leb max_channels (length channels))) [
  | inl e ↦ rw e t
  | inr e ↦ rw e (
    ground (arith, length-append channels (some c ∷ [])),
    All-append SlotOk channels (some c) t.1 h,
  )
]

or_else-IsTable :
    (channels : Channels) (o : Option (ℕ × Channels)) (r : ℕ × Channels)
    → length channels ≤ max_channels
    → Kept (length channels) o
    → IsTable r.1
    → IsTable (or_else o r).1
or_else-IsTable channels none r l k t = t
or_else-IsTable channels (some q) r l k t = (omega (arith, k.0), k.1)

new_channel-IsChannel :
    (b : ℕ) (bs : List ℕ)
    → ltb name_capacity (length (b ∷ bs)) ≡ false
    → IsChannel (new_channel (b ∷ bs))
new_channel-IsChannel b bs e =
    let l : length (b ∷ bs) ≤ name_capacity = ground arith in
    (omega arith, tt, omega arith, l, omega (arith, length-pad 0 (b ∷ bs) name_capacity, l))

open_channel-IsTable :
    (name : List ℕ) (channels : Channels)
    → IsTable channels
    → IsTable (open_channel name channels).1
unfolding open_channel
open_channel-IsTable [] channels t = t
open_channel-IsTable (b ∷ bs) channels t = elim (Bool-cases (ltb name_capacity (length (b ∷ bs)))) [
  | inl e ↦ rw e t
  | inr e ↦
      let h = new_channel-IsChannel b bs e in
      rw e (
        or_else-IsTable channels (reopen (b ∷ bs) channels) _ t.0
          (reopen-Kept (b ∷ bs) channels t.1)
          (or_else-IsTable channels (fill (new_channel (b ∷ bs)) channels) _ t.0
            (fill-Kept (new_channel (b ∷ bs)) channels h t.1)
            (grow-IsTable (new_channel (b ∷ bs)) channels h t)))
]

try_send-IsTable :
    (id : ℕ) (bytes : List ℕ) (channels : Channels)
    → IsTable channels
    → IsTable (try_send id bytes channels).2
unfolding try_send
try_send-IsTable id bytes channels t = elim (Bool-cases (ltb max_msg_size (length bytes))) [
  | inl e ↦ rw e t
  | inr e ↦ rw e (
      send_now-IsTable channels t id bytes (slot channels id) (ground arith)
        (slot-SlotOk channels id t.1))
]

try_send_reliable-IsTable :
    (id : ℕ) (bytes : List ℕ) (channels : Channels)
    → IsTable channels
    → IsTable (try_send_reliable id bytes channels).2
unfolding try_send_reliable
try_send_reliable-IsTable id bytes channels t =
    elim (Bool-cases (ltb max_msg_size (length bytes))) [
      | inl e ↦ rw e t
      | inr e ↦ rw e (
          send_reliable-IsTable channels t id bytes (slot channels id) (ground arith)
            (slot-SlotOk channels id t.1))
    ]

step-IsTable : (r : Request) (channels : Channels) → IsTable channels → IsTable (step r channels)
unfolding step try_send try_send_reliable try_recv try_recv_nonblock wait_send_space abort_senders
    add_send_waiter close
step-IsTable (opens name) channels t = open_channel-IsTable name channels t
step-IsTable (sends id bytes) channels t = try_send-IsTable id bytes channels t
step-IsTable (sends_reliably id bytes) channels t = try_send_reliable-IsTable id bytes channels t
step-IsTable (receives id buf pid) channels t =
    receive-IsTable channels t id buf pid (slot channels id) (slot-SlotOk channels id t.1)
step-IsTable (polls id buf) channels t =
    poll-IsTable channels t id buf (slot channels id) (slot-SlotOk channels id t.1)
step-IsTable (awaits id pid) channels t =
    await_space-IsTable channels t id pid (slot channels id) (slot-SlotOk channels id t.1)
step-IsTable (adds_waiter id pid) channels t =
    add_waiter-IsTable channels t id pid (slot channels id) (slot-SlotOk channels id t.1)
step-IsTable (aborts id) channels t =
    abort-IsTable channels t id (slot channels id) (slot-SlotOk channels id t.1)
step-IsTable (closes id) channels t =
    release-IsTable channels t id (slot channels id) (slot-SlotOk channels id t.1)

-- Whatever processes do with the channels, from the empty table on or from any other that keeps
-- the limits: there are at most 32 slots, each open channel has at most 8 messages of at most 8192
-- bytes each, and a name of 1 to 32 bytes in its array.
pub run-IsTable :
    (requests : List Request) (channels : Channels)
    → IsTable channels
    → IsTable (run requests channels)
unfolding run
run-IsTable [] channels t = t
run-IsTable (r ∷ requests) channels t =
    run-IsTable requests (step r channels) (step-IsTable r channels t)
