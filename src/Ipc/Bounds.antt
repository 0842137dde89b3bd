-- ===== src/Ipc/Bounds.antt =====
-- The limits of crates/kernel/src/ipc.rs, whatever processes do with the channels.
use kazuos.Prelude.{
  ℕ, zero, suc, ◌-◌, ◌≤◌, ◌<◌, not, ◌&&◌, Option, none, some, List, [], ◌∷◌, ◌++◌, ◌==◌, ltb, leb,
  ◌≡◌, refl, subst, arith, Bool-cases, inl, inr, length, set, All, All-set, length-set,
  length-append,
}
use kazuos.Ipc.{
  Channel, Channels, max_channels, max_msg_size, max_queue, name_capacity, slot, enqueue,
  send_reliable, drop_oldest, send_now, dequeue, take_message, Received, register, receive, poll,
  contains, await_space, abort, add_waiter, release, is_empty,
}

abbrev pub Fits : List ℕ → Type 0
Fits message = length message ≤ max_msg_size

abbrev pub IsChannel : Channel → Type 0
IsChannel c =
    (length c.queue ≤ max_queue)
    × All Fits c.queue
    × (1 ≤ c.name_len)
    × (c.name_len ≤ name_capacity)
    × (length c.name ≡ name_capacity)

abbrev pub SlotOk : Option Channel → Type 0
SlotOk none = Unit
SlotOk (some c) = IsChannel c

-- At most 32 slots; each channel has at most 8 messages of at most 8192 bytes, and a name that
-- lies within its 32 bytes.
abbrev pub IsTable : Channels → Type 0
IsTable channels = (length channels ≤ max_channels) × All SlotOk channels

pub slot-SlotOk : (channels : Channels) (id : ℕ) → All SlotOk channels → SlotOk (slot channels id)
unfolding slot
slot-SlotOk channels zero a = tt
slot-SlotOk [] (suc idx) a = tt
slot-SlotOk (o ∷ channels) (suc zero) a = a.0
slot-SlotOk (o ∷ channels) (suc (suc idx)) a = slot-SlotOk channels (suc idx) a.1

pub put-IsTable :
    (channels : Channels) (id : ℕ) (o : Option Channel)
    → IsTable channels
    → SlotOk o
    → IsTable (set channels (id - 1) o)
put-IsTable channels id o t h =
    (omega (arith, length-set channels (id - 1) o, t.0), All-set SlotOk channels (id - 1) o t.1 h)

pub All-append {ℓ κ} :
    {A : Type ℓ} (P : A → Type κ) (xs : List A) (x : A) → All P xs → P x → All P (xs ++ x ∷ [])
All-append P [] x a p = (p, tt)
All-append P (y ∷ xs) x a p = (a.0, All-append P xs x a.1 p)

enqueue-IsChannel :
    (c : Channel) (queue : List (List ℕ)) (bytes : List ℕ)
    → length queue < max_queue
    → All Fits queue
    → Fits bytes
    → IsChannel c
    → IsChannel (enqueue (record c { queue = queue }) bytes)
enqueue-IsChannel c queue bytes l a f h = (
  omega (arith, length-append queue (bytes ∷ [])),
  All-append Fits queue bytes a f,
  h.2,
  h.3,
  h.4,
)

drop_oldest-length : (queue : List (List ℕ)) → length (drop_oldest queue) < max_queue
unfolding drop_oldest
drop_oldest-length [] = omega arith
drop_oldest-length (m ∷ queue) = elim (Bool-cases (leb max_queue (suc (length queue)))) [
  | inl e ↦ rw e (drop_oldest-length queue)
  | inr e ↦ rw e (ground arith)
]

drop_oldest-Fits : (queue : List (List ℕ)) → All Fits queue → All Fits (drop_oldest queue)
unfolding drop_oldest
drop_oldest-Fits [] a = a
drop_oldest-Fits (m ∷ queue) a = elim (Bool-cases (leb max_queue (suc (length queue)))) [
  | inl e ↦ rw e (drop_oldest-Fits queue a.1)
  | inr e ↦ rw e a
]

module _ (channels : Channels) (t : IsTable channels) (id : ℕ) where
  pub send_reliable-IsTable :
      (bytes : List ℕ) (o : Option Channel)
      → Fits bytes
      → SlotOk o
      → IsTable (send_reliable id bytes channels o).2
  send_reliable-IsTable bytes none f h = t
  send_reliable-IsTable bytes (some c) f h = elim (Bool-cases (leb max_queue (length c.queue))) [
    | inl e ↦ rw e t
    | inr e ↦ rw e (
        put-IsTable channels id (some (enqueue c bytes)) t
          (enqueue-IsChannel c c.queue bytes (ground arith) h.1 f h))
  ]

  take_message-IsTable :
      (buf : List ℕ) (c : Channel) (queue : List (List ℕ)) (otherwise : Received)
      → c.queue ≡ queue
      → IsChannel c
      → IsTable otherwise.3
      → IsTable (take_message id buf channels c queue otherwise).3
  take_message-IsTable buf c [] otherwise e h i = i
  take_message-IsTable buf c (m ∷ rest) otherwise e h i =
      put-IsTable channels id (some (dequeue c rest)) t (
        let g : IsChannel (record c { queue = m ∷ rest }) =
          subst (λ q. IsChannel (record c { queue = q })) e h in
        (omega (arith, g.0), g.1.1, h.2, h.3, h.4))

  pub send_now-IsTable :
      (bytes : List ℕ) (o : Option Channel)
      → Fits bytes
      → SlotOk o
      → IsTable (send_now id bytes channels o).2
  send_now-IsTable bytes none f h = t
  send_now-IsTable bytes (some c) f h =
      put-IsTable channels id (some (enqueue (record c { queue = drop_oldest c.queue }) bytes)) t (
        enqueue-IsChannel c (drop_oldest c.queue) bytes (drop_oldest-length c.queue)
          (drop_oldest-Fits c.queue h.1) f h)

  register-IsTable :
      (buf : List ℕ) (pid : ℕ) (c : Channel)
      → IsChannel c
      → IsTable (register id buf pid channels c).3
  register-IsTable buf pid c h = elim (Bool-cases (pid == 0)) [
    | inl e ↦ rw e t
    | inr e ↦ rw e (put-IsTable channels id (some _) t h)
  ]

  pub receive-IsTable :
      (buf : List ℕ) (pid : ℕ) (o : Option Channel)
      → SlotOk o
      → IsTable (receive id buf pid channels o).3
  receive-IsTable buf pid none h = t
  receive-IsTable buf pid (some c) h =
      take_message-IsTable buf c c.queue (register id buf pid channels c) refl h
        (register-IsTable buf pid c h)

  pub poll-IsTable :
      (buf : List ℕ) (o : Option Channel) → SlotOk o → IsTable (poll id buf channels o).3
  poll-IsTable buf none h = t
  poll-IsTable buf (some c) h = take_message-IsTable buf c c.queue _ refl h t

  pub await_space-IsTable :
      (pid : ℕ) (o : Option Channel) → SlotOk o → IsTable (await_space id pid channels o).2
  await_space-IsTable pid none h = t
  await_space-IsTable pid (some c) h = elim (Bool-cases (ltb (length c.queue) max_queue)) [
    | inl e ↦ rw e t
    | inr e ↦ elim (Bool-cases (not (pid == 0) && not (contains pid c.send_waiters))) [
      | inl g ↦ rw (e, g) (put-IsTable channels id (some _) t h)
      | inr g ↦ rw (e, g) t
    ]
  ]

  pub abort-IsTable : (o : Option Channel) → SlotOk o → IsTable (abort id channels o).1
  abort-IsTable none h = t
  abort-IsTable (some c) h =
      put-IsTable channels id (some (record c { queue = []; send_waiters = [] })) t
        (omega arith, tt, h.2, h.3, h.4)

  pub add_waiter-IsTable :
      (pid : ℕ) (o : Option Channel) → SlotOk o → IsTable (add_waiter id pid channels o)
  add_waiter-IsTable pid none h = t
  add_waiter-IsTable pid (some c) h = put-IsTable channels id (some _) t h

  pub release-IsTable : (o : Option Channel) → SlotOk o → IsTable (release id channels o)
  release-IsTable none h = t
  release-IsTable (some c) h = elim (Bool-cases (ltb 1 c.ref_count)) [
    | inl e ↦ rw e (put-IsTable channels id (some _) t h)
    | inr e ↦ elim (Bool-cases (is_empty c.queue)) [
      | inl g ↦ rw (e, g) (put-IsTable channels id none t tt)
      | inr g ↦ rw (e, g) (put-IsTable channels id (some _) t h)
    ]
  ]
