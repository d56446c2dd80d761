-- ===== src/Realtime.antt =====
-- internal/realtime/hub.go: the in-memory hub. Channels stand on a heap, as Go's do: a subscription
-- and the list of subscribers name the same one. The mutex makes each method one step.
pub mod Replay
pub mod Channels
mod Tests
use runspace.Prelude.{
  ℕ, ◌+◌, String, Bool, true, false, not, Option, none, some, List, [], ◌∷◌, ◌++◌, ◌==◌, length,
  get_elem?, set, some_of, ltb, eqb, is_empty, if◌then◌else◌,
}
use runspace.Dict
use runspace.Dict.{Dict}
use runspace.Errors.{Error, Result, panic}
use runspace.Exec.{Exec, pure, fail, lift, gets, modify, check_context, ◌>>=◌, ◌>>◌}
use runspace.Contracts.Event.{EventEnvelope, validate}

-- A channel with the variables that its cancel function closes over.
pub record Feed : Type 0 where
  pub workspace_id : String
  pub capacity : ℕ
  pub buffer : List EventEnvelope
  pub closed : Bool
  pub once_done : Bool

pub record Subscriber : Type 0 where
  pub workspace_id : String
  pub channel : ℕ

pub record MemoryHub : Type 0 where
  pub subscribers : Dict (List Subscriber)
  pub history : Dict (List EventEnvelope)
  pub feeds : List Feed

abbrev pub new_memory_hub : MemoryHub
new_memory_hub = record { subscribers = Dict.empty; history = Dict.empty; feeds = [] }

-- A missing key reads as the nil slice.
abbrev pub or_nil {ℓ} : {A : Type ℓ} → Option (List A) → List A
or_nil none = []
or_nil (some xs) = xs

abbrev pub slice_at {ℓ} : {A : Type ℓ} → Dict (List A) → String → List A
slice_at d k = or_nil (Dict.get d k)

abbrev pub contains_event : List EventEnvelope → String → Bool
contains_event history id = some_of (λ e. e.id == id) history

pub remember : Dict (List EventEnvelope) → EventEnvelope → Dict (List EventEnvelope)
remember history e =
    let old = slice_at history e.workspace_id in
    if contains_event old e.id then history else Dict.put history e.workspace_id (old ++ e ∷ [])

remember_all : Dict (List EventEnvelope) → List EventEnvelope → Dict (List EventEnvelope)
remember_all history [] = history
remember_all history (e ∷ es) = remember_all (remember history e) es

pub add_history : List EventEnvelope → MemoryHub → MemoryHub
unfolding remember_all remember
add_history events hub = record hub { history = remember_all hub.history events }

replay_from : List EventEnvelope → String → Option (List EventEnvelope)
replay_from [] last_id = none
replay_from (e ∷ history) last_id =
    let rest = replay_from history last_id in if e.id == last_id then some history else rest

abbrev or_all : List EventEnvelope → Option (List EventEnvelope) → List EventEnvelope
or_all history none = history
or_all history (some later) = later

pub replay_after : List EventEnvelope → String → List EventEnvelope
unfolding replay_from
replay_after history last_id =
    if is_empty last_id then history else or_all history (replay_from history last_id)

abbrev pub open_feed : String → List EventEnvelope → Feed
open_feed workspace_id backlog = record {
  workspace_id = workspace_id;
  capacity = length backlog + 32;
  buffer = backlog;
  closed = false;
  once_done = false;
}

pub subscribe_since : Option Error → String → String → Exec MemoryHub ℕ
unfolding replay_after
subscribe_since ctx workspace_id last_event_id = do
  check_context ctx
  hub ← gets (λ h. h)
  let channel = length hub.feeds
  let backlog = replay_after (slice_at hub.history workspace_id) last_event_id
  let others = slice_at hub.subscribers workspace_id
  let subscriber : Subscriber = record { workspace_id = workspace_id; channel = channel }
  modify (λ h. record h {
    subscribers = Dict.put h.subscribers workspace_id (others ++ subscriber ∷ []);
    feeds = h.feeds ++ open_feed workspace_id backlog ∷ [];
  })
  pure channel

pub subscribe : Option Error → String → Exec MemoryHub ℕ
subscribe ctx workspace_id = subscribe_since ctx workspace_id ""

abbrev cons_some {ℓ} : {A : Type ℓ} → A → Option (List A) → Option (List A)
cons_some x none = none
cons_some x (some xs) = some (x ∷ xs)

-- The slice without the first subscriber of the channel; none if no subscriber has it.
pub drop_subscriber : ℕ → List Subscriber → Option (List Subscriber)
drop_subscriber channel [] = none
drop_subscriber channel (s ∷ items) =
    let rest = drop_subscriber channel items in
    if eqb s.channel channel then some items else cons_some s rest

abbrev set_feed : ℕ → Feed → MemoryHub → MemoryHub
set_feed channel feed hub = record hub { feeds = set hub.feeds channel feed }

close_feed : ℕ → Feed → Exec MemoryHub (Unit {0})
close_feed channel feed =
    if feed.closed
    then fail (panic "close of closed channel")
    else modify (set_feed channel (record feed { closed = true }))

close_dropped : ℕ → Feed → Option (List Subscriber) → Exec MemoryHub (Unit {0})
unfolding close_feed
close_dropped channel feed none = pure tt
close_dropped channel feed (some rest) = do
  modify (λ h. record h { subscribers = Dict.put h.subscribers feed.workspace_id rest })
  close_feed channel feed

cancel_feed : ℕ → Option Feed → Exec MemoryHub (Unit {0})
unfolding close_dropped drop_subscriber
cancel_feed channel none = pure tt
cancel_feed channel (some feed) =
    let entered = record feed { once_done = true } in
    if feed.once_done then pure tt else do
      modify (set_feed channel entered)
      items ← gets (λ h. slice_at h.subscribers feed.workspace_id)
      close_dropped channel entered (drop_subscriber channel items)

-- The function that `SubscribeSince` returns with the channel.
pub close_subscription : ℕ → Exec MemoryHub (Unit {0})
unfolding cancel_feed
close_subscription channel = do
  feed ← gets (λ h. get_elem? h.feeds channel)
  cancel_feed channel feed

-- A send that gives up when the buffer is full.
abbrev pub offer : EventEnvelope → Feed → Feed
offer e feed =
    if ltb (length feed.buffer) feed.capacity
    then record feed { buffer = feed.buffer ++ e ∷ [] }
    else feed

-- select { case channel <- event: default: }
send_to : EventEnvelope → ℕ → Option Feed → Exec MemoryHub (Unit {0})
send_to e channel none = pure tt
send_to e channel (some feed) =
    if feed.closed
    then fail (panic "send on closed channel")
    else modify (set_feed channel (offer e feed))

send_all : EventEnvelope → List Subscriber → Exec MemoryHub (Unit {0})
unfolding send_to
send_all e [] = pure tt
send_all e (s ∷ items) = do
  feed ← gets (λ h. get_elem? h.feeds s.channel)
  send_to e s.channel feed
  send_all e items

module _ (json_valid : String → Bool) where
  pub publish : Option Error → EventEnvelope → Exec MemoryHub (Unit {0})
  unfolding remember send_all
  publish ctx e = do
    check_context ctx
    lift (validate json_valid e)
    modify (λ h. record h { history = remember h.history e })
    items ← gets (λ h. slice_at h.subscribers e.workspace_id)
    send_all e items

-- The client takes the next event from its channel.
pub receive : ℕ → MemoryHub → MemoryHub
receive channel hub = elim (get_elem? hub.feeds channel) [
  | none ↦ hub
  | some feed ↦ set_feed channel (record feed { buffer = rest feed.buffer }) hub
]
  where
    rest : List EventEnvelope → List EventEnvelope
    rest [] = []
    rest (e ∷ es) = es
