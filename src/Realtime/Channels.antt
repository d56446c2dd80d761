-- ===== src/Realtime/Channels.antt =====
-- internal/realtime/hub.go: the subscribers and the channels that they name.
pub mod Delivery
pub mod Lifetime
pub mod Dropping
pub mod Closing
pub mod Catchup
use runspace.Prelude.{
  ℕ, ◌<◌, ◌≡◌, refl, ap, String, Bool, true, false, ◌||◌, Option, none, some, List, [], ◌∷◌, ◌++◌,
  arith, length, get_elem?, set, get_elem?-set, get_elem?-lt, some_of, All, eqb, if◌then◌else◌,
}
use runspace.Realtime.{Feed, Subscriber, MemoryHub, slice_at}

abbrev pub on_channel : ℕ → Subscriber → Bool
on_channel c s = eqb s.channel c

-- The subscriber's channel is on the heap, open, and made for the workspace.
pub record IsLive (feeds : List Feed) (k : String) (s : Subscriber) : Type 0 where
  pub feed : Feed
  pub at : get_elem? feeds s.channel ≡ some feed
  pub is_open : feed.closed ≡ false
  pub not_done : feed.once_done ≡ false
  pub made_for : feed.workspace_id ≡ k

abbrev pub Apart : List Subscriber → Type 0
Apart [] = Unit {0}
Apart (s ∷ ss) = (some_of (on_channel s.channel) ss ≡ false) × Apart ss

-- Each subscriber of a workspace has a channel of its own, open and made for that workspace.
pub record IsWired (hub : MemoryHub) : Type 0 where
  pub live : (k : String) → All (IsLive hub.feeds k) (slice_at hub.subscribers k)
  pub apart : (k : String) → Apart (slice_at hub.subscribers k)

-- A write to a channel that no subscriber of a list names.
pub IsLive-elsewhere :
    (feeds : List Feed) (k : String) (c : ℕ) (f : Feed) (items : List Subscriber)
    → c < length feeds
    → some_of (on_channel c) items ≡ false
    → All (IsLive feeds k) items
    → All (IsLive (set feeds c f) k) items
IsLive-elsewhere feeds k c f [] h apart l = tt
IsLive-elsewhere feeds k c f (s ∷ items) h apart (l, ls) = (
  record {
    feed = l.feed;
    at = ground (arith, get_elem?-set feeds c s.channel f h, l.at);
    is_open = l.is_open;
    not_done = l.not_done;
    made_for = l.made_for;
  },
  IsLive-elsewhere feeds k c f items h (ground arith) ls,
)
