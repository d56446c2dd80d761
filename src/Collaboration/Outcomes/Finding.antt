-- ===== src/Collaboration/Outcomes/Finding.antt =====
-- internal/collaboration/channels.go: where a channel that is looked up comes from, by findParent,
-- findPersistedParent, GetChannel and loadChannel.

use runspace.Prelude.{
  ◌≡◌, refl, ap, subst, ◌⊎◌, inl, inr, String, Bool, true, false, not, Option, none, some, List, [],
  ◌∷◌, In, All, is_empty, ◌==◌, eq_iff, arith, Bool-cases,
}
use runspace.Dict
use runspace.Dict.{Dict}
use runspace.Errors.{ok}
use runspace.Collaboration.Model.{Channel, ChannelStore, Store, MemoryService, ◌>>=◌, try_call}
use runspace.Collaboration.Channels.{
  channel_store_of, find_channel, listed, stored_channel, find_persisted_parent, load_channel,
  or_persisted, resolve_parent,
}
use runspace.Collaboration.Quiet.{IsSame}

-- A channel of the list with the id, or that there is none.
abbrev pub Picks : String → List Channel → Option Channel → Type 0
Picks id cs none = All (λ c. ¬ (c.id ≡ id)) cs
Picks id cs (some c) = In c cs × (c.id ≡ id)

find_channel-Picks : (id : String) (cs : List Channel) → Picks id cs (find_channel id cs)
unfolding find_channel
find_channel-Picks id [] = tt
find_channel-Picks id (c ∷ cs) = elim (Bool-cases (c.id == id)) [
  | inl here ↦ rw here (inl refl, (eq_iff c.id id).0 here)
  | inr other ↦ rw other (later (find_channel id cs) other (find_channel-Picks id cs))
]
  where
    later : (o : Option Channel) → (c.id == id) ≡ false → Picks id cs o → Picks id (c ∷ cs) o
    later none other h = (λ same. absurd (grind (arith, (eq_iff c.id id).1 same)), h)
    later (some x) other (there, named) = (inr there, named)

-- What the durable store answers for an id: no channel where it keeps none, and otherwise the one of
-- a list of its own, where the listing may fail and is then empty.
abbrev pub Stored :
    {W : Type 0} → Option (Store W) → String → String → String → Option Channel → Type 0
Stored {W} store user_id workspace_id id found =
    ((channel_store_of store ≡ none) × (found ≡ none))
    ⊎ ((cs : ChannelStore W) × (channel_store_of store ≡ some cs)
        × ((w : W) × Picks id (listed (cs.list_channels user_id workspace_id w).0) found))

-- Who answers for a channel: the map, or the durable store if the map does not know the id.
abbrev pub Answers :
    {W : Type 0} → Dict Channel → Option (Store W) → String → String → Channel → Type 0
Answers channels store user_id id c =
    (Dict.get channels id ≡ some c)
    ⊎ ((Dict.get channels id ≡ none) × Stored store user_id "" id (some c))

-- The parent of an id: the one that the map has, or else none for an empty id, and for another what
-- the durable store answers in the workspace.
abbrev pub IsParent :
    {W : Type 0}
    → Dict Channel
    → Option (Store W)
    → String
    → String
    → String
    → Option Channel
    → Type 0
IsParent channels store user_id workspace_id id parent =
    ((c : Channel) × (Dict.get channels id ≡ some c) × (parent ≡ some c))
    ⊎ ((Dict.get channels id ≡ none)
        × (((id ≡ "") × (parent ≡ none))
            ⊎ (¬ (id ≡ "") × Stored store user_id workspace_id id parent)))

pub empty_text : (s : String) → is_empty s ≡ true → s ≡ ""
empty_text String.[] h = refl
empty_text (String.◌∷◌ c s) h = absurd (cc h)

module _ {W : Type 0} where
  pub Stored-alone :
      (store : Option (Store W)) (user_id workspace_id id : String) (c : Channel)
      → store ≡ none
      → Stored store user_id workspace_id id (some c)
      → ⊥
  Stored-alone none user_id workspace_id id c alone (inl (_, nothing)) = absurd (cc nothing)
  Stored-alone none user_id workspace_id id c alone (inr (cs, there, _)) = absurd (cc there)
  Stored-alone (some store) user_id workspace_id id c alone h = absurd (cc alone)

  stored_channel-Stored :
      (store : Option (Store W)) (user_id workspace_id id : String) (found : Option Channel)
      (s t : MemoryService W)
      → stored_channel user_id workspace_id id (channel_store_of store) s ≡ (ok found, t)
      → Stored store user_id workspace_id id found
  unfolding ◌>>=◌ stored_channel try_call
  stored_channel-Stored store user_id workspace_id id found s t h =
      from (channel_store_of store) refl h
    where
      from :
          (o : Option (ChannelStore W))
          → channel_store_of store ≡ o
          → stored_channel user_id workspace_id id o s ≡ (ok found, t)
          → Stored store user_id workspace_id id found
      from none e h' = inl (e, cc (ap (λ p. p.0) h'))
      from (some cs) e h' =
          let answer = listed (cs.list_channels user_id workspace_id s.world).0 in
          let same : find_channel id answer ≡ found = cc (ap (λ p. p.0) h') in
          inr (cs, e, (s.world, subst (Picks id answer) same (find_channel-Picks id answer)))

  pub load_channel-Stored :
      (store : Option (Store W)) (user_id id : String) (found : Option Channel)
      (s t : MemoryService W)
      → load_channel store user_id id s ≡ (ok found, t)
      → Stored store user_id "" id found
  unfolding load_channel
  load_channel-Stored store user_id id found s t h =
      stored_channel-Stored store user_id "" id found s t h

  abbrev pub IsParentIn : MemoryService W → String → String → String → Option Channel → Type 0
  IsParentIn s user_id workspace_id id parent =
      IsParent s.channels s.store user_id workspace_id id parent

  pub resolve_parent-IsParentIn :
      (user_id workspace_id id : String) (s t : MemoryService W) (parent : Option Channel)
      → resolve_parent user_id workspace_id id s ≡ (ok parent, t)
      → IsParentIn s user_id workspace_id id parent
  unfolding ◌>>=◌ resolve_parent or_persisted find_persisted_parent
  resolve_parent-IsParentIn user_id workspace_id id s t parent h =
      from (Dict.get s.channels id) (is_empty id) refl refl h
    where
      from :
          (found : Option Channel) (blank : Bool)
          → Dict.get s.channels id ≡ found
          → is_empty id ≡ blank
          → or_persisted found (not blank) (find_persisted_parent s.store user_id workspace_id id) s
            ≡ (ok parent, t)
          → IsParentIn s user_id workspace_id id parent
      from none true e b h' = inr (e, inl (empty_text id b, cc (ap (λ p. p.0) h')))
      from none false e b h' = inr (
        e,
        inr (
          λ same. absurd (grind (arith, ap is_empty same, b)),
          stored_channel-Stored s.store user_id workspace_id id parent s t h',
        ),
      )
      from (some c) blank e b h' = inl (c, e, cc (ap (λ p. p.0) h'))

  -- Both are the same in a service with the same channels and store.
  pub Answers-same :
      (user_id id : String) (c : Channel) (s t : MemoryService W)
      → IsSame s t
      → Answers t.channels t.store user_id id c
      → Answers s.channels s.store user_id id c
  Answers-same user_id id c s t same h =
      subst (λ d. Answers d s.store user_id id c) same.channels
        (subst (λ d. Answers t.channels d user_id id c) same.store h)

  pub IsParentIn-same :
      (user_id workspace_id id : String) (parent : Option Channel) (s t : MemoryService W)
      → IsSame s t
      → IsParentIn t user_id workspace_id id parent
      → IsParentIn s user_id workspace_id id parent
  IsParentIn-same user_id workspace_id id parent s t same h =
      subst (λ d. IsParent d s.store user_id workspace_id id parent) same.channels
        (subst (λ d. IsParent t.channels d user_id workspace_id id parent) same.store h)
