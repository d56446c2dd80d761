-- ===== src/Secrets/InCollaboration.antt =====
-- internal/secrets/service.go over internal/collaboration/channels.go: the channels of the collaboration
-- service, as the secrets see them.
use runspace.Prelude.{ℕ, ◌<◌, ◌≡◌, ap, ◌∙◌, inl, inr, String, Option, none, some}
use runspace.Dict
use runspace.Dict.{Dict}
use runspace.Errors.{Error, Result, ok}
use runspace.Collaboration.Model
use runspace.Collaboration.Model.{Channel, MemoryService}
use runspace.Collaboration.Channels.{with_own_config, get_channel}
use runspace.Collaboration.Quiet.{IsSame, get_channel-IsQuiet, IsQuiet-call}
use runspace.Collaboration.Outcomes.Updating.{get_channel-known}
use runspace.Collaboration.Outcomes.Finding.{Answers, Stored-alone}
use runspace.Secrets.Model.{ChannelResolver, Authorizer, Crypto, Service}
use runspace.Secrets.{resolve}
use runspace.Secrets.Climbing.{Descends, IsTree, resolve_ends}

module _ {W : Type 0} (ctx : Option Error) where
  abbrev pub resolver_of : ChannelResolver (MemoryService W)
  resolver_of = record { get_channel = get_channel ctx }

  abbrev pub authorizer_of : Model.Authorizer W → Authorizer (MemoryService W)
  authorizer_of a = record {
    can_read = λ workspace_id user_id. Model.call (a.can_read workspace_id user_id);
    can_write = λ workspace_id user_id. Model.call (a.can_write workspace_id user_id);
  }

-- There is no durable store, and each known channel stands under its id, below its parent.
pub record IsRanked {W : Type 0} (rank : String → ℕ) (t : MemoryService W) : Type 0 where
  pub alone : t.store ≡ none
  pub below :
      (id : String) (c : Channel) → Dict.get t.channels id ≡ some c → (c.id ≡ id) × Descends rank c

module _ {W : Type 0} (ctx : Option Error) (rank : String → ℕ) (a : Model.Authorizer W) where
  IsRanked-same : (s t : MemoryService W) → IsSame s t → IsRanked rank s → IsRanked rank t
  IsRanked-same s t same ranked = record {
    alone = same.store ∙ ranked.alone;
    below = rw same.channels ranked.below;
  }

  answered :
      (user_id id : String) (s : MemoryService W) (c : Channel)
      → IsRanked rank s
      → (get_channel ctx user_id id s).0 ≡ ok c
      → (c.id ≡ id) × Descends rank c
  answered user_id id s c ranked h =
      let (stored, known, is) =
        get_channel-known ctx user_id id s _ c
          (ap (λ r. (r, (get_channel ctx user_id id s).1)) h) in
      from stored known is
    where
      from :
          (stored : Channel)
          → Answers s.channels s.store user_id id stored
          → c ≡ with_own_config stored
          → (c.id ≡ id) × Descends rank c
      from stored (inl known) is = rw is (ranked.below id stored known)
      from stored (inr (_, there)) is =
          absurd (Stored-alone s.store user_id "" id stored ranked.alone there)

  get_channel-IsTree : IsTree (IsRanked rank) rank (resolver_of ctx) (authorizer_of ctx a) none
  get_channel-IsTree = record {
    answers = answered;
    found =
        λ user_id id s ranked. IsRanked-same s _ ((get_channel-IsQuiet ctx user_id id).at s) ranked;
    read = λ workspace_id user_id s ranked.
        IsRanked-same s _ ((IsQuiet-call (a.can_read workspace_id user_id)).at s) ranked;
    resolved = λ store id name s there ranked. absurd (cc there);
  }

  -- Over the collaboration service without a durable store, whose known channels stand under their ids
  -- and below their parents, resolving a secret comes to an end: as many rounds as the rank of the
  -- channel and one are enough.
  pub resolve_in_collaboration :
      (crypto : Crypto (MemoryService W)) (fuel : ℕ) (user_id id name : String)
      (s : Service (MemoryService W))
      → IsRanked rank s.world
      → s.channels ≡ resolver_of ctx
      → s.auth ≡ authorizer_of ctx a
      → s.durable ≡ none
      → rank id < fuel
      → (r : Result String) × (t : Service (MemoryService W)) × (resolve crypto fuel user_id id name
            s
          ≡ some (r, t))
  resolve_in_collaboration crypto fuel user_id id name s ranked channels auth durable enough =
      resolve_ends (IsRanked rank) rank (resolver_of ctx) (authorizer_of ctx a) none
        get_channel-IsTree crypto fuel user_id id name s
        (record {
          holds = ranked;
          channels_kept = channels;
          auth_kept = auth;
          durable_kept = durable;
        })
        enough
