-- ===== src/Collaboration/Outcomes/Creating.antt =====
-- internal/collaboration/channels.go: what CreateChannel leaves behind.
use runspace.Prelude.{
  ◌≡◌, refl, ap, ◌∙◌, ◌⊎◌, inl, inr, String, false, Option, none, some, List, is_empty, or_else,
  Bool-cases, arith, eq_iff,
}
use runspace.Text.{is_blank, trim_space}
use runspace.Dict
use runspace.Dict.{Dict}
use runspace.Errors.{Error}
use runspace.Exec.{fail_if-ok, Exec}
use runspace.Collaboration.Model.{Channel, ChannelStore, Codec, MemoryService, ◌>>=◌}
use runspace.Collaboration.Config.{
  created_channel_config, inherited_value, get-created_channel_config,
}
use runspace.Collaboration.RepositoryIds.{inherited_repository_ids, first_id}
use runspace.Collaboration.Channels.{
  invalid_parent, made_channel, store_channel, announce_channel, create_with_parent,
  create_channel_with_repositories,
}
use runspace.Collaboration.Quiet.{
  IsSame, IsSame-trans, after_quiet, IsQuiet-fail_if, read_clock-IsQuiet, next_id-IsQuiet,
  validate_channel_create-IsQuiet, resolve_parent-IsQuiet, announce_channel-IsQuiet,
}
use runspace.Collaboration.Outcomes.Finding.{
  IsParentIn, resolve_parent-IsParentIn, IsParentIn-same, empty_text,
}
use runspace.Collaboration.Outcomes.Granting.{MayWrite, validate_channel_create-ok}

same_workspace :
    (parent_id workspace_id : String) (parent : Option Channel)
    → invalid_parent parent_id workspace_id parent ≡ false
    → (parent_id ≡ "") ⊎ ((p : Channel) × (parent ≡ some p) × (p.workspace_id ≡ workspace_id))
unfolding invalid_parent
same_workspace parent_id workspace_id none h = inl (empty_text parent_id (ground (arith, h)))
same_workspace parent_id workspace_id (some p) h = elim (Bool-cases (is_empty parent_id)) [
  | inl blank ↦ inl (empty_text parent_id blank)
  | inr given ↦ inr (p, refl, (eq_iff p.workspace_id workspace_id).0 (ground (arith, h, given)))
]

module _ {W : Type 0} where
  -- A channel is put in, and the threads and messages stay.
  pub record Put (s : MemoryService W) (c : Channel) (t : MemoryService W) : Type 0 where
    pub channels : t.channels ≡ Dict.put s.channels c.id c
    pub threads : t.threads ≡ s.threads
    pub messages : t.messages ≡ s.messages
    pub store : t.store ≡ s.store

  -- Storing a channel and announcing it, after steps that changed none.
  pub stored-Put :
      (codec : Codec) (ctx : Option Error) (user_id workspace_id : String)
      (f : ChannelStore W → Exec W (Unit {0})) (type : String) (c : Channel) (s u : MemoryService W)
      → IsSame s u
      → Put s c
          ((store_channel c >>= λ _. announce_channel codec ctx user_id workspace_id f type c) u).1
  unfolding ◌>>=◌ store_channel
  stored-Put codec ctx user_id workspace_id f type c s u same =
      let after =
        (announce_channel-IsQuiet codec ctx user_id workspace_id f type c).at
          (record u { channels = Dict.put u.channels c.id c }) in
      record {
        channels = after.channels ∙ ap (λ d. Dict.put d c.id c) same.channels;
        threads = after.threads ∙ same.threads;
        messages = after.messages ∙ same.messages;
        store = after.store ∙ same.store;
      }

  -- What a channel is made of.
  pub record Made (s : MemoryService W) (user_id workspace_id name parent_id : String)
      (ids : List String) (config : Dict String) (c : Channel) : Type 0 where
    pub parent : Option Channel
    pub found : IsParentIn s user_id workspace_id parent_id parent
    pub apt :
        (parent_id ≡ "") ⊎ ((p : Channel) × (parent ≡ some p) × (p.workspace_id ≡ workspace_id))
    pub place : c.workspace_id ≡ workspace_id
    pub maker : c.created_by ≡ user_id
    pub name_kept : c.name ≡ trim_space name
    pub parent_kept : c.parent_id ≡ parent_id
    pub repositories : c.repository_ids ≡ inherited_repository_ids ids parent
    pub first : c.repository_id ≡ first_id c.repository_ids
    pub settings :
        (k : String) → Dict.get c.config k ≡ or_else (Dict.get config k) (inherited_value parent k)

  abbrev pub ChannelMade :
      MemoryService W
      → String
      → String
      → String
      → String
      → List String
      → Dict String
      → MemoryService W
      → Type 0
  ChannelMade s user_id workspace_id name parent_id ids config t =
      (c : Channel) × Put s c t
      × Made s user_id workspace_id name parent_id ids config c
      × MayWrite s workspace_id user_id

module _ {W : Type 0} (codec : Codec) (ctx : Option Error) (user_id workspace_id name : String)
    (ids : List String) (config : Dict String) where
  created :
      (parent_id : String) (parent : Option Channel) (s u : MemoryService W)
      → IsSame s u
      → MayWrite s workspace_id user_id
      → IsParentIn s user_id workspace_id parent_id parent
      → let t =
          (create_with_parent codec ctx user_id workspace_id name parent_id ids config parent
            u).1 in
        IsSame s t ⊎ ChannelMade s user_id workspace_id name parent_id ids config t
  unfolding create_with_parent
  created parent_id parent s u same granted found =
      after_quiet _ _ u Q (IsQuiet-fail_if _ _) (λ t q. inl (IsSame-trans same q))
        λ _ t e q.
          after_quiet _ _ t Q read_clock-IsQuiet
            (λ t' q'. inl (IsSame-trans (IsSame-trans same q) q'))
            λ now t' _ q'.
              let before = IsSame-trans (IsSame-trans same q) q' in
              after_quiet _ _ t' Q (next_id-IsQuiet "channel") (λ v r. inl (IsSame-trans before r))
                λ id v _ r.
                  let c =
                    made_channel id workspace_id user_id name parent_id
                      (inherited_repository_ids ids parent) (created_channel_config parent config)
                      now in
                  inr (
                    c,
                    stored-Put codec ctx user_id workspace_id _ "channel.created" c s v
                        (IsSame-trans before r),
                    record {
                      parent = parent;
                      found = found;
                      apt = same_workspace parent_id workspace_id parent (fail_if-ok _ _ u t e).0;
                      place = refl;
                      maker = refl;
                      name_kept = refl;
                      parent_kept = refl;
                      repositories = refl;
                      first = refl;
                      settings = get-created_channel_config parent config;
                    },
                    granted,
                  )
    where
      Q : MemoryService W → Type 0
      Q t = IsSame s t ⊎ ChannelMade s user_id workspace_id name parent_id ids config t

  pub create_channel-outcome :
      (parent_id : String) (s : MemoryService W)
      → let t =
          (create_channel_with_repositories codec ctx user_id workspace_id name parent_id ids config
            s).1 in
        IsSame s t
        ⊎ ((is_blank name ≡ false)
            × ChannelMade s user_id workspace_id name (trim_space parent_id) ids config t)
  unfolding create_channel_with_repositories
  create_channel-outcome parent_id s =
      after_quiet _ _ s Q (validate_channel_create-IsQuiet ctx user_id workspace_id name)
        (λ t q. inl q)
        λ _ t e q.
          let (named, granted) = validate_channel_create-ok ctx user_id workspace_id name s t e in
          after_quiet _ _ t Q (resolve_parent-IsQuiet user_id workspace_id (trim_space parent_id))
            (λ u q'. inl (IsSame-trans q q'))
            λ parent u e' q'.
              elim (created (trim_space parent_id) parent s u (IsSame-trans q q') granted (
                IsParentIn-same user_id workspace_id (trim_space parent_id) parent s t q (
                  resolve_parent-IsParentIn user_id workspace_id (trim_space parent_id) t u parent
                    e'))) [ inl same ↦ inl same | inr made ↦ inr (named, made) ]
    where
      Q : MemoryService W → Type 0
      Q t =
          IsSame s t
          ⊎ ((is_blank name ≡ false)
              × ChannelMade s user_id workspace_id name (trim_space parent_id) ids config t)
