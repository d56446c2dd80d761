-- ===== src/Collaboration/Outcomes/Updating.antt =====
-- internal/collaboration/channels.go: what UpdateChannel leaves behind.
use runspace.Prelude.{
  ◌≡◌, refl, sym, ap, ◌∙◌, subst, ◌⊎◌, inl, inr, String, true, Option, none, some, arith, eq_iff,
}
use runspace.Dict
use runspace.Dict.{Dict}
use runspace.Errors.{Error, ok, collaboration_not_found}
use runspace.Exec.{fail_if-ok, fail_if, pure, gets, lift, or_fail}
use runspace.Collaboration.Model.{Channel, ChannelPatch, Codec, MemoryService, ◌>>=◌, can_read}
use runspace.Collaboration.Config.{get-clone_config}
use runspace.Collaboration.Channels.{
  with_own_config, rename_channel, or_persisted, load_channel, get_channel, load_writable_channel,
  apply_channel_patch, update_channel, resolve_parent, stored_channel,
}
use runspace.Collaboration.Quiet.{
  IsSame, IsSame-trans, after_quiet, validate_channel_access-IsQuiet, load_writable_channel-IsQuiet,
  apply_channel_patch-IsQuiet,
}
use runspace.Collaboration.Outcomes.Finding.{
  Stored, Answers, IsParentIn, load_channel-Stored, resolve_parent-IsParentIn, Answers-same,
  IsParentIn-same,
}
use runspace.Collaboration.Outcomes.Granting.{MayWrite, bind-ok, validate_channel_access-ok}
use runspace.Collaboration.Outcomes.Creating.{Put, stored-Put}
use runspace.Collaboration.Outcomes.Patching.{
  Keeps, Keeps-trans, name_of, patched_value, patched, patched-Keeps,
}
use runspace.Collaboration.Outcomes.Repositories.{
  patched-repositories, SameIds, repositories_now, repositories_now-SameIds,
}

module _ {W : Type 0} where
  -- The end of GetChannel, from the channel that was found.
  read_end :
      (found : Option Channel) (user_id : String) (s t : MemoryService W) (c : Channel)
      → (or_fail found collaboration_not_found >>= λ (channel : Channel).
            gets (λ (u : MemoryService W). u.authorizer) >>= λ authorizer.
            can_read authorizer channel.workspace_id user_id >>= λ _.
            pure (with_own_config channel))
          s
        ≡ (ok c, t)
      → (stored : Channel) × (found ≡ some stored) × (c ≡ with_own_config stored)
  unfolding ◌>>=◌
  read_end none user_id s t c h = absurd (cc (ap (λ p. p.0) h))
  read_end (some stored) user_id s t c h =
      let (_, u, e, end) =
        bind-ok (can_read s.authorizer stored.workspace_id user_id)
          (λ _. pure (with_own_config stored)) s t c h in
      (stored, refl, cc (ap (λ p. p.0) end))

  pub get_channel-known :
      (ctx : Option Error) (user_id id : String) (s t : MemoryService W) (c : Channel)
      → get_channel ctx user_id id s ≡ (ok c, t)
      → (stored : Channel) × Answers s.channels s.store user_id id stored
        × (c ≡ with_own_config stored)
  unfolding ◌>>=◌ get_channel or_persisted load_channel stored_channel
  get_channel-known (some x) user_id id s t c h = absurd (cc (ap (λ p. p.0) h))
  get_channel-known none user_id id s t c h = from (Dict.get s.channels id) refl h
    where
      from :
          (known : Option Channel)
          → Dict.get s.channels id ≡ known
          → (or_persisted known true (load_channel s.store user_id id) >>= λ found.
                or_fail found collaboration_not_found >>= λ (channel : Channel).
                gets (λ (u : MemoryService W). u.authorizer) >>= λ authorizer.
                can_read authorizer channel.workspace_id user_id >>= λ _.
                pure (with_own_config channel))
              s
            ≡ (ok c, t)
          → (stored : Channel) × Answers s.channels s.store user_id id stored
            × (c ≡ with_own_config stored)
      from (some known) e h' =
          let (stored, same, is) = read_end (some known) user_id s t c h' in
          (stored, inl (e ∙ same), is)
      from none e h' =
          let (found, u, at, end) = bind-ok (load_channel s.store user_id id) _ s t c h' in
          let (stored, same, is) = read_end found user_id u t c end in
          (
            stored,
            inr (
              e,
              subst (Stored s.store user_id "" id) same
                  (load_channel-Stored s.store user_id id found s u at),
            ),
            is,
          )

  load_writable_channel-known :
      (ctx : Option Error) (user_id workspace_id id : String) (s t : MemoryService W) (c : Channel)
      → load_writable_channel ctx user_id workspace_id id s ≡ (ok c, t)
      → (stored : Channel) × Answers s.channels s.store user_id id stored
        × (c ≡ with_own_config stored)
        × (stored.workspace_id ≡ workspace_id)
  unfolding load_writable_channel
  load_writable_channel-known ctx user_id workspace_id id s t c h =
      let (channel, u, e, rest) = bind-ok (get_channel ctx user_id id) _ s t c h in
      let (_, v, e', end) =
        bind-ok (fail_if _ collaboration_not_found) (λ _. pure channel) u t c rest in
      let (stored, known, is) = get_channel-known ctx user_id id s u channel e in
      (
        stored,
        known,
        cc (ap (λ p. p.0) end, is),
        ground (arith, (fail_if-ok _ _ u v e').0, eq_iff channel.workspace_id workspace_id, is),
      )

  apply_channel_patch-made :
      (ctx : Option Error) (user_id workspace_id : String) (patch : ChannelPatch) (old c : Channel)
      (s t : MemoryService W)
      → apply_channel_patch ctx user_id workspace_id patch old s ≡ (ok c, t)
      → (renamed : Channel) × (parent : Option Channel) × (rename_channel patch.name old
          ≡ ok renamed)
        × (c ≡ patched parent patch renamed)
        × IsParentIn s user_id workspace_id old.parent_id parent
  unfolding apply_channel_patch
  apply_channel_patch-made ctx user_id workspace_id patch old c s t h =
      let (renamed, u, e, rest) = bind-ok (lift (rename_channel patch.name old)) _ s t c h in
      let (parent, v, e', end) =
        bind-ok (resolve_parent user_id workspace_id old.parent_id) _ u t c rest in
      let same : s ≡ u = ap (λ p. p.1) e in
      (
        renamed,
        parent,
        ap (λ p. p.0) e,
        cc (ap (λ p. p.0) end),
        subst (λ x. IsParentIn x user_id workspace_id old.parent_id parent) (sym same)
            (resolve_parent-IsParentIn user_id workspace_id old.parent_id u v parent e'),
      )

-- What the stored channel has become.
pub record Changed {W : Type 0} (s : MemoryService W) (user_id workspace_id id : String)
    (patch : ChannelPatch) (c : Channel) : Type 0 where
  pub old : Channel
  pub parent : Option Channel
  pub known : Answers s.channels s.store user_id id old
  pub found : IsParentIn s user_id workspace_id old.parent_id parent
  pub place : old.workspace_id ≡ workspace_id
  pub kept : Keeps old c
  pub name_now : c.name ≡ name_of patch.name old
  pub settings : (k : String) → Dict.get c.config k ≡ patched_value patch.config parent old k
  pub repositories : c.repository_ids ≡ (repositories_now parent patch old).repository_ids
  pub first : c.repository_id ≡ (repositories_now parent patch old).repository_id

-- The settings of the copy that GetChannel returns are those of the stored channel.
copied_value :
    (patch : Option (Dict String)) (parent : Option Channel) (stored : Channel) (k : String)
    → patched_value patch parent (with_own_config stored) k ≡ patched_value patch parent stored k
copied_value none parent stored k = get-clone_config stored.config k
copied_value (some p) parent stored k = refl

copied_name :
    (name : Option String) (stored : Channel)
    → name_of name (with_own_config stored) ≡ name_of name stored
copied_name none stored = refl
copied_name (some name) stored = refl

copied_repositories :
    (parent : Option Channel) (patch : ChannelPatch) (stored : Channel)
    → SameIds
        (repositories_now parent patch (with_own_config stored))
        (repositories_now parent patch stored)
copied_repositories parent patch stored =
    repositories_now-SameIds parent patch (with_own_config stored) stored (refl, refl)

copied : (stored : Channel) → Keeps stored (with_own_config stored)
copied stored = record {
  id = refl;
  workspace_id = refl;
  parent_id = refl;
  created_by = refl;
  created_at = refl;
}

module _ {W : Type 0} (codec : Codec) (ctx : Option Error) (user_id workspace_id id : String)
    (patch : ChannelPatch) where
  pub update_channel-outcome :
      (s : MemoryService W)
      → let t = (update_channel codec ctx user_id workspace_id id patch s).1 in
        IsSame s t
        ⊎ ((c : Channel) × Put s c t
            × Changed s user_id workspace_id id patch c
            × MayWrite s workspace_id user_id)
  unfolding update_channel
  update_channel-outcome s =
      after_quiet _ _ s Q (validate_channel_access-IsQuiet ctx user_id workspace_id) (λ t q. inl q)
        λ _ t e q.
          after_quiet _ _ t Q (load_writable_channel-IsQuiet ctx user_id workspace_id id)
            (λ u q'. inl (IsSame-trans q q'))
            λ channel u e' q'.
              let before = IsSame-trans q q' in
              after_quiet _ _ u Q
                (apply_channel_patch-IsQuiet ctx user_id workspace_id patch channel)
                (λ v q''. inl (IsSame-trans before q''))
                λ c v e'' q''. inr (
                  c,
                  stored-Put codec ctx user_id workspace_id _ "channel.updated" c s v
                      (IsSame-trans before q''),
                  changed t u u v channel c q before e' e'',
                  validate_channel_access-ok ctx user_id workspace_id s t e,
                )
    where
      Q : MemoryService W → Type 0
      Q t =
          IsSame s t
          ⊎ ((c : Channel) × Put s c t
              × Changed s user_id workspace_id id patch c
              × MayWrite s workspace_id user_id)

      changed :
          (t u u' v : MemoryService W) (channel c : Channel)
          → IsSame s t
          → IsSame s u'
          → load_writable_channel ctx user_id workspace_id id t ≡ (ok channel, u)
          → apply_channel_patch ctx user_id workspace_id patch channel u' ≡ (ok c, v)
          → Changed s user_id workspace_id id patch c
      changed t u u' v channel c q q' e e' =
          let (stored, known, is, place) =
            load_writable_channel-known ctx user_id workspace_id id t u channel e in
          let (renamed, parent, renaming, made, found) =
            apply_channel_patch-made ctx user_id workspace_id patch channel c u' v e' in
          let (kept, named, settings) = patched-Keeps parent patch channel renamed renaming in
          let (ids, one) = patched-repositories parent patch channel renamed renaming in
          let (ids', one') = copied_repositories parent patch stored in
          record {
            old = stored;
            parent = parent;
            known = Answers-same user_id id stored s t q known;
            found = IsParentIn-same user_id workspace_id stored.parent_id parent s u' q' (
                subst (λ i. IsParentIn u' user_id workspace_id i parent) (ap (λ x. x.parent_id) is)
                  found);
            place = place;
            kept = rw made (Keeps-trans (rw is (copied stored)) kept);
            name_now = rw made (named ∙ rw is (copied_name patch.name stored));
            repositories = rw made (ids ∙ rw is ids');
            first = rw made (one ∙ rw is one');
            settings =
                λ k. rw made (settings k ∙ rw is (copied_value patch.config parent stored k));
          }
