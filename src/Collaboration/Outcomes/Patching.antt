-- ===== src/Collaboration/Outcomes/Patching.antt =====
-- internal/collaboration/channels.go: what a patch makes of a channel.
use runspace.Prelude.{
  ◌≡◌, refl, ap, ◌∙◌, inl, inr, String, Option, none, some, List, [], arith, is_empty, or_else,
  Bool-cases, ◌&&◌,
}
use runspace.Text.{trim_space}
use runspace.Dict
use runspace.Dict.{Dict}
use runspace.Errors.{ok}
use runspace.Collaboration.Model.{Channel, ChannelPatch}
use runspace.Collaboration.Config.{inherited_value, get-updated_channel_config}
use runspace.Collaboration.RepositoryIds.{patch_id, patch_ids, apply_repository_patch, is_none_of}
use runspace.Collaboration.RepositoryIds.Normal.{IsTidy, inherited_repository_ids-AreNames}
use runspace.Collaboration.Channels.{rename_channel, inherit_repositories, reconfigure}

-- What no patch changes.
pub record Keeps (a b : Channel) : Type 0 where
  pub id : b.id ≡ a.id
  pub workspace_id : b.workspace_id ≡ a.workspace_id
  pub parent_id : b.parent_id ≡ a.parent_id
  pub created_by : b.created_by ≡ a.created_by
  pub created_at : b.created_at ≡ a.created_at

pub Keeps-trans : {a b c : Channel} → Keeps a b → Keeps b c → Keeps a c
Keeps-trans p q = record {
  id = q.id ∙ p.id;
  workspace_id = q.workspace_id ∙ p.workspace_id;
  parent_id = q.parent_id ∙ p.parent_id;
  created_by = q.created_by ∙ p.created_by;
  created_at = q.created_at ∙ p.created_at;
}

same_channel : (a : Channel) → Keeps a a
same_channel a = record {
  id = refl;
  workspace_id = refl;
  parent_id = refl;
  created_by = refl;
  created_at = refl;
}

-- What a change of the repositories leaves alone besides.
abbrev pub KeepsSettings : Channel → Channel → Type 0
KeepsSettings a b = Keeps a b × (b.name ≡ a.name) × (b.config ≡ a.config)

settings_trans : {a b c : Channel} → KeepsSettings a b → KeepsSettings b c → KeepsSettings a c
settings_trans (k, n, s) (k', n', s') = (Keeps-trans k k', n' ∙ n, s' ∙ s)

patch_id-Keeps : (id : Option String) (c : Channel) → KeepsSettings c (patch_id id c)
unfolding patch_id
patch_id-Keeps none c = (same_channel c, refl, refl)
patch_id-Keeps (some id) c = (
  record { id = refl; workspace_id = refl; parent_id = refl; created_by = refl; created_at = refl },
  refl,
  refl,
)

patch_ids-Keeps : (ids : Option (List String)) (c : Channel) → KeepsSettings c (patch_ids ids c)
unfolding patch_ids
patch_ids-Keeps none c = (same_channel c, refl, refl)
patch_ids-Keeps (some ids) c = (
  record { id = refl; workspace_id = refl; parent_id = refl; created_by = refl; created_at = refl },
  refl,
  refl,
)

pub apply_repository_patch-Keeps :
    (patch : ChannelPatch) (c : Channel) → KeepsSettings c (apply_repository_patch patch c)
unfolding apply_repository_patch
apply_repository_patch-Keeps patch c = settings_trans (patch_id-Keeps patch.repository_id c) (
    settings_trans (patch_ids-Keeps patch.repository_ids _)
      (settings_trans (patch_id-Keeps patch.resource_id _) (patch_ids-Keeps patch.resource_ids _)))

pub inherit_repositories-Keeps :
    (parent : Option Channel) (c : Channel) → KeepsSettings c (inherit_repositories parent c)
unfolding inherit_repositories
inherit_repositories-Keeps none c = (same_channel c, refl, refl)
inherit_repositories-Keeps (some parent) c =
    elim (Bool-cases (is_none_of c.repository_ids && is_empty c.repository_id)) [
      | inl bare ↦ rw bare (
        record {
          id = refl;
          workspace_id = refl;
          parent_id = refl;
          created_by = refl;
          created_at = refl;
        },
        refl,
        refl,
      )
      | inr own ↦ rw own (same_channel c, refl, refl)
    ]

pub inherit_repositories-IsTidy :
    (parent : Option Channel) (c : Channel) → IsTidy c → IsTidy (inherit_repositories parent c)
unfolding inherit_repositories
inherit_repositories-IsTidy none c tidy = tidy
inherit_repositories-IsTidy (some parent) c tidy =
    elim (Bool-cases (is_none_of c.repository_ids && is_empty c.repository_id)) [
      | inl bare ↦
          rw bare
            (record { names = inherited_repository_ids-AreNames [] (some parent); first = refl })
      | inr own ↦ rw own tidy
    ]

-- A setting of the patched channel.
abbrev pub patched_value : Option (Dict String) → Option Channel → Channel → String → Option String
patched_value none parent old k = Dict.get old.config k
patched_value (some patch) parent old k = or_else (Dict.get patch k) (inherited_value parent k)

pub reconfigure-Keeps :
    (parent : Option Channel) (patch : Option (Dict String)) (c : Channel)
    → Keeps c (reconfigure parent patch c)
      × ((reconfigure parent patch c).name ≡ c.name)
      × ((k : String)
          → Dict.get (reconfigure parent patch c).config k ≡ patched_value patch parent c k)
unfolding reconfigure
reconfigure-Keeps parent none c = (same_channel c, refl, λ k. refl)
reconfigure-Keeps parent (some patch) c = (
  record { id = refl; workspace_id = refl; parent_id = refl; created_by = refl; created_at = refl },
  refl,
  get-updated_channel_config parent patch,
)

abbrev pub name_of : Option String → Channel → String
name_of none c = c.name
name_of (some name) c = trim_space name

pub rename_channel-Keeps :
    (name : Option String) (c d : Channel)
    → rename_channel name c ≡ ok d
    → Keeps c d
      × (d.name ≡ name_of name c)
      × (d.config ≡ c.config)
      × (d.repository_ids ≡ c.repository_ids)
      × (d.repository_id ≡ c.repository_id)
unfolding rename_channel
rename_channel-Keeps none c d h =
    let e : c ≡ d = cc h in rw (← e) (same_channel c, refl, refl, refl, refl)
rename_channel-Keeps (some name) c d h = elim (Bool-cases (is_empty (trim_space name))) [
  | inl blank ↦ absurd (ground (arith, blank))
  | inr named ↦
      let e : record c { name = trim_space name } ≡ d = ground (arith, named) in
      rw (← e) (
        record {
          id = refl;
          workspace_id = refl;
          parent_id = refl;
          created_by = refl;
          created_at = refl;
        },
        refl,
        refl,
        refl,
        refl,
      )
]

patched_value-config :
    (patch : Option (Dict String)) (parent : Option Channel) (a b : Channel)
    → a.config ≡ b.config
    → (k : String) → patched_value patch parent a k ≡ patched_value patch parent b k
patched_value-config none parent a b h k = ap (λ d. Dict.get d k) h
patched_value-config (some p) parent a b h k = refl

-- The patches of UpdateChannel, one upon the other.
abbrev pub patched : Option Channel → ChannelPatch → Channel → Channel
patched parent patch c =
    reconfigure parent patch.config (inherit_repositories parent (apply_repository_patch patch c))

pub patched-Keeps :
    (parent : Option Channel) (patch : ChannelPatch) (old c : Channel)
    → rename_channel patch.name old ≡ ok c
    → Keeps old (patched parent patch c)
      × ((patched parent patch c).name ≡ name_of patch.name old)
      × ((k : String)
          → Dict.get (patched parent patch c).config k ≡ patched_value patch.config parent old k)
patched-Keeps parent patch old c h =
    let (kept, named, config, _, _) = rename_channel-Keeps patch.name old c h in
    let (kept', named', config') =
      settings_trans (apply_repository_patch-Keeps patch c)
        (inherit_repositories-Keeps parent (apply_repository_patch patch c)) in
    let (kept'', named'', settings) =
      reconfigure-Keeps parent patch.config
        (inherit_repositories parent (apply_repository_patch patch c)) in
    (
      Keeps-trans kept (Keeps-trans kept' kept''),
      named'' ∙ named' ∙ named,
      λ k. settings k ∙ patched_value-config patch.config parent _ old (config' ∙ config) k,
    )
