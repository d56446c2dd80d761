-- ===== src/Collaboration/Outcomes/Repositories.antt =====
-- internal/collaboration/channels.go: which repositories a channel has after a patch.
use runspace.Prelude.{
  ◌≡◌, refl, sym, ap, ◌∙◌, inl, inr, String, true, false, Option, none, some, List, [], is_empty,
  or_else, Bool-cases, ◌&&◌, ◌∷◌, subst,
}
use runspace.Text.{trim_space}
use runspace.Dict.{Dict}
use runspace.Errors.{ok}
use runspace.Collaboration.Model.{Channel, ChannelPatch}
use runspace.Collaboration.RepositoryIds.{
  set_channel_repository_ids, patch_id, patch_ids, apply_repository_patch, is_none_of,
}
use runspace.Collaboration.RepositoryIds.Normal.{IsTidy, set_channel_repository_ids-IsTidy}
use runspace.Collaboration.Channels.{rename_channel, inherit_repositories, reconfigure}
use runspace.Collaboration.Outcomes.Patching.{
  inherit_repositories-IsTidy, patched, rename_channel-Keeps,
}

-- TrimSpace of the single id, as a list.
abbrev pub single : Option String → Option (List String)
single none = none
single (some id) = some (trim_space id ∷ [])

-- The ids that a patch asks for: of its four fields the last one that is given counts.
abbrev pub requested : ChannelPatch → Option (List String)
requested patch =
    or_else patch.resource_ids (
      or_else (single patch.resource_id)
        (or_else patch.repository_ids (single patch.repository_id)))

-- The same, as the channel with those ids.
abbrev pub with_requested : Option (List String) → Channel → Channel
with_requested none c = c
with_requested (some ids) c = set_channel_repository_ids ids c

set-set :
    (ids ids' : List String) (c : Channel)
    → set_channel_repository_ids ids (set_channel_repository_ids ids' c)
      ≡ set_channel_repository_ids ids c
unfolding set_channel_repository_ids
set-set ids ids' c = refl

patch_ids-with_requested :
    (ids r : Option (List String)) (c : Channel)
    → patch_ids ids (with_requested r c) ≡ with_requested (or_else ids r) c
unfolding patch_ids
patch_ids-with_requested none r c = refl
patch_ids-with_requested (some ids) none c = refl
patch_ids-with_requested (some ids) (some ids') c = set-set ids ids' c

patch_id-single : (id : Option String) (c : Channel) → patch_id id c ≡ patch_ids (single id) c
unfolding patch_id patch_ids
patch_id-single none c = refl
patch_id-single (some id) c = refl

patch_ids-none : (ids : Option (List String)) (c : Channel) → patch_ids ids c ≡ with_requested ids c
unfolding patch_ids
patch_ids-none none c = refl
patch_ids-none (some ids) c = refl

apply_repository_patch-requested :
    (patch : ChannelPatch) (c : Channel)
    → apply_repository_patch patch c ≡ with_requested (requested patch) c
unfolding apply_repository_patch
apply_repository_patch-requested patch c =
    let ids = patch.repository_ids in
    let one = single patch.repository_id in
    let two = single patch.resource_id in
    ap (λ d. patch_ids patch.resource_ids (patch_id patch.resource_id (patch_ids ids d)))
      (patch_id-single patch.repository_id c ∙ patch_ids-none one c)
    ∙ ap (λ d. patch_ids patch.resource_ids (patch_id patch.resource_id d))
        (patch_ids-with_requested ids one c)
    ∙ ap (patch_ids patch.resource_ids)
        (patch_id-single patch.resource_id _ ∙ patch_ids-with_requested two (or_else ids one) c)
    ∙ patch_ids-with_requested patch.resource_ids (or_else two (or_else ids one)) c

-- The repositories hang on the repositories before only.
abbrev pub SameIds : Channel → Channel → Type 0
SameIds a b = (a.repository_ids ≡ b.repository_ids) × (a.repository_id ≡ b.repository_id)

with_requested-SameIds :
    (r : Option (List String)) (a b : Channel)
    → SameIds a b
    → SameIds (with_requested r a) (with_requested r b)
unfolding set_channel_repository_ids
with_requested-SameIds none a b h = h
with_requested-SameIds (some ids) a b h = (refl, refl)

inherit_repositories-SameIds :
    (parent : Option Channel) (a b : Channel)
    → SameIds a b
    → SameIds (inherit_repositories parent a) (inherit_repositories parent b)
unfolding inherit_repositories
inherit_repositories-SameIds none a b h = h
inherit_repositories-SameIds (some parent) a b (ids, single_id) =
    elim (Bool-cases (is_none_of b.repository_ids && is_empty b.repository_id)) [
      | inl bare ↦
          let bare' : (is_none_of a.repository_ids && is_empty a.repository_id) ≡ true =
            cc (bare, ids, single_id) in
          rw (bare', bare) (refl, refl)
      | inr own ↦
          let own' : (is_none_of a.repository_ids && is_empty a.repository_id) ≡ false =
            cc (own, ids, single_id) in
          rw (own', own) (ids, single_id)
    ]

reconfigure-SameIds :
    (parent : Option Channel) (patch : Option (Dict String)) (c : Channel)
    → SameIds (reconfigure parent patch c) c
unfolding reconfigure
reconfigure-SameIds parent none c = (refl, refl)
reconfigure-SameIds parent (some patch) c = (refl, refl)

-- The channel whose repositories a patched one has: those that the patch asks for, or else the old
-- ones, and where there are none the parent's.
abbrev pub repositories_now : Option Channel → ChannelPatch → Channel → Channel
repositories_now parent patch old =
    inherit_repositories parent (with_requested (requested patch) old)

pub repositories_now-SameIds :
    (parent : Option Channel) (patch : ChannelPatch) (a b : Channel)
    → SameIds a b
    → SameIds (repositories_now parent patch a) (repositories_now parent patch b)
repositories_now-SameIds parent patch a b h =
    inherit_repositories-SameIds parent _ _ (with_requested-SameIds (requested patch) a b h)

pub patched-repositories :
    (parent : Option Channel) (patch : ChannelPatch) (old c : Channel)
    → rename_channel patch.name old ≡ ok c
    → ((patched parent patch c).repository_ids ≡ (repositories_now parent patch old).repository_ids)
      × ((patched parent patch c).repository_id ≡ (repositories_now parent patch old).repository_id)
patched-repositories parent patch old c h =
    let (_, _, _, ids, one) = rename_channel-Keeps patch.name old c h in
    let (a, b) = reconfigure-SameIds parent patch.config _ in
    let (a', b') =
      inherit_repositories-SameIds parent (apply_repository_patch patch c)
        (with_requested (requested patch) old)
        (subst (λ d. SameIds d (with_requested (requested patch) old))
          (sym (apply_repository_patch-requested patch c))
          (with_requested-SameIds (requested patch) c old (ids, one))) in
    (a ∙ a', b ∙ b')

with_requested-IsTidy :
    (r : Option (List String)) (c : Channel) → IsTidy c → IsTidy (with_requested r c)
with_requested-IsTidy none c tidy = tidy
with_requested-IsTidy (some ids) c tidy = set_channel_repository_ids-IsTidy ids c

pub repositories_now-IsTidy :
    (parent : Option Channel) (patch : ChannelPatch) (old : Channel)
    → IsTidy old
    → IsTidy (repositories_now parent patch old)
repositories_now-IsTidy parent patch old tidy =
    inherit_repositories-IsTidy parent _ (with_requested-IsTidy (requested patch) old tidy)
