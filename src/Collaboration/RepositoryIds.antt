-- ===== src/Collaboration/RepositoryIds.antt =====
-- internal/collaboration/repository_ids.go: the repositories of a channel.
pub mod Normal
use runspace.Prelude.{
  String, Bool, true, false, ◌&&◌, not, Option, none, some, List, [], ◌∷◌, is_empty, ◌==◌, some_of,
  if◌then◌else◌,
}
use runspace.Text.{trim_space}
use runspace.Collaboration.Model.{Channel, ChannelPatch}

-- Go's map `seen` is a list here.
abbrev pub seen_in : List String → String → Bool
seen_in seen id = some_of (λ x. x == id) seen

-- for _, id := range ids { … }, behind what is seen
normalize_from : List String → List String → List String
normalize_from seen [] = []
normalize_from seen (id ∷ ids) =
    let name = trim_space id in
    let kept = name ∷ normalize_from (name ∷ seen) ids in
    let dropped = normalize_from seen ids in
    if not (is_empty name) && not (seen_in seen name) then kept else dropped

unfoldable pub normalize_repository_ids : List String → List String
unfolding normalize_from
normalize_repository_ids ids = normalize_from [] ids

abbrev pub is_none_of : List String → Bool
is_none_of [] = true
is_none_of (x ∷ xs) = false

-- The ids of a channel, or else its single id.
abbrev pub own_repository_ids : Channel → List String
own_repository_ids c =
    if is_none_of c.repository_ids && not (is_empty c.repository_id)
    then c.repository_id ∷ []
    else c.repository_ids

unfoldable pub inherited_repository_ids : List String → Option Channel → List String
unfolding normalize_repository_ids
inherited_repository_ids ids none = normalize_repository_ids ids
inherited_repository_ids ids (some parent) =
    let own = normalize_repository_ids ids in
    if is_none_of own then normalize_repository_ids (own_repository_ids parent) else own

-- channel.RepositoryID, from channel.RepositoryIDs
abbrev pub first_id : List String → String
first_id [] = ""
first_id (id ∷ ids) = id

unfoldable pub set_channel_repository_ids : List String → Channel → Channel
unfolding normalize_repository_ids
set_channel_repository_ids ids c = record c {
  repository_ids = normalize_repository_ids ids;
  repository_id = first_id (normalize_repository_ids ids);
}

unfoldable pub patch_id : Option String → Channel → Channel
unfolding set_channel_repository_ids
patch_id none c = c
patch_id (some id) c = set_channel_repository_ids (trim_space id ∷ []) c

unfoldable pub patch_ids : Option (List String) → Channel → Channel
unfolding set_channel_repository_ids
patch_ids none c = c
patch_ids (some ids) c = set_channel_repository_ids ids c

unfoldable pub apply_repository_patch : ChannelPatch → Channel → Channel
unfolding patch_id patch_ids
apply_repository_patch patch c =
    patch_ids patch.resource_ids
      (patch_id patch.resource_id (patch_ids patch.repository_ids (patch_id patch.repository_id c)))
