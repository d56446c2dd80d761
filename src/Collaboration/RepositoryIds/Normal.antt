-- ===== src/Collaboration/RepositoryIds/Normal.antt =====
-- internal/collaboration/repository_ids.go: what normalizeRepositoryIDs makes of a list, and which
-- repositories a channel has after its changes.
use runspace.Prelude.{
  ◌≡◌, refl, ◌∙◌, inl, inr, String, false, not, ◌&&◌, Option, none, some, List, [], ◌∷◌, arith,
  is_empty, ◌==◌, eq_iff, eq_refl, some_of, Bool-cases,
}
use runspace.Text.{trim_space}
use runspace.Text.Trim.{trim_space_idem}
use runspace.Collaboration.Model.{Channel}
use runspace.Collaboration.RepositoryIds.{
  seen_in, normalize_from, normalize_repository_ids, inherited_repository_ids,
  set_channel_repository_ids, first_id, is_none_of, own_repository_ids,
}

-- Trimmed, not empty, and met once, neither here nor in what is seen.
abbrev pub AreNames : List String → List String → Type 0
AreNames seen [] = Unit
AreNames seen (x ∷ xs) =
    (trim_space x ≡ x) × (is_empty x ≡ false) × (seen_in seen x ≡ false) × AreNames (x ∷ seen) xs

normalize_from-AreNames : (seen ids : List String) → AreNames seen (normalize_from seen ids)
unfolding normalize_from
normalize_from-AreNames seen [] = tt
normalize_from-AreNames seen (id ∷ ids) = elim (Bool-cases (is_empty (trim_space id))) [
  | inl blank ↦ rw blank (normalize_from-AreNames seen ids)
  | inr named ↦ elim (Bool-cases (seen_in seen (trim_space id))) [
    | inl old ↦ rw (named, old) (normalize_from-AreNames seen ids)
    | inr new ↦
        rw (named, new)
          (trim_space_idem id, named, new, normalize_from-AreNames (trim_space id ∷ seen) ids)
  ]
]

-- An id is kept exactly if it is among the trimmed ones, is not empty, and was not seen.
normalize_from-seen_in :
    (seen ids : List String) (y : String)
    → seen_in (normalize_from seen ids) y
      ≡ (not (is_empty y) && not (seen_in seen y) && some_of (λ x. trim_space x == y) ids)
unfolding normalize_from
normalize_from-seen_in seen [] y = ground arith
normalize_from-seen_in seen (id ∷ ids) y = elim (Bool-cases (trim_space id == y)) [
  | inl here ↦
      rw ((eq_iff (trim_space id) y).0 here) ground (
        arith,
        normalize_from-seen_in seen ids y,
        normalize_from-seen_in (y ∷ seen) ids y,
        eq_refl y,
      )
  | inr away ↦ ground (
    arith,
    away,
    normalize_from-seen_in seen ids y,
    normalize_from-seen_in (trim_space id ∷ seen) ids y,
  )
]

-- What is kept of a list of ids are names, each once, and exactly the given ids, trimmed, that are
-- not blank.
pub normalize_repository_ids_lem :
    (ids : List String)
    → AreNames [] (normalize_repository_ids ids)
      × ((y : String)
          → seen_in (normalize_repository_ids ids) y
            ≡ (not (is_empty y) && some_of (λ x. trim_space x == y) ids))
unfolding normalize_repository_ids
normalize_repository_ids_lem ids =
    (normalize_from-AreNames [] ids, λ y. normalize_from-seen_in [] ids y ∙ ground arith)

-- A channel names its repositories, and its single one is the first of them.
pub record IsTidy (c : Channel) : Type 0 where
  pub names : AreNames [] c.repository_ids
  pub first : c.repository_id ≡ first_id c.repository_ids

pub inherited_repository_ids-AreNames :
    (ids : List String) (parent : Option Channel)
    → AreNames [] (inherited_repository_ids ids parent)
unfolding inherited_repository_ids
inherited_repository_ids-AreNames ids none = (normalize_repository_ids_lem ids).0
inherited_repository_ids-AreNames ids (some parent) =
    elim (Bool-cases (is_none_of (normalize_repository_ids ids))) [
      | inl without ↦ rw without (normalize_repository_ids_lem (own_repository_ids parent)).0
      | inr own ↦ rw own (normalize_repository_ids_lem ids).0
    ]

pub set_channel_repository_ids-IsTidy :
    (ids : List String) (c : Channel) → IsTidy (set_channel_repository_ids ids c)
unfolding set_channel_repository_ids
set_channel_repository_ids-IsTidy ids c = record {
  names = (normalize_repository_ids_lem ids).0;
  first = refl;
}
