-- ===== src/Workspace/Owners.antt =====
-- internal/workspace/memory.go and memory_access.go: the owner that every workspace has.
use runspace.Prelude.{
  if◌then◌else◌, ℕ, ◌≡◌, refl, ap, ◌∙◌, inl, inr, String, Option, none, some, arith, ◌==◌, eq_iff,
  Bool-cases,
}
use runspace.Dict
use runspace.Dict.{Dict, get-put, get-empty}
use runspace.Workspace.Policy.{Role}
use runspace.Workspace.{or_no_members, Workspace, Member, made_workspace, made_member}

abbrev pub find_member : Dict (Dict Member) → String → String → Option Member
find_member ms id user = Dict.get (or_no_members (Dict.get ms id)) user

-- Who made a workspace is an owner of it.
abbrev pub Owned : Dict Workspace → Dict (Dict Member) → Type 0
Owned wss ms =
    (id : String) (ws : Workspace)
    → Dict.get wss id ≡ some ws
    → (m : Member) × (find_member ms id ws.created_by ≡ some m) × (m.role ≡ Role.owner)

find_member-put :
    (ms : Dict (Dict Member)) (k id user : String) (inner : Dict Member)
    → find_member (Dict.put ms k inner) id user
      ≡ (if k == id then Dict.get inner user else find_member ms id user)
find_member-put ms k id user inner = elim (Bool-cases (k == id)) [
  | inl here ↦ rw (get-put, here) refl
  | inr away ↦ rw (get-put, away) refl
]

pub Owned-create :
    (wss : Dict Workspace) (ms : Dict (Dict Member)) (id name user_id : String) (now : ℕ)
    → Owned wss ms
    → Owned
        (Dict.put wss id (made_workspace id name user_id now))
        (Dict.put ms id (Dict.put Dict.empty user_id (made_member id user_id Role.owner now)))
Owned-create wss ms id name user_id now o j ws h = elim (Bool-cases (id == j)) [
  | inl here ↦
      let same : made_workspace id name user_id now ≡ ws =
        ground (arith, get-put wss id j (made_workspace id name user_id now)) in
      (
        made_member id user_id Role.owner now,
        find_member-put ms id j ws.created_by _
            ∙ rw (here, get-put)
                (rw ((eq_iff user_id ws.created_by).1 (ap (λ (w : Workspace). w.created_by) same))
                  refl),
        refl,
      )
  | inr away ↦
      let (m, there, role) =
        o j ws (ground (arith, get-put wss id j (made_workspace id name user_id now))) in
      (m, find_member-put ms id j ws.created_by _ ∙ rw away there, role)
]

pub Owned-join :
    (wss : Dict Workspace) (ms : Dict (Dict Member)) (id target : String) (m : Member)
    → find_member ms id target ≡ none
    → Owned wss ms
    → Owned wss (Dict.put ms id (Dict.put (or_no_members (Dict.get ms id)) target m))
Owned-join wss ms id target m fresh o j ws h =
    let (old, there, role) = o j ws h in
    (old, find_member-put ms id j ws.created_by _ ∙ kept old there, role)
  where
    kept :
        (old : Member)
        → find_member ms j ws.created_by ≡ some old
        → (if id == j
            then Dict.get (Dict.put (or_no_members (Dict.get ms id)) target m) ws.created_by
            else find_member ms j ws.created_by)
          ≡ some old
    kept old there = elim (Bool-cases (id == j)) [
      | inr away ↦ rw away there
      | inl here ↦
          let moved = ap (λ k. find_member ms k ws.created_by) ((eq_iff id j).0 here) ∙ there in
          rw (here, get-put)
            (elim (Bool-cases (target == ws.created_by)) [
              | inr other ↦ rw other moved
              | inl hit ↦ absurd (cc (fresh, moved, (eq_iff target ws.created_by).0 hit))
            ])
    ]
