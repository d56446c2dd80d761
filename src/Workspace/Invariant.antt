-- ===== src/Workspace/Invariant.antt =====
-- internal/workspace/memory.go and memory_access.go: what always holds of the workspaces, their members
-- and their resources while the service has no durable store.
use runspace.Prelude.{
  false≢true, ◌≡◌, sym, ap, ◌∙◌, subst, inl, inr, String, Bool, true, false, Option, none, some,
  List, [], ◌∷◌, arith, ◌==◌, eq_iff, some_of, In, Bool-cases,
}
use runspace.Dict
use runspace.Dict.{Dict, get-put, get-empty, get-In-values}
use runspace.Errors.{Error}
use runspace.Workspace.Policy.{Role}
use runspace.Workspace.Slug.{slugify}
use runspace.Workspace.{
  Workspace, Resource, ConnectResourceRequest, MemoryService, create_workspace,
}
use runspace.Workspace.Members.{add_member}
use runspace.Workspace.Owners.{Owned, Owned-create, Owned-join}
use runspace.Workspace.Resources.{connect_resource, is_duplicate, repository_duplicate_locked}
use runspace.Workspace.Outcomes.{IsSame, Created, create_workspace-outcome}
use runspace.Workspace.Outcomes.Joining.{Joined, add_member-outcome}
use runspace.Workspace.Outcomes.Connecting.{Connected, connect_resource-outcome}

-- No two keys have values that are alike.
abbrev pub Unlike {ℓ} : {V : Type ℓ} → (V → V → Type ℓ) → Dict V → Type ℓ
Unlike {V = V} R d =
    (i j : String) (a b : V) → Dict.get d i ≡ some a → Dict.get d j ≡ some b → R a b → i ≡ j

module _ {V : Type 0} (R : V → V → Type 0) (d : Dict V) (k : String) (v : V) where
  Unlike-put :
      ((j : String) (a : V) → Dict.get d j ≡ some a → R a v → ⊥)
      → ((a : V) → R v a → R a v)
      → Unlike R d
      → Unlike R (Dict.put d k v)
  Unlike-put fresh turn u i j a b at_i at_j alike = elim (Bool-cases (k == i)) [
    | inl here ↦ elim (Bool-cases (k == j)) [
      | inl there ↦ sym ((eq_iff k i).0 here) ∙ (eq_iff k j).0 there
      | inr away ↦
          absurd
            (fresh j b (old j b at_j away) (turn b (subst (λ x. R x b) (new i a at_i here) alike)))
    ]
    | inr away ↦ elim (Bool-cases (k == j)) [
      | inl there ↦ absurd (fresh i a (old i a at_i away) (subst (R a) (new j b at_j there) alike))
      | inr far ↦ u i j a b (old i a at_i away) (old j b at_j far) alike
    ]
  ]
    where
      old :
          (x : String) (c : V)
          → Dict.get (Dict.put d k v) x ≡ some c
          → (k == x) ≡ false
          → Dict.get d x ≡ some c
      old x c h away = ground (arith, get-put d k x v)

      new : (x : String) (c : V) → Dict.get (Dict.put d k v) x ≡ some c → (k == x) ≡ true → c ≡ v
      new x c h here = ground (arith, get-put d k x v)

some_of-In :
    {A : Type 0} (p : A → Bool) (x : A) (xs : List A) → some_of p xs ≡ false → In x xs → p x ≡ false
some_of-In p x [] h i = absurd i
some_of-In p x (y ∷ ys) h (inl e) = ground (arith, ap p e)
some_of-In p x (y ∷ ys) h (inr i) = some_of-In p x ys (ground arith) i

abbrev pub SameSlug : Workspace → Workspace → Type 0
SameSlug a b = a.slug ≡ b.slug

-- The same source, connected to the same workspace.
abbrev pub SameSource : Resource → Resource → Type 0
SameSource a b = (a.workspace_id ≡ b.workspace_id) × (a.clone_url ≡ b.clone_url)

pub record IsSound {W : Type 0} (s : MemoryService W) : Type 0 where
  pub owned : Owned s.workspaces s.members
  pub slugs : Unlike SameSlug s.workspaces
  pub sources : Unlike SameSource s.repositories

new_slug-apart :
    (name : String) (d : Dict Workspace)
    → some_of (λ ws. ws.slug == slugify name) (Dict.values d) ≡ false
    → (j : String) (a : Workspace) → Dict.get d j ≡ some a
    → a.slug ≡ slugify name
    → ⊥
new_slug-apart name d free j a at same =
    let no =
      some_of-In (λ ws. ws.slug == slugify name) a (Dict.values d) free (get-In-values d j a at) in
    false≢true (sym no ∙ (eq_iff a.slug (slugify name)).1 same)

new_source-apart :
    (workspace_id : String) (req : ConnectResourceRequest) (d : Dict Resource)
    → some_of (is_duplicate workspace_id req) (Dict.values d) ≡ false
    → (j : String) (a : Resource) → Dict.get d j ≡ some a
    → (a.workspace_id ≡ workspace_id) × (a.clone_url ≡ req.clone_url)
    → ⊥
new_source-apart workspace_id req d free j a at (here, url) =
    let no =
      some_of-In (is_duplicate workspace_id req) a (Dict.values d) free (get-In-values d j a at) in
    ground (arith, no, eq_iff a.workspace_id workspace_id, eq_iff a.clone_url req.clone_url)

module _ {W : Type 0} (s t : MemoryService W) where
  IsSame-IsSound : IsSame s t → IsSound s → IsSound t
  IsSame-IsSound same sound = record {
    owned = rw (same.workspaces, same.members) sound.owned;
    slugs = rw same.workspaces sound.slugs;
    sources = rw same.repositories sound.sources;
  }

  Created-IsSound : (user_id name : String) → Created user_id name s t → IsSound s → IsSound t
  Created-IsSound user_id name c sound = record {
    owned =
        rw (c.workspaces, c.members)
          (Owned-create s.workspaces s.members c.id name user_id c.now sound.owned);
    slugs = rw c.workspaces (
        Unlike-put SameSlug s.workspaces c.id _ (new_slug-apart name s.workspaces c.new_slug)
          (λ a. sym) sound.slugs);
    sources = rw c.repositories sound.sources;
  }

  Joined-IsSound :
      (user_id workspace_id target : String) (role : Role)
      → Joined user_id workspace_id target role s t
      → IsSound s
      → IsSound t
  Joined-IsSound user_id workspace_id target role j sound = record {
    owned =
        rw (j.workspaces, j.members)
          (Owned-join s.workspaces s.members workspace_id target _ j.is_new sound.owned);
    slugs = rw j.workspaces sound.slugs;
    sources = rw j.repositories sound.sources;
  }

  Connected-IsSound :
      (user_id workspace_id : String) (req : ConnectResourceRequest)
      → Connected user_id workspace_id req s t
      → IsSound s
      → IsSound t
  unfolding repository_duplicate_locked
  Connected-IsSound user_id workspace_id req c sound = record {
    owned = rw (c.workspaces, c.members) sound.owned;
    slugs = rw c.workspaces sound.slugs;
    sources = rw c.repositories (
        Unlike-put SameSource s.repositories c.id _
          (new_source-apart workspace_id req s.repositories c.is_new) (λ a e. (sym e.0, sym e.1))
          sound.sources);
  }

module _ {W : Type 0} (ctx : Option Error) (user_id : String) (s : MemoryService W) where
  -- Without a durable store, creating a workspace, adding a member and connecting a resource, whether
  -- they succeed or fail, keep it so that who made a workspace is an owner of it, that no two
  -- workspaces have the same slug, and that no workspace has two resources with the same clone URL.
  pub operations-IsSound :
      (name workspace_id target : String) (role : Role) (req : ConnectResourceRequest)
      → s.store ≡ none
      → IsSound s
      → IsSound (create_workspace ctx user_id name s).1
        × IsSound (add_member ctx user_id workspace_id target role s).1
        × IsSound (connect_resource ctx user_id workspace_id req s).1
  operations-IsSound name workspace_id target role req alone sound = (
    elim (create_workspace-outcome ctx user_id name s alone) [
      | inl same ↦ IsSame-IsSound s _ same sound
      | inr c ↦ Created-IsSound s _ user_id _ c sound
    ],
    elim (add_member-outcome ctx user_id workspace_id target role s alone) [
      | inl same ↦ IsSame-IsSound s _ same sound
      | inr (v, o, j) ↦ Joined-IsSound s _ user_id workspace_id _ role j sound
    ],
    elim (connect_resource-outcome ctx user_id workspace_id req s alone) [
      | inl same ↦ IsSame-IsSound s _ same sound
      | inr c ↦ Connected-IsSound s _ user_id workspace_id _ c sound
    ],
  )
