-- ===== src/Workspace/Tests.antt =====
-- Concrete runs of the workspace service.

use runspace.Prelude.{ℕ, ◌+◌, ◌≡◌, ◌⊎◌, refl, true, false, none, some, [], ◌∷◌}
use runspace.Text.{trim_space, is_blank}
use runspace.Dict
use runspace.Dict.{Dict}
use runspace.Errors.{ok}
use runspace.Workspace.Policy.{Role, Action, allows, is_valid, is_owner}
use runspace.Workspace.{
  Workspace, ConnectResourceRequest, Store, MemoryService, new_memory_service, made_member,
  create_workspace, list_workspaces,
}
use runspace.Workspace.Members.{add_member, can_write}
use runspace.Workspace.Resources.{connect_resource, normalized_repository_request}
use runspace.Workspace.Outcomes.{IsSame}
use runspace.Workspace.Outcomes.Joining.{Joined, add_member-outcome}
use runspace.Workspace.Outcomes.Connecting.{Connected, connect_resource-outcome}
use runspace.Workspace.Invariant.{IsSound, operations-IsSound}
use runspace.Workspace.Authority.{May}
use runspace.Workspace.Effects.{list_workspaces-can_write}

abbrev fresh : MemoryService ℕ
fresh = new_memory_service (λ w. (w + 1, w + 1)) 4

fresh-IsSound : IsSound fresh
unfolding Dict.get Dict.empty
fresh-IsSound = record {
  owned = λ id ws h. absurd (cc);
  slugs = λ i j a b at_i at_j same. absurd (cc);
  sources = λ i j a b at_i at_j same. absurd (cc);
}

abbrev request : ConnectResourceRequest
request = record {
  provider = "github";
  full_name = "a/b";
  clone_url = "https://example.org/a/b";
  default_branch = "main";
}

add_member-outcome_example :
    IsSame fresh (add_member none "u" "ws_1" "v" Role.member fresh).1
    ⊎ ((is_valid Role.member ≡ true)
        × (is_owner Role.member ≡ false)
        × Joined "u" "ws_1"
            (trim_space "v")
            Role.member
            fresh
            (add_member none "u" "ws_1" "v" Role.member fresh).1)
add_member-outcome_example = add_member-outcome none "u" "ws_1" "v" Role.member fresh refl

connect_resource-outcome_example :
    IsSame fresh (connect_resource none "u" "ws_1" request fresh).1
    ⊎ Connected "u" "ws_1"
        (normalized_repository_request request)
        fresh
        (connect_resource none "u" "ws_1" request fresh).1
connect_resource-outcome_example = connect_resource-outcome none "u" "ws_1" request fresh refl

operations-IsSound_example :
    IsSound (create_workspace none "u" "app" fresh).1
    × IsSound (add_member none "u" "ws_1" "v" Role.member fresh).1
    × IsSound (connect_resource none "u" "ws_1" request fresh).1
operations-IsSound_example =
    operations-IsSound none "u" fresh "app" "ws_1" "v" Role.member request refl fresh-IsSound

abbrev other_workspace : Workspace
other_workspace = record {
  id = "ws_1";
  slug = "app";
  name = "app";
  created_by = "u";
  created_at = 2;
  updated_at = 2;
}

-- A durable store in which "v" is listed the workspace of "u".
abbrev store : Store ℕ
store = record {
  create_workspace_with_member = λ ws m w. (ok tt, w);
  list_workspaces = λ user w. (ok (some (other_workspace ∷ [])), w);
  create_repository = λ r w. (ok tt, w);
  list_repositories = λ user ws w. (ok none, w);
  membership = none;
  list_members = none;
  create_member = none;
  get_workspace = none;
}

abbrev viewed : MemoryService ℕ
viewed = record fresh {
  store = some store;
  workspaces = Dict.put Dict.empty "ws_1" other_workspace;
  members =
      Dict.put Dict.empty "ws_1" (Dict.put Dict.empty "v" (made_member "ws_1" "v" Role.viewer 3));
}

list_workspaces-can_write_example :
    (can_write none "ws_1" "v" (list_workspaces none "v" viewed).1).0 ≡ ok tt
unfolding is_blank trim_space
list_workspaces-can_write_example =
    list_workspaces-can_write "v" viewed store other_workspace 4 refl refl refl

abbrev peopled : MemoryService ℕ
peopled = record fresh {
  workspaces = Dict.put Dict.empty "ws_1" other_workspace;
  members =
      Dict.put Dict.empty "ws_1" (Dict.put Dict.empty "u" (made_member "ws_1" "u" Role.owner 2));
}

peopled-May : May peopled "ws_1" "u" Action.connect_resource
unfolding Dict.get Dict.put Dict.empty allows
peopled-May = record { member = made_member "ws_1" "u" Role.owner 2; joined = refl; allowed = refl }
