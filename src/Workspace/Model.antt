-- ===== src/Workspace/Model.antt =====
-- internal/workspace/models.go, service.go, policy.go and memory.go: the data, the state and the parts
-- that the operations share.
use runspace.Workspace.Policy.{Role, Action, allows}
use runspace.Workspace.Slug.{slugify}
use Prim.Native.String
use runspace.Prelude.{ℕ, ◌+◌, ◌%◌, String, Option, none, some, List, [], ltb, if◌then◌else◌}
use runspace.Text.{is_blank}
use runspace.Text.Decimal.{decimal, parse_uint64, after_underscore}
use runspace.Dict
use runspace.Dict.{Dict}
use runspace.Errors.{Result, ok, err, workspace_unauthorized, workspace_forbidden}
use runspace.Exec.{Exec, pure, gets, modify, ◌>>=◌, ◌>>◌}

pub record Workspace : Type 0 where
  pub id : String
  pub slug : String
  pub name : String
  pub created_by : String
  pub created_at : ℕ
  pub updated_at : ℕ

pub record Member : Type 0 where
  pub workspace_id : String
  pub user_id : String
  pub role : Role
  pub created_at : ℕ

pub record Resource : Type 0 where
  pub id : String
  pub workspace_id : String
  pub provider : String
  pub full_name : String
  pub clone_url : String
  pub default_branch : String
  pub created_by : String
  pub created_at : ℕ

pub record ConnectResourceRequest : Type 0 where
  pub provider : String
  pub full_name : String
  pub clone_url : String
  pub default_branch : String

-- A durable store, with the interfaces that it may implement besides. A listing may be nil.
pub record MembershipStore (W : Type 0) : Type 0 where
  pub can_read : String → String → Exec W (Unit {0})
  pub can_write : String → String → Exec W (Unit {0})

pub record Store (W : Type 0) : Type 0 where
  pub create_workspace_with_member : Workspace → Member → Exec W (Unit {0})
  pub list_workspaces : String → Exec W (Option (List Workspace))
  pub create_repository : Resource → Exec W (Unit {0})
  pub list_repositories : String → String → Exec W (Option (List Resource))
  pub membership : Option (MembershipStore W)
  pub list_members : Option (String → String → Exec W (Option (List Member)))
  pub create_member : Option (Member → Exec W (Unit {0}))
  pub get_workspace : Option (String → String → Exec W Workspace)

pub record MemoryService (W : Type 0) : Type 0 where
  pub clock : W → ℕ × W
  pub seq : ℕ
  pub workspaces : Dict Workspace
  pub members : Dict (Dict Member)
  pub repositories : Dict Resource
  pub store : Option (Store W)
  pub graph : Option (Resource → Exec W (Unit {0}))
  pub world : W

abbrev pub user_error : String → Result (Unit {0})
user_error user_id = if is_blank user_id then err workspace_unauthorized else ok tt

abbrev pub next_seq : ℕ → ℕ
next_seq n = (n + 1) % 18446744073709551616

-- A missing key reads as the nil map.
abbrev pub or_no_members : Option (Dict Member) → Dict Member
or_no_members none = Dict.empty
or_no_members (some ms) = ms

abbrev pub role_error : Option Member → Action → Result (Unit {0})
role_error none action = err workspace_forbidden
role_error (some m) action = if allows m.role action then ok tt else err workspace_forbidden

abbrev pub zero_workspace : Workspace
zero_workspace = record {
  id = "";
  slug = "";
  name = "";
  created_by = "";
  created_at = 0;
  updated_at = 0;
}

abbrev pub or_zero_workspace : Option Workspace → Workspace
or_zero_workspace none = zero_workspace
or_zero_workspace (some ws) = ws

abbrev pub made_workspace : String → String → String → ℕ → Workspace
made_workspace id name user_id now = record {
  id = id;
  slug = slugify name;
  name = name;
  created_by = user_id;
  created_at = now;
  updated_at = now;
}

abbrev pub made_member : String → String → Role → ℕ → Member
made_member workspace_id user_id role now = record {
  workspace_id = workspace_id;
  user_id = user_id;
  role = role;
  created_at = now;
}

-- The number behind the first `_` of an id, where there is one, raises the sequence.
abbrev pub parse_suffix : Option String → Option ℕ
parse_suffix none = none
parse_suffix (some text) = parse_uint64 text

abbrev pub raise : ℕ → Option ℕ → ℕ
raise seq none = seq
raise seq (some value) = if ltb seq value then value else seq

abbrev pub raised_seq : ℕ → String → ℕ
raised_seq seq id = raise seq (parse_suffix (after_underscore id))

abbrev pub or_nil {ℓ} : {A : Type ℓ} → Option (List A) → List A
or_nil none = []
or_nil (some xs) = xs

module _ {W : Type 0} where
  abbrev pub new_memory_service : (W → ℕ × W) → W → MemoryService W
  new_memory_service clock world = record {
    clock = clock;
    seq = 0;
    workspaces = Dict.empty;
    members = Dict.empty;
    repositories = Dict.empty;
    store = none;
    graph = none;
    world = world;
  }

  abbrev pub set_store : Option (Store W) → MemoryService W → MemoryService W
  set_store store s = record s { store = store }

  abbrev pub set_graph_projector :
      Option (Resource → Exec W (Unit {0})) → MemoryService W → MemoryService W
  set_graph_projector graph s = record s { graph = graph }

  abbrev pub members_of : String → MemoryService W → Dict Member
  members_of workspace_id s = or_no_members (Dict.get s.members workspace_id)

  abbrev pub member_of : String → String → MemoryService W → Option Member
  member_of workspace_id user_id s = Dict.get (members_of workspace_id s) user_id

  -- A call of the store or the projector, and its error as a value.
  abbrev pub call : {A : Type 0} → Exec W A → Exec (MemoryService W) A
  call m s = let (r, w) = m s.world in (r, record s { world = w })

  abbrev pub try_call : {A : Type 0} → Exec W A → Exec (MemoryService W) (Result A)
  try_call m s = let (r, w) = m s.world in (ok r, record s { world = w })

  abbrev pub read_clock : Exec (MemoryService W) ℕ
  read_clock s = let (t, w) = s.clock s.world in (ok t, record s { world = w })

  unfoldable pub authorize_locked : String → String → Action → Exec (MemoryService W) (Unit {0})
  authorize_locked workspace_id user_id action s =
      (role_error (member_of workspace_id user_id s) action, s)

  unfoldable pub next_id : String → Exec (MemoryService W) String
  next_id prefix = do
    modify (λ s. record s { seq = next_seq s.seq })
    n ← gets (λ s. s.seq)
    pure (String.◌++◌ prefix (String.◌++◌ "_" (decimal n)))
