-- ===== src/FileSync/Model.antt =====
-- internal/filesync/service.go and syncthing.go: the data of the sessions that keep a folder of a host
-- in step with the gateway, and what the service calls. `W` is the state of all that lies outside.
use Prim.Native.Char.{Char, code}
use Prim.Native.String
use runspace.Prelude.{
  ℕ, String, Bool, true, false, not, ◌&&◌, ◌||◌, Option, List, [], ◌∷◌, is_empty, eqb, ltb, ◌==◌,
  some_of, if◌then◌else◌,
}
use runspace.Text.{trim_space, is_blank, has_prefix}
use runspace.Dict
use runspace.Dict.{Dict}
use runspace.Errors.{Error}
use runspace.Exec.{Exec}
use runspace.Workspace.Model.{Resource}

pub record RegisterRequest : Type 0 where
  pub user_id : String
  pub workspace_id : String
  pub repository_id : String
  pub device_id : String
  pub device_name : String
  pub addresses : List String
  pub branch : String
  pub git : Bool

pub record FolderStatus : Type 0 where
  pub state : String
  pub error : String
  pub local_files : ℕ
  pub need_files : ℕ
  pub need_bytes : ℕ

-- A time of 0 is the zero time.
pub record Session : Type 0 where
  pub id : String
  pub workspace_id : String
  pub repository_id : String
  pub folder_id : String
  pub host_device_id : String
  pub gateway_device_id : String
  pub gateway_addresses : List String
  pub status : FolderStatus
  pub created_at : ℕ

pub record Device : Type 0 where
  pub id : String
  pub name : String
  pub addresses : List String

-- The folder's devices are known by their ids.
pub record Folder : Type 0 where
  pub id : String
  pub label : String
  pub path : String
  pub type : String
  pub fs_watcher_enabled : Bool
  pub fs_watcher_delay_s : ℕ
  pub ignore_perms : Bool
  pub devices : List String

pub record WorkspaceService (W : Type 0) : Type 0 where
  pub can_write : String → String → Exec W (Unit {0})
  pub list_repositories : String → String → Exec W (List Resource)

pub record Engine (W : Type 0) : Type 0 where
  pub device_id : Exec W String
  pub upsert_device : Device → Exec W (Unit {0})
  pub upsert_folder : Folder → Exec W (Unit {0})
  pub set_ignores : String → List String → Exec W (Unit {0})
  pub status : String → Exec W FolderStatus

-- os.MkdirAll, os.Chmod, os.Stat without an error, `git init` with its branch and directory, which
-- gives its output where it fails, time.Now, and the text of an error.
pub record System (W : Type 0) : Type 0 where
  pub mkdir_all : String → Exec W (Unit {0})
  pub chmod : String → Exec W (Unit {0})
  pub exists : String → W → Bool × W
  pub git_init : String → String → W → Option String × W
  pub now : W → ℕ × W
  pub error_text : Error → String

pub record Service (W : Type 0) : Type 0 where
  pub workspaces : WorkspaceService W
  pub root : String → String → Exec W String
  pub engine : Engine W
  pub system : System W
  pub gateway_addresses : List String
  pub sessions : Dict Session
  pub world : W

unfoldable pub compact : List String → List String
compact [] = []
compact (value ∷ values) =
    let rest = compact values in if is_blank value then rest else trim_space value ∷ rest

-- The interfaces are there.
unfoldable pub new_service :
    {W : Type 0}
    → WorkspaceService W
    → (String → String → Exec W String)
    → Engine W
    → System W
    → List String
    → W
    → Service W
new_service workspaces root engine system gateway_addresses world = record {
  workspaces = workspaces;
  root = root;
  engine = engine;
  system = system;
  gateway_addresses = compact gateway_addresses;
  sessions = Dict.empty;
  world = world;
}

abbrev pub is_mirror_provider : String → Bool
is_mirror_provider provider = provider == "mirror" || provider == "folder"

unfoldable pub is_mirror_repository : List Resource → String → Bool
is_mirror_repository repositories repository_id =
    some_of (λ r. r.id == repository_id && is_mirror_provider r.provider) repositories

abbrev pub no_addresses : List String → Bool
no_addresses [] = true
no_addresses (a ∷ as') = false

unfoldable pub valid_register_request : RegisterRequest → Bool
valid_register_request request =
    not (is_blank request.user_id)
    && not (is_blank request.workspace_id)
    && not (is_blank request.repository_id)
    && not (is_blank request.device_id)
    && not (no_addresses (compact request.addresses))

unfoldable pub session_key : String → String → String
session_key workspace_id repository_id =
    String.◌++◌ (trim_space workspace_id) (String.◌++◌ ":" (trim_space repository_id))

unfoldable pub folder_id : String → String → String
folder_id workspace_id repository_id =
    String.◌++◌ "runspace-"
      (String.◌++◌ (trim_space workspace_id) (String.◌++◌ "-" (trim_space repository_id)))

abbrev ignored_names : List String
ignored_names = ".git" ∷ "node_modules" ∷ ".pnpm-store" ∷ ".next" ∷ ".cache" ∷ "test-results" ∷ []

abbrev patterns_of : List String → List String
patterns_of [] = []
patterns_of (name ∷ names) =
    String.◌++◌ "(?d)" name
    ∷ String.◌++◌ "(?d)" (String.◌++◌ name "/**")
    ∷ String.◌++◌ "(?d)**/" name
    ∷ String.◌++◌ "(?d)**/" (String.◌++◌ name "/**")
    ∷ patterns_of names

unfoldable pub mirror_ignore_patterns : List String
mirror_ignore_patterns = patterns_of ignored_names

-- strings.ContainsAny(branch, " ~^:?*[\\") and the loop over the characters
abbrev pub bad_character : Char → Bool
bad_character c =
    some_of (λ n. eqb (code c) n) (32 ∷ 126 ∷ 94 ∷ 58 ∷ 63 ∷ 42 ∷ 91 ∷ 92 ∷ [])
    || ltb (code c) 32
    || eqb (code c) 127

unfoldable pub has_bad_character : String → Bool
has_bad_character String.[] = false
has_bad_character (String.◌∷◌ c s) = bad_character c || has_bad_character s

-- strings.Contains(s, "..")
unfoldable pub has_dots : String → Bool
has_dots String.[] = false
has_dots (String.◌∷◌ c s) = has_prefix (String.◌∷◌ c s) ".." || has_dots s

-- strings.HasSuffix(s, ".") or strings.HasSuffix(s, "/")
abbrev pub ends_badly : String → Bool
ends_badly String.[] = false
ends_badly (String.◌∷◌ c s) =
    let rest = ends_badly s in if is_empty s then eqb (code c) 46 || eqb (code c) 47 else rest

unfoldable pub valid_branch_name : String → Bool
valid_branch_name branch =
    not (has_prefix branch "-" || has_dots branch || ends_badly branch || has_bad_character branch)
