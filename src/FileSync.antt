-- ===== src/FileSync.antt =====
-- internal/filesync/service.go: the methods of the service.
pub mod Model
pub mod Sessions
pub mod Filed
mod Tests
use Prim.Native.String
use runspace.Prelude.{
  ℕ, String, Bool, true, false, not, Option, none, some, List, [], ◌∷◌, is_empty, if◌then◌else◌,
}
use runspace.Text.{trim_space}
use runspace.Dict
use runspace.Dict.{Dict}
use runspace.Errors.{Error, Result, ok, err, message, filesync_invalid_input, filesync_not_found}
use runspace.Exec.{Exec, pure, fail, gets, modify, attempt, fail_if, ◌>>=◌, ◌>>◌}
use Model.{
  RegisterRequest, FolderStatus, Session, Service, Device, Folder, compact, is_mirror_repository,
  valid_register_request, session_key, folder_id, mirror_ignore_patterns, valid_branch_name,
}

abbrev pub failed_status : String → String → FolderStatus
failed_status state error = record {
  state = state;
  error = error;
  local_files = 0;
  need_files = 0;
  need_bytes = 0;
}

abbrev pub or_main : String → String
or_main branch = if is_empty branch then "main" else branch

abbrev pub git_result : Option String → Result (Unit {0})
git_result none = ok tt
git_result (some output) =
    err (message (String.◌++◌ "initialize mirror repository: " (trim_space output)))

abbrev pub status_or : String → (Error → String) → Result FolderStatus → FolderStatus
status_or state error_text (ok status) = status
status_or state error_text (err e) = failed_status state (error_text e)

unfoldable pub mirror_folder : RegisterRequest → String → Folder
mirror_folder request root = record {
  id = folder_id request.workspace_id request.repository_id;
  label = request.repository_id;
  path = root;
  type = "sendreceive";
  fs_watcher_enabled = true;
  fs_watcher_delay_s = 1;
  ignore_perms = true;
  devices = request.device_id ∷ [];
}

abbrev pub new_session : RegisterRequest → String → List String → FolderStatus → ℕ → Session
new_session request gateway_id addresses status now = record {
  id = session_key request.workspace_id request.repository_id;
  workspace_id = request.workspace_id;
  repository_id = request.repository_id;
  folder_id = folder_id request.workspace_id request.repository_id;
  host_device_id = request.device_id;
  gateway_device_id = gateway_id;
  gateway_addresses = addresses;
  status = status;
  created_at = now;
}

module _ {W : Type 0} where
  -- A call of something outside.
  abbrev pub call : {A : Type 0} → (Service W → Exec W A) → Exec (Service W) A
  call m s = let (r, w) = m s s.world in (r, record s { world = w })

  abbrev pub git_init : String → String → Exec (Service W) (Unit {0})
  git_init branch root =
      call (λ s w. let (output, w') = s.system.git_init branch root w in (git_result output, w'))

  abbrev pub init_missing : String → String → Bool → Exec (Service W) (Unit {0})
  init_missing root branch true = pure tt
  init_missing root branch false = do
    fail_if (not (valid_branch_name branch)) filesync_invalid_input
    git_init branch root

  unfoldable pub initialize_repository : String → String → Exec (Service W) (Unit {0})
  initialize_repository root branch = do
    there ← call (λ s w. let (b, w') = s.system.exists (String.◌++◌ root "/.git") w in (ok b, w'))
    init_missing root (or_main (trim_space branch)) there

  abbrev pub initialize_if : Bool → String → String → Exec (Service W) (Unit {0})
  initialize_if true root branch = initialize_repository root branch
  initialize_if false root branch = pure tt

  -- The status of a folder; an error of the engine is told in it.
  unfoldable pub folder_status : String → String → Exec (Service W) FolderStatus
  folder_status state folder = do
    r ← attempt (call (λ s. s.engine.status folder))
    error_text ← gets (λ s. s.system.error_text)
    pure (status_or state error_text r)

  abbrev pub put_session : Session → Exec (Service W) Session
  put_session session = do
    modify (λ s. record s { sessions = Dict.put s.sessions session.id session })
    pure session

  -- The directory and its repository.
  unfoldable pub prepare : RegisterRequest → Exec (Service W) String
  prepare request = do
    root ← call (λ s. s.root request.workspace_id request.repository_id)
    call (λ s. s.system.mkdir_all root)
    call (λ s. s.system.chmod root)
    initialize_if request.git root request.branch
    pure root

  -- What the engine is told: it gives back its own id.
  unfoldable pub share : RegisterRequest → String → Exec (Service W) String
  share request root = do
    gateway_id ← call (λ s. s.engine.device_id)
    call (λ s. s.engine.upsert_device (record {
      id = request.device_id;
      name = request.device_name;
      addresses = compact request.addresses;
    }))
    call (λ s. s.engine.upsert_folder (mirror_folder request root))
    call (λ s.
        s.engine.set_ignores (folder_id request.workspace_id request.repository_id)
          mirror_ignore_patterns)
    pure gateway_id

  unfoldable pub register_mirror : RegisterRequest → Exec (Service W) Session
  register_mirror request = do
    root ← prepare request
    gateway_id ← share request root
    status ← folder_status "starting" (folder_id request.workspace_id request.repository_id)
    now ← call (λ s w. let (t, w') = s.system.now w in (ok t, w'))
    addresses ← gets (λ s. s.gateway_addresses)
    put_session (new_session request gateway_id addresses status now)

  unfoldable pub register : RegisterRequest → Exec (Service W) Session
  register request = do
    fail_if (not (valid_register_request request)) filesync_invalid_input
    call (λ s. s.workspaces.can_write request.workspace_id request.user_id)
    repositories ← call (λ s. s.workspaces.list_repositories request.user_id request.workspace_id)
    fail_if (not (is_mirror_repository repositories request.repository_id)) filesync_not_found
    register_mirror request

  unfoldable pub make_session : String → String → String → Exec (Service W) Session
  make_session user_id workspace_id repository_id = do
    repositories ← call (λ s. s.workspaces.list_repositories user_id workspace_id)
    fail_if (not (is_mirror_repository repositories repository_id)) filesync_not_found
    gateway_id ← call (λ s. s.engine.device_id)
    addresses ← gets (λ s. s.gateway_addresses)
    pure (record {
      id = session_key workspace_id repository_id;
      workspace_id = workspace_id;
      repository_id = repository_id;
      folder_id = folder_id workspace_id repository_id;
      host_device_id = "";
      gateway_device_id = gateway_id;
      gateway_addresses = addresses;
      status = failed_status "" "";
      created_at = 0;
    })

  abbrev pub or_make : String → String → String → Option Session → Exec (Service W) Session
  or_make user_id workspace_id repository_id (some session) = pure session
  or_make user_id workspace_id repository_id none = make_session user_id workspace_id repository_id

  unfoldable pub put_status : String → Session → Exec (Service W) Session
  put_status key session = do
    status ← folder_status "error" session.folder_id
    let current : Session = record session { status = status }
    modify (λ s. record s { sessions = Dict.put s.sessions key current })
    pure current

  unfoldable pub status : String → String → String → Exec (Service W) Session
  status user_id workspace_id repository_id = do
    call (λ s. s.workspaces.can_write workspace_id user_id)
    let key = session_key workspace_id repository_id
    found ← gets (λ s. Dict.get s.sessions key)
    session ← or_make user_id workspace_id repository_id found
    put_status key session
