-- ===== src/FileSync/Tests.antt =====
-- Concrete runs of the synchronisation service.
use runspace.Text.{has_prefix}
use runspace.Prelude.{ℕ, ◌+◌, ◌≡◌, refl, ◌⊎◌, true, false, none, List, [], ◌∷◌}
use runspace.Dict
use runspace.Dict.{get-empty}
use runspace.Errors.{Error, ok, err}
use runspace.Workspace.Model.{Resource}
use runspace.FileSync.Model.{
  RegisterRequest, FolderStatus, Session, WorkspaceService, Engine, System, Service,
  valid_branch_name, has_dots, has_bad_character,
}
use runspace.FileSync.{register}
use runspace.FileSync.Sessions.{Registered, register-outcome}
use runspace.FileSync.Filed.{
  Call, register_folder, ask_status, serve_all, AllFiled, serve_all-AllFiled,
}

abbrev repository : Resource
repository = record {
  id = "repo_1";
  workspace_id = "w";
  provider = "mirror";
  full_name = "notes";
  clone_url = "";
  default_branch = "main";
  created_by = "u";
  created_at = 0;
}

abbrev idle : FolderStatus
idle = record { state = "idle"; error = ""; local_files = 0; need_files = 0; need_bytes = 0 }

abbrev workspaces : WorkspaceService ℕ
workspaces = record {
  can_write = λ workspace_id user_id w. (ok tt, w);
  list_repositories = λ user_id workspace_id w. (ok (repository ∷ []), w);
}

abbrev engine : Engine ℕ
engine = record {
  device_id = λ w. (ok "gateway", w);
  upsert_device = λ device w. (ok tt, w);
  upsert_folder = λ folder w. (ok tt, w);
  set_ignores = λ folder patterns w. (ok tt, w);
  status = λ folder w. (ok idle, w + 1);
}

abbrev system : System ℕ
system = record {
  mkdir_all = λ path w. (ok tt, w);
  chmod = λ path w. (ok tt, w);
  exists = λ path w. (false, w);
  git_init = λ branch root w. (none, w + 1);
  now = λ w. (w, w);
  error_text = λ e. "";
}

abbrev gateway : Service ℕ
gateway = record {
  workspaces = workspaces;
  root = λ workspace_id repository_id w. (ok "/data/repo_1", w);
  engine = engine;
  system = system;
  gateway_addresses = [];
  sessions = Dict.empty;
  world = 3;
}

abbrev request : RegisterRequest
request = record {
  user_id = "u";
  workspace_id = "w";
  repository_id = "repo_1";
  device_id = "host";
  device_name = "a host";
  addresses = "tcp://host" ∷ [];
  branch = " main ";
  git = true;
}

register-outcome_example :
    let (r, t) = register request gateway in
    ((e : Error) × (r ≡ err e) × (t.sessions ≡ gateway.sessions))
    ⊎ ((x : Session) × (r ≡ ok x) × Registered gateway request x t)
register-outcome_example = register-outcome request gateway

branches : (valid_branch_name "feature/a" ≡ true) × (valid_branch_name "a..b" ≡ false)
unfolding valid_branch_name has_prefix has_dots has_bad_character
branches = (refl, refl)

abbrev calls : List Call
calls = register_folder request ∷ ask_status "u" "w" "repo_1" ∷ ask_status "u" " w" "repo_1" ∷ []

gateway-AllFiled : AllFiled gateway
gateway-AllFiled key x there = absurd (cc (there, get-empty key))

serve_all-AllFiled_example : AllFiled (serve_all calls gateway)
serve_all-AllFiled_example = serve_all-AllFiled calls gateway gateway-AllFiled
