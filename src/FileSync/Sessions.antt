-- ===== src/FileSync/Sessions.antt =====
-- internal/filesync/service.go: what Register and Status leave behind.
use Prim.Native.String
use runspace.Prelude.{
  ◌≡◌, refl, ap, ◌∙◌, ◌⊎◌, inl, inr, String, Bool, true, false, not, List, [], ◌∷◌, Bool-cases, In,
  arith, ◌==◌, ◌&&◌, eq_iff,
}
use runspace.Text.{trim_space}
use runspace.Dict
use runspace.Dict.{Dict, get-put}
use runspace.Errors.{
  Error, Result, ok, err, Result-cases, filesync_invalid_input, filesync_not_found,
}
use runspace.Exec.{Exec, continue, pure, fail_if, bind-within, ◌>>=◌}
use runspace.Workspace.Model.{Resource}
use runspace.FileSync.Model.{
  RegisterRequest, Session, Service, is_mirror_repository, valid_register_request, session_key,
  folder_id, valid_branch_name, Device, compact, mirror_ignore_patterns, is_mirror_provider,
}
use runspace.FileSync.{
  call, git_init, init_missing, initialize_repository, initialize_if, folder_status, prepare, share,
  new_session, register_mirror, register, or_main, mirror_folder,
}

abbrev device_of : RegisterRequest → Device
device_of request = record {
  id = request.device_id;
  name = request.device_name;
  addresses = compact request.addresses;
}

-- The session of a request.
pub record IsOf (workspace_id repository_id : String) (x : Session) : Type 0 where
  pub id : x.id ≡ session_key workspace_id repository_id
  pub workspace : x.workspace_id ≡ workspace_id
  pub repository : x.repository_id ≡ repository_id
  pub folder : x.folder_id ≡ folder_id workspace_id repository_id

is_mirror_repository-In :
    (repository_id : String) (repositories : List Resource)
    → is_mirror_repository repositories repository_id ≡ true
    → (r : Resource) × In r repositories
      × (r.id ≡ repository_id)
      × ((r.provider ≡ "mirror") ⊎ (r.provider ≡ "folder"))
unfolding is_mirror_repository
is_mirror_repository-In repository_id [] h = absurd (ground (arith, h))
is_mirror_repository-In repository_id (r ∷ rs) h =
    elim (Bool-cases (r.id == repository_id && is_mirror_provider r.provider)) [
      | inl here ↦ (
        r,
        inl refl,
        (eq_iff r.id repository_id).0 (ground (arith, here)),
        elim (Bool-cases (r.provider == "mirror")) [
          | inl mirror ↦ inl ((eq_iff r.provider "mirror").0 mirror)
          | inr other ↦ inr ((eq_iff r.provider "folder").0 (ground (arith, here, other)))
        ],
      )
      | inr elsewhere ↦
          let (q, there, same, kind) =
            is_mirror_repository-In repository_id rs (ground (arith, h, elsewhere)) in
          (q, inr there, same, kind)
    ]

module _ {W : Type 0} where
  abbrev pub SameSessions : Service W → Service W → Type 0
  SameSessions s t = t.sessions ≡ s.sessions

  abbrev pub IsQuiet : {A : Type 0} → Exec (Service W) A → Type 0
  IsQuiet m = (s : Service W) → SameSessions s (m s).1

  pub bind-IsQuiet :
      {A B : Type 0} (m : Exec (Service W) A) (f : A → Exec (Service W) B)
      → IsQuiet m
      → ((a : A) → IsQuiet (f a))
      → IsQuiet (m >>= f)
  bind-IsQuiet m f = bind-within SameSessions m f (λ s t u p q. q ∙ p)

  call-IsQuiet : {A : Type 0} (m : Service W → Exec W A) → IsQuiet (call m)
  call-IsQuiet m s = refl

  pub fail_if-IsQuiet : (b : Bool) (e : Error) → IsQuiet (fail_if b e)
  fail_if-IsQuiet true e s = refl
  fail_if-IsQuiet false e s = refl

  init_missing-IsQuiet :
      (root branch : String) (there : Bool) → IsQuiet (init_missing root branch there)
  init_missing-IsQuiet root branch true = λ s. refl
  init_missing-IsQuiet root branch false =
      bind-IsQuiet (fail_if (not (valid_branch_name branch)) filesync_invalid_input)
        (λ _. git_init branch root)
        (fail_if-IsQuiet (not (valid_branch_name branch)) filesync_invalid_input) (λ _ s. refl)

  initialize_if-IsQuiet :
      (git : Bool) (root branch : String) → IsQuiet (initialize_if git root branch)
  unfolding initialize_repository
  initialize_if-IsQuiet false root branch = λ s. refl
  initialize_if-IsQuiet true root branch =
      bind-IsQuiet
        (call (λ s w. let (b, w') = s.system.exists (String.◌++◌ root "/.git") w in (ok b, w')))
        (init_missing root (or_main (trim_space branch))) (λ s. refl)
        (init_missing-IsQuiet root (or_main (trim_space branch)))

  prepare-IsQuiet : (request : RegisterRequest) → IsQuiet (prepare request)
  unfolding prepare
  prepare-IsQuiet request =
      bind-IsQuiet (call (λ s. s.root request.workspace_id request.repository_id)) _ (λ s. refl)
        (λ root.
          bind-IsQuiet (call (λ s. s.system.mkdir_all root)) _ (λ s. refl)
            (λ _.
              bind-IsQuiet (call (λ s. s.system.chmod root)) _ (λ s. refl)
                (λ _.
                  bind-IsQuiet (initialize_if request.git root request.branch) (λ _. pure root)
                    (initialize_if-IsQuiet request.git root request.branch) (λ _ s. refl))))

  share-IsQuiet : (request : RegisterRequest) (root : String) → IsQuiet (share request root)
  unfolding share
  share-IsQuiet request root =
      bind-IsQuiet (call (λ s. s.engine.device_id)) _ (λ s. refl)
        (λ gateway_id.
          bind-IsQuiet (call (λ s. s.engine.upsert_device (device_of request))) _ (λ s. refl)
            (λ _.
              bind-IsQuiet (call (λ s. s.engine.upsert_folder (mirror_folder request root))) _
                (λ s. refl)
                (λ _.
                  bind-IsQuiet
                    (call (λ s.
                      s.engine.set_ignores (folder_id request.workspace_id request.repository_id)
                        mirror_ignore_patterns))
                    (λ _. pure gateway_id) (λ s. refl) (λ _ s. refl))))

  pub folder_status-IsQuiet : (state folder : String) → IsQuiet (folder_status state folder)
  unfolding folder_status
  folder_status-IsQuiet state folder s = refl

  -- A failure leaves the sessions as they are; a success puts in the session that is given back.
  data Outcome (P : Session → Type 0) (s : Service W) (r : Result Session × Service W)
      : Type 0 where
    failed : (e : Error) → r.0 ≡ err e → SameSessions s r.1 → Outcome P s r
    made :
        (x : Session) → r.0 ≡ ok x → P x → r.1.sessions ≡ Dict.put s.sessions x.id x → Outcome P s r

  later-Outcome :
      (P : Session → Type 0) (s t : Service W) (r : Result Session × Service W)
      → SameSessions s t
      → Outcome P t r
      → Outcome P s r
  later-Outcome P s t r same (failed e h q) = failed e h (q ∙ same)
  later-Outcome P s t r same (made x h p q) = made x h p (q ∙ ap (λ d. Dict.put d x.id x) same)

  bind-Outcome :
      {A : Type 0} (P : Session → Type 0) (m : Exec (Service W) A)
      (f : A → Exec (Service W) Session)
      → IsQuiet m
      → ((a : A) (s : Service W) → Outcome P s (f a s))
      → (s : Service W) → Outcome P s ((m >>= f) s)
  bind-Outcome P m f quiet rest s = from (m s).0 (m s).1 (quiet s)
    where
      from : (r : Result _) (t : Service W) → SameSessions s t → Outcome P s (continue r f t)
      from (ok a) t same = later-Outcome P s t (f a t) same (rest a t)
      from (err e) t same = failed e refl same

  register_mirror-Outcome :
      (request : RegisterRequest) (s : Service W)
      → Outcome (IsOf request.workspace_id request.repository_id) s (register_mirror request s)
  unfolding register_mirror
  register_mirror-Outcome request =
      bind-Outcome P (prepare request) _ (prepare-IsQuiet request) (λ root.
        bind-Outcome P (share request root) _ (share-IsQuiet request root) (λ gateway_id.
          bind-Outcome P
            (folder_status "starting" (folder_id request.workspace_id request.repository_id)) _
            (folder_status-IsQuiet "starting"
              (folder_id request.workspace_id request.repository_id))
            (λ status s.
              made
                (new_session request gateway_id s.gateway_addresses status (s.system.now s.world).0)
                refl (record { id = refl; workspace = refl; repository = refl; folder = refl })
                refl)))
    where
      P : Session → Type 0
      P = IsOf request.workspace_id request.repository_id

  pub record Registered (s : Service W) (request : RegisterRequest) (x : Session) (t : Service W)
      : Type 0 where
    pub valid : valid_register_request request ≡ true
    pub permitted : (s.workspaces.can_write request.workspace_id request.user_id s.world).0 ≡ ok tt
    pub mirror :
        (repositories : List Resource) × (w : W) × ((s.workspaces.list_repositories request.user_id
            request.workspace_id w).0
          ≡ ok repositories)
        × ((r : Resource) × In r repositories
            × (r.id ≡ request.repository_id)
            × ((r.provider ≡ "mirror") ⊎ (r.provider ≡ "folder")))
    pub session : IsOf request.workspace_id request.repository_id x
    pub sessions : t.sessions ≡ Dict.put s.sessions x.id x

  -- Registering fails and leaves the sessions as they are, or the request is valid, the caller may
  -- write to the workspace, a repository with the requested id and the provider mirror or folder is
  -- listed in it, and the session that is given back is the request's and is put in under its id.
  pub register-outcome :
      (request : RegisterRequest) (s : Service W)
      → let (r, t) = register request s in
        ((e : Error) × (r ≡ err e) × (t.sessions ≡ s.sessions))
        ⊎ ((x : Session) × (r ≡ ok x) × Registered s request x t)
  unfolding register
  register-outcome request s = elim (Bool-cases (valid_register_request request)) [
    | inr invalid ↦ rw invalid (inl (filesync_invalid_input, refl, refl))
    | inl valid ↦ elim (Result-cases asked.0) [
      | inr (e, denied) ↦ rw (valid, denied) (inl (e, refl, refl))
      | inl (_, permitted) ↦ elim (Result-cases listed.0) [
        | inr (e, unknown) ↦ rw (valid, permitted, unknown) (inl (e, refl, refl))
        | inl (repositories, known) ↦
            elim (Bool-cases (is_mirror_repository repositories request.repository_id)) [
              | inr other ↦
                  rw (valid, permitted, known, other) (inl (filesync_not_found, refl, refl))
              | inl mirror ↦
                  rw (valid, permitted, known, mirror)
                    (elim (register_mirror-Outcome request (record s { world = listed.1 })) [
                      | failed e h same ↦ inl (e, h, same)
                      | made x h of put ↦ inr (
                        x,
                        h,
                        record {
                          valid = valid;
                          permitted = permitted;
                          mirror = (
                            repositories,
                            asked.1,
                            known,
                            is_mirror_repository-In request.repository_id repositories mirror,
                          );
                          session = of;
                          sessions = put;
                        },
                      )
                    ])
            ]
      ]
    ]
  ]
    where
      asked : Result (Unit {0}) × W
      asked = s.workspaces.can_write request.workspace_id request.user_id s.world

      listed : Result (List Resource) × W
      listed = s.workspaces.list_repositories request.user_id request.workspace_id asked.1
