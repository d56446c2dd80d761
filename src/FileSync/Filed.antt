-- ===== src/FileSync/Filed.antt =====
-- internal/filesync/service.go: any sequence of calls of the service, and where sessions stand.
use runspace.Prelude.{
  ◌≡◌, refl, sym, ap, ◌∙◌, inl, inr, subst, String, Bool, not, Option, none, some, List, [], ◌∷◌,
  ◌==◌, eq_iff, if◌then◌else◌, true, false,
}
use runspace.Dict
use runspace.Dict.{Dict, get-put}
use runspace.Errors.{Result, ok, err, Result-cases, filesync_not_found}
use runspace.Exec.{continue, fail_if, bind-ok, ◌>>=◌}
use runspace.FileSync.Model.{
  RegisterRequest, Session, Service, is_mirror_repository, session_key, folder_id,
}
use runspace.FileSync.{
  call, failed_status, folder_status, register, make_session, or_make, put_status, status,
  status_or,
}
use runspace.FileSync.Sessions.{
  IsQuiet, SameSessions, bind-IsQuiet, fail_if-IsQuiet, register-outcome, IsOf,
}

-- A session that stands under its id, which is its workspace's and repository's, and so is its folder.
pub record IsFiled (key : String) (x : Session) : Type 0 where
  pub id : x.id ≡ key
  pub named : key ≡ session_key x.workspace_id x.repository_id
  pub folder : x.folder_id ≡ folder_id x.workspace_id x.repository_id

module _ {W : Type 0} where
  abbrev pub AllFiled : Service W → Type 0
  AllFiled s = (key : String) (x : Session) → Dict.get s.sessions key ≡ some x → IsFiled key x

  AllFiled-same : (s t : Service W) → SameSessions s t → AllFiled s → AllFiled t
  AllFiled-same s t same filed key x there =
      filed key x (ap (λ d. Dict.get d key) (sym same) ∙ there)

  AllFiled-put :
      (s t : Service W) (key : String) (x : Session)
      → t.sessions ≡ Dict.put s.sessions key x
      → IsFiled key x
      → AllFiled s
      → AllFiled t
  AllFiled-put s t key x put new filed k y there = from (key == k) refl (sym at ∙ there)
    where
      at : Dict.get t.sessions k ≡ (if key == k then some x else Dict.get s.sessions k)
      at = ap (λ d. Dict.get d k) put ∙ get-put s.sessions key k x

      from :
          (b : Bool)
          → (key == k) ≡ b
          → (if b then some x else Dict.get s.sessions k) ≡ some y
          → IsFiled k y
      from true same h =
          let session : x ≡ y = cc h in
          subst (λ z. IsFiled k z) session (subst (λ j. IsFiled j x) ((eq_iff key k).0 same) new)
      from false other h = filed k y h

  register-AllFiled :
      (request : RegisterRequest) (s : Service W) → AllFiled s → AllFiled (register request s).1
  register-AllFiled request s filed = elim (register-outcome request s) [
    | inl (e, _, same) ↦ AllFiled-same s (register request s).1 same filed
    | inr (x, _, r) ↦
        AllFiled-put s (register request s).1 x.id x r.sessions
          (record {
            id = refl;
            named = r.session.id ∙ keyed x r.session;
            folder =
                r.session.folder
                ∙ ap (λ w. folder_id w request.repository_id) (sym r.session.workspace)
                ∙ ap (folder_id x.workspace_id) (sym r.session.repository);
          })
          filed
  ]
    where
      keyed :
          (x : Session)
          → IsOf request.workspace_id request.repository_id x
          → session_key request.workspace_id request.repository_id
            ≡ session_key x.workspace_id x.repository_id
      keyed x of =
          ap (λ w. session_key w request.repository_id) (sym of.workspace)
          ∙ ap (session_key x.workspace_id) (sym of.repository)

  make_session-IsQuiet :
      (user_id workspace_id repository_id : String)
      → IsQuiet {W = W} (make_session user_id workspace_id repository_id)
  unfolding make_session
  make_session-IsQuiet user_id workspace_id repository_id =
      bind-IsQuiet (call (λ s. s.workspaces.list_repositories user_id workspace_id)) _ (λ s. refl)
        (λ repositories.
          bind-IsQuiet
            (fail_if (not (is_mirror_repository repositories repository_id)) filesync_not_found) _
            (fail_if-IsQuiet (not (is_mirror_repository repositories repository_id))
              filesync_not_found)
            (λ _. bind-IsQuiet (call (λ s. s.engine.device_id)) _ (λ s. refl) (λ _ s. refl)))

  make_session-IsFiled :
      (user_id workspace_id repository_id : String) (s t : Service W) (x : Session)
      → make_session user_id workspace_id repository_id s ≡ (ok x, t)
      → IsFiled (session_key workspace_id repository_id) x
  unfolding make_session
  make_session-IsFiled user_id workspace_id repository_id s t x h =
      let (repositories, u, e1, h1) =
        bind-ok (call (λ s. s.workspaces.list_repositories user_id workspace_id)) _ s t x h in
      let (_, v, e2, h2) =
        bind-ok (fail_if (not (is_mirror_repository repositories repository_id)) filesync_not_found)
          _ u t x h1 in
      let (gateway_id, w, e3, h3) = bind-ok (call (λ s. s.engine.device_id)) _ v t x h2 in
      let made : Session = record {
        id = session_key workspace_id repository_id;
        workspace_id = workspace_id;
        repository_id = repository_id;
        folder_id = folder_id workspace_id repository_id;
        host_device_id = "";
        gateway_device_id = gateway_id;
        gateway_addresses = w.gateway_addresses;
        status = failed_status "" "";
        created_at = 0;
      } in
      let same : made ≡ x = cc (ap (λ p. p.0) h3) in
      subst (IsFiled (session_key workspace_id repository_id)) same
        (record { id = refl; named = refl; folder = refl })

  put_status-AllFiled :
      (key : String) (x : Session) (s : Service W)
      → IsFiled key x
      → AllFiled s
      → AllFiled (put_status key x s).1
  unfolding put_status folder_status
  put_status-AllFiled key x s filed all =
      AllFiled-put s (put_status key x s).1 key
        (record x {
          status = status_or "error" s.system.error_text (s.engine.status x.folder_id s.world).0;
        })
        refl (record { id = filed.id; named = filed.named; folder = filed.folder }) all

  or_make-AllFiled :
      (user_id workspace_id repository_id : String) (found : Option Session) (s : Service W)
      → AllFiled s
      → Dict.get s.sessions (session_key workspace_id repository_id) ≡ found
      → AllFiled
          ((or_make user_id workspace_id repository_id found
              >>= put_status (session_key workspace_id repository_id))
            s).1
  or_make-AllFiled user_id workspace_id repository_id (some x) s filed there =
      put_status-AllFiled (session_key workspace_id repository_id) x s
        (filed (session_key workspace_id repository_id) x there) filed
  or_make-AllFiled user_id workspace_id repository_id none s filed there =
      from (make_session user_id workspace_id repository_id s).0
        (make_session user_id workspace_id repository_id s).1 refl
    where
      key : String
      key = session_key workspace_id repository_id

      from :
          (r : Result Session) (t : Service W)
          → make_session user_id workspace_id repository_id s ≡ (r, t)
          → AllFiled (continue r (put_status key) t).1
      from (err e) t h =
          AllFiled-same s t
            (subst (SameSessions s) (ap (λ p. p.1) h)
              (make_session-IsQuiet user_id workspace_id repository_id s))
            filed
      from (ok x) t h =
          put_status-AllFiled key x t
            (make_session-IsFiled user_id workspace_id repository_id s t x h)
            (AllFiled-same s t
              (subst (SameSessions s) (ap (λ p. p.1) h)
                (make_session-IsQuiet user_id workspace_id repository_id s))
              filed)

  status-AllFiled :
      (user_id workspace_id repository_id : String) (s : Service W)
      → AllFiled s
      → AllFiled (status user_id workspace_id repository_id s).1
  unfolding status
  status-AllFiled user_id workspace_id repository_id s filed =
      elim (Result-cases (s.workspaces.can_write workspace_id user_id s.world).0) [
        | inr (e, denied) ↦ rw denied filed
        | inl (_, permitted) ↦ rw permitted (
            or_make-AllFiled user_id workspace_id repository_id _
              (record s { world = (s.workspaces.can_write workspace_id user_id s.world).1 }) filed
              refl)
      ]

-- The calls with their arguments.
pub data Call : Type 0 where
  register_folder : RegisterRequest → Call
  ask_status : String → String → String → Call

module _ {W : Type 0} where
  unfoldable pub serve : Call → Service W → Service W
  serve (register_folder request) s = (register request s).1
  serve (ask_status user_id workspace_id repository_id) s =
      (status user_id workspace_id repository_id s).1

  unfoldable pub serve_all : List Call → Service W → Service W
  unfolding serve
  serve_all [] s = s
  serve_all (c ∷ cs) s = serve_all cs (serve c s)

  -- Through any sequence of calls, whatever they return, every session stands under its id, which is
  -- that of its workspace and repository, and its folder is theirs too.
  pub serve_all-AllFiled : (cs : List Call) (s : Service W) → AllFiled s → AllFiled (serve_all cs s)
  unfolding serve_all
  serve_all-AllFiled [] s filed = filed
  serve_all-AllFiled (register_folder request ∷ cs) s filed =
      serve_all-AllFiled cs (register request s).1 (register-AllFiled request s filed)
  serve_all-AllFiled (ask_status user_id workspace_id repository_id ∷ cs) s filed =
      serve_all-AllFiled cs (status user_id workspace_id repository_id s).1
        (status-AllFiled user_id workspace_id repository_id s filed)
