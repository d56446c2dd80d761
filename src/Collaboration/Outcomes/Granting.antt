-- ===== src/Collaboration/Outcomes/Granting.antt =====
-- internal/collaboration: what the checks of an operation have found out when they let it go on.
use runspace.Collaboration.Channels.{validate_channel_create, validate_channel_access}
use runspace.Prelude.{◌≡◌, refl, ap, String, Bool, true, false, Option, none, some, arith}
use runspace.Text.{is_blank}
use runspace.Errors.{Error, ok}
use runspace.Exec
use runspace.Exec.{fail_if-ok, Exec, continue, fail_if, check_context, gets}
use runspace.Collaboration.Model.{Authorizer, MemoryService, ◌>>=◌, call, can_write}

-- The authorizer, asked first, lets the user write to the workspace.
pub record MayWrite {W : Type 0} (s : MemoryService W) (workspace_id user_id : String)
    : Type 0 where
  pub authorizer : Authorizer W
  pub there : s.authorizer ≡ some authorizer
  pub allowed : (authorizer.can_write workspace_id user_id s.world).0 ≡ ok tt

module _ {W A B : Type 0} where
  -- A sequence that gave a value: so did its first part.
  pub bind-ok :
      (m : Exec (MemoryService W) A) (f : A → Exec (MemoryService W) B) (s t : MemoryService W)
      (b : B)
      → (m >>= f) s ≡ (ok b, t)
      → (a : A) × (u : MemoryService W) × (m s ≡ (ok a, u)) × (f a u ≡ (ok b, t))
  unfolding ◌>>=◌
  bind-ok m f s t b h = Exec.bind-ok m f s t b h

module _ {W : Type 0} where
  pub can_write-MayWrite :
      (o : Option (Authorizer W)) (workspace_id user_id : String) (s t : MemoryService W)
      → s.authorizer ≡ o
      → can_write o workspace_id user_id s ≡ (ok tt, t)
      → MayWrite s workspace_id user_id
  unfolding can_write call
  can_write-MayWrite none workspace_id user_id s t there h = absurd (cc (ap (λ p. p.0) h))
  can_write-MayWrite (some a) workspace_id user_id s t there h = record {
    authorizer = a;
    there = there;
    allowed = ap (λ p. p.0) h;
  }

  -- The context lives, the input is valid, and the rest has gone on with the authorizer.
  pub checks-ok :
      {A : Type 0} (ctx : Option Error) (b : Bool) (e : Error)
      (m : Option (Authorizer W) → Exec (MemoryService W) A) (s t : MemoryService W) (a : A)
      → (check_context ctx >>= λ _.
            fail_if b e >>= λ _. gets (λ (u : MemoryService W). u.authorizer) >>= m)
          s
        ≡ (ok a, t)
      → (b ≡ false) × (m s.authorizer s ≡ (ok a, t))
  unfolding ◌>>=◌
  checks-ok (some x) b e m s t a h = absurd (cc (ap (λ p. p.0) h))
  checks-ok none true e m s t a h = absurd (cc (ap (λ p. p.0) h))
  checks-ok none false e m s t a h = (refl, h)

  pub validate_channel_create-ok :
      (ctx : Option Error) (user_id workspace_id name : String) (s t : MemoryService W)
      → validate_channel_create ctx user_id workspace_id name s ≡ (ok tt, t)
      → (is_blank name ≡ false) × MayWrite s workspace_id user_id
  unfolding validate_channel_create
  validate_channel_create-ok ctx user_id workspace_id name s t h =
      let (valid, granted) = checks-ok ctx _ _ _ s t tt h in
      (ground (arith, valid), can_write-MayWrite s.authorizer workspace_id user_id s t refl granted)

  pub validate_channel_access-ok :
      (ctx : Option Error) (user_id workspace_id : String) (s t : MemoryService W)
      → validate_channel_access ctx user_id workspace_id s ≡ (ok tt, t)
      → MayWrite s workspace_id user_id
  unfolding validate_channel_access
  validate_channel_access-ok ctx user_id workspace_id s t h =
      let (valid, granted) = checks-ok ctx _ _ _ s t tt h in
      can_write-MayWrite s.authorizer workspace_id user_id s t refl granted
