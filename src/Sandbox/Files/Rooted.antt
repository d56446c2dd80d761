-- ===== src/Sandbox/Files/Rooted.antt =====
-- internal/sandbox/service.go: the root and the target of a path that Read or Tree resolves.
use runspace.Prelude.{◌≡◌, refl, sym, ap, ◌∙◌, String, Option, arith, Bool-cases, inl, inr}
use runspace.Errors.{Error, Result, ok, err}
use runspace.Exec.{bind-ok, lift, check_context}
use runspace.Sandbox.{
  relative_path, resolve, join_clean, within, checked, eval_mapped, map_path_error,
}
use runspace.Sandbox.Files.{Service}

module _ {W : Type 0} (s : Service W) where
  -- The root is what the resolver of roots answers for the repository, and the target is the path in
  -- it, both with their symbolic links followed.
  pub record IsRooted (workspace_id repository_id path root target : String) : Type 0 where
    pub base : String
    pub of_repository : (w : W) × ((s.files.root workspace_id repository_id w).0 ≡ ok base)
    pub followed : (w : W) × ((s.files.eval_symlinks base w).0 ≡ ok root)
    pub target_followed : (w : W) × ((s.files.eval_symlinks (join_clean root path) w).0 ≡ ok target)

  eval_mapped-ok :
      (path found : String) (w v : W)
      → eval_mapped s.files path w ≡ (ok found, v)
      → (s.files.eval_symlinks path w).0 ≡ ok found
  unfolding eval_mapped
  eval_mapped-ok path found w v h = from (s.files.eval_symlinks path w).0 (ap (λ p. p.0) h)
    where
      from : (r : Result String) → map_path_error s.files r ≡ ok found → r ≡ ok found
      from (ok a) e = e
      from (err a) e = elim (Bool-cases (s.files.is_not_exist a)) [
        | inl missing ↦ absurd (cc (rw missing at e))
        | inr other ↦ absurd (cc (rw other at e))
      ]

  checked-target :
      (a b root target : String)
      → checked s.files a b ≡ ok (root, target)
      → (a ≡ root) × (b ≡ target)
  checked-target a b root target h = elim (Bool-cases (within a b)) [
    | inl inside ↦
        let e : ok (a, b) ≡ ok (root, target) = sym (rw inside refl) ∙ h in
        (ground (arith, e), ground (arith, e))
    | inr outside ↦ absurd (ground (arith, h, outside))
  ]

  pub resolve-IsRooted :
      (ctx : Option Error) (workspace_id repository_id relative root target : String) (w v : W)
      → resolve s.files ctx workspace_id repository_id relative w ≡ (ok (root, target), v)
      → (path : String) × (relative_path relative ≡ ok path)
        × IsRooted workspace_id repository_id path root target
  unfolding resolve
  resolve-IsRooted ctx workspace_id repository_id relative root target w v h =
      let (_, w1, e1, h1) = bind-ok (check_context ctx) _ w v (root, target) h in
      let (base, w2, e2, h2) =
        bind-ok (s.files.root workspace_id repository_id) _ w1 v (root, target) h1 in
      let (a, w3, e3, h3) = bind-ok (eval_mapped s.files base) _ w2 v (root, target) h2 in
      let (path, w4, e4, h4) = bind-ok (lift (relative_path relative)) _ w3 v (root, target) h3 in
      let (b, w5, e5, h5) =
        bind-ok (eval_mapped s.files (join_clean a path)) _ w4 v (root, target) h4 in
      let (same, same') = checked-target a b root target (ap (λ p. p.0) h5) in
      (
        path,
        ap (λ p. p.0) e4,
        record {
          base = base;
          of_repository = (w1, ap (λ p. p.0) e2);
          followed = (w2, eval_mapped-ok base a w2 w3 e3 ∙ ap ok same);
          target_followed = (
            w4,
            ap (λ r. (s.files.eval_symlinks (join_clean r path) w4).0) (sym same)
                ∙ eval_mapped-ok (join_clean a path) b w4 w5 e5
                ∙ ap ok same',
          );
        },
      )
