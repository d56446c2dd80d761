-- ===== src/Sandbox/Files/Bounded.antt =====
-- internal/sandbox/service.go: what a listing shows as readable, and what is read.
use Prim.Native.String
use runspace.Prelude.{
  ℕ, ◌+◌, ◌≤◌, ◌≡◌, refl, sym, ◌∙◌, ap, ◌⊎◌, inl, inr, subst, String, false, not, Option, List, [],
  ◌∷◌, All, length, ltb, ◌==◌, arith, Bool-cases,
}
use runspace.Errors.{
  Error, ok, sandbox_too_large, sandbox_binary, sandbox_symlink, sandbox_invalid_path,
}
use runspace.Exec.{fail_if, bind-ok, lift, fail_if-ok}
use runspace.Sandbox.{has_nul, relative_path, resolve, join_clean}
use runspace.Sandbox.Inside.{Inside, resolve-Inside}
use runspace.Sandbox.Files.Rooted.{IsRooted, resolve-IsRooted}
use runspace.Sandbox.Files.{
  FileKind, Info, Content, Entry, File, Service, content_size, is_symlink, is_directory, is_regular,
  is_sync_name, hide, entry_of, comes_before, move_front, sort_from, turn, sort_entries, entry,
  entries_of, tree_at, tree, readable_text, read_bounded, read_at, read, relative_to, lstat_mapped,
}

-- An entry that is not readable, or that is a directory or a file that is not too long, and is neither
-- Git's nor the synchronisation's.
pub record IsOpen (max : ℕ) (e : Entry) : Type 0 where
  pub kind : (e.kind ≡ "directory") ⊎ ((e.kind ≡ "file") × (e.size ≤ max))
  pub not_git : (e.name == ".git") ≡ false
  pub not_sync : is_sync_name e.name ≡ false

abbrev pub IsShown : ℕ → Entry → Type 0
IsShown max e = (e.readable ≡ false) ⊎ IsOpen max e

hide-IsShown :
    (max : ℕ) (e : Entry)
    → (e.readable ≡ false) ⊎ ((e.kind ≡ "directory") ⊎ ((e.kind ≡ "file") × (e.size ≤ max)))
    → IsShown max (hide e)
unfolding hide
hide-IsShown max e shown = elim (Bool-cases (is_sync_name e.name)) [
  | inl sync ↦ rw sync (inl refl)
  | inr other ↦ elim (Bool-cases (e.name == ".git")) [
    | inl git ↦ rw (other, git) (inl refl)
    | inr named ↦
        rw (other, named)
          (elim shown [
            | inl closed ↦ inl closed
            | inr kind ↦ inr (record { kind = kind; not_git = named; not_sync = other })
          ])
  ]
]

entry_of-IsShown :
    (max : ℕ) (path name : String) (info : Info) (kind : FileKind)
    → IsShown max (entry_of max path name info kind)
unfolding entry_of
entry_of-IsShown max path name info FileKind.symlink = inl refl
entry_of-IsShown max path name info FileKind.directory = hide-IsShown max _ (inr (inl refl))
entry_of-IsShown max path name info FileKind.regular = elim (Bool-cases (ltb max info.size)) [
  | inl long ↦ rw long (hide-IsShown max _ (inl refl))
  | inr fits ↦ rw fits (hide-IsShown max _ (inr (inr (refl, ground (arith, fits)))))
]
entry_of-IsShown max path name info FileKind.special = hide-IsShown max _ (inl refl)

module _ (P : Entry → Type 0) where
  move_front-All : (e : Entry) (es : List Entry) → P e → All P es → All P (move_front e es)
  unfolding move_front
  move_front-All e [] p ps = (p, tt)
  move_front-All e (f ∷ fs) p ps = elim (Bool-cases (comes_before e f)) [
    | inl first ↦ rw first (ps.0, move_front-All e fs p ps.1)
    | inr later ↦ rw later (p, ps)
  ]

  sort_from-All : (sorted es : List Entry) → All P sorted → All P es → All P (sort_from sorted es)
  sort_from-All sorted [] ps qs = ps
  sort_from-All sorted (e ∷ es) ps qs =
      sort_from-All (move_front e sorted) es (move_front-All e sorted qs.0 ps) qs.1

  turn-All : (done es : List Entry) → All P done → All P es → All P (turn done es)
  turn-All done [] ps qs = ps
  turn-All done (e ∷ es) ps qs = turn-All (e ∷ done) es (qs.0, ps) qs.1

length-move_front : (e : Entry) (es : List Entry) → length (move_front e es) ≡ length es + 1
unfolding move_front
length-move_front e [] = refl
length-move_front e (f ∷ fs) = elim (Bool-cases (comes_before e f)) [
  | inl first ↦ rw first (omega (arith, length-move_front e fs))
  | inr later ↦ rw later (omega arith)
]

length-sort_from :
    (sorted es : List Entry) → length (sort_from sorted es) ≡ length sorted + length es
length-sort_from sorted [] = omega arith
length-sort_from sorted (e ∷ es) =
    omega (arith, length-sort_from (move_front e sorted) es, length-move_front e sorted)

length-turn : (done es : List Entry) → length (turn done es) ≡ length done + length es
length-turn done [] = omega arith
length-turn done (e ∷ es) = omega (arith, length-turn (e ∷ done) es)

length-sort_entries : (es : List Entry) → length (sort_entries es) ≡ length es
length-sort_entries es = omega (arith, length-turn [] (sort_from [] es), length-sort_from [] es)

module _ {W : Type 0} (s : Service W) where
  entry-IsShown :
      (root parent name : String) (e : Entry) (w v : W)
      → entry s root parent name w ≡ (ok e, v)
      → IsShown s.max_read_bytes e
  unfolding entry
  entry-IsShown root parent name e w v h =
      let path = join_clean parent name in
      let (info, u, e1, h1) = bind-ok (s.disk.lstat path) _ w v e h in
      let made : entry_of s.max_read_bytes (relative_to root path) name info info.kind ≡ e =
        cc (ap (λ p. p.0) h1) in
      subst (IsShown s.max_read_bytes) made
        (entry_of-IsShown s.max_read_bytes (relative_to root path) name info info.kind)

  entries_of-IsShown :
      (root parent : String) (names : List String) (es : List Entry) (w v : W)
      → entries_of s root parent names w ≡ (ok es, v)
      → All (IsShown s.max_read_bytes) es × (length es ≡ length names)
  unfolding entries_of
  entries_of-IsShown root parent [] es w v h =
      let same : [] ≡ es = cc (ap (λ p. p.0) h) in
      subst (λ l. All (IsShown s.max_read_bytes) l × (length l ≡ 0)) same (tt, refl)
  entries_of-IsShown root parent (name ∷ names) es w v h =
      let (e, u, e1, h1) = bind-ok (entry s root parent name) _ w v es h in
      let (rest, x, e2, h2) = bind-ok (entries_of s root parent names) _ u v es h1 in
      let (shown, count) = entries_of-IsShown root parent names rest u x e2 in
      let same : e ∷ rest ≡ es = cc (ap (λ p. p.0) h2) in
      subst (λ l. All (IsShown s.max_read_bytes) l × (length l ≡ length (name ∷ names))) same
        ((entry-IsShown root parent name e w u e1, shown), omega (arith, count))

  tree_at_lem :
      (root target : String) (es : List Entry) (w v : W)
      → tree_at s (root, target) w ≡ (ok es, v)
      → All (IsShown s.max_read_bytes) es × (length es ≤ s.max_entries)
  unfolding tree_at
  tree_at_lem root target es w v h =
      let (info, w1, e1, h1) = bind-ok (lstat_mapped s target) _ w v es h in
      let (_, w2, e2, h2) = bind-ok (fail_if (is_symlink info.kind) sandbox_symlink) _ w1 v es h1 in
      let (_, w3, e3, h3) =
        bind-ok (fail_if (not (is_directory info.kind)) sandbox_invalid_path) _ w2 v es h2 in
      let (names, w4, e4, h4) = bind-ok (s.disk.read_dir target) _ w3 v es h3 in
      let (_, w5, e5, h5) =
        bind-ok (fail_if (ltb s.max_entries (length names)) sandbox_too_large) _ w4 v es h4 in
      let (found, w6, e6, h6) = bind-ok (entries_of s root target names) _ w5 v es h5 in
      let (shown, count) = entries_of-IsShown root target names found w5 w6 e6 in
      let few = (fail_if-ok (ltb s.max_entries (length names)) sandbox_too_large w4 w5 e5).0 in
      let same : sort_entries found ≡ es = cc (ap (λ p. p.0) h6) in
      subst (λ l. All (IsShown s.max_read_bytes) l × (length l ≤ s.max_entries)) same
        (
          turn-All (IsShown s.max_read_bytes) [] (sort_from [] found) tt
              (sort_from-All (IsShown s.max_read_bytes) [] found tt shown),
          rw (length-sort_entries found) rw count ground (arith, few),
        )

  read_bounded_lem :
      (path content : String) (w v : W)
      → read_bounded s path w ≡ (ok content, v)
      → (String.len content ≤ s.max_read_bytes)
        × (has_nul content ≡ false)
        × ((u : W) × ((s.disk.read_file path u).0 ≡ ok (Content.text content)))
  unfolding read_bounded content_size
  read_bounded_lem path content w v h =
      let (found, w1, e1, h1) = bind-ok (s.disk.read_file path) _ w v content h in
      let (_, w2, e2, h2) =
        bind-ok (fail_if (ltb s.max_read_bytes (content_size found)) sandbox_too_large) _ w1 v
          content h1 in
      let short =
        (fail_if-ok (ltb s.max_read_bytes (content_size found)) sandbox_too_large w1 w2 e2).0 in
      from found (ap (λ p. p.0) e1) short w2 h2
    where
      from :
          (found : Content)
          → (s.disk.read_file path w).0 ≡ ok found
          → ltb s.max_read_bytes (content_size found) ≡ false
          → (u : W) → readable_text s found u ≡ (ok content, v)
          → (String.len content ≤ s.max_read_bytes)
            × (has_nul content ≡ false)
            × ((u : W) × ((s.disk.read_file path u).0 ≡ ok (Content.text content)))
      from (Content.other n) e short u h = absurd (cc (ap (λ p. p.0) h))
      from (Content.text t) e short u h =
          let (_, w3, e3, h3) = bind-ok (fail_if (has_nul t) sandbox_binary) _ u v content h in
          let plain = (fail_if-ok (has_nul t) sandbox_binary u w3 e3).0 in
          let same : t ≡ content = cc (ap (λ p. p.0) h3) in
          subst
            (λ c.
              (String.len c ≤ s.max_read_bytes)
              × (has_nul c ≡ false)
              × ((u : W) × ((s.disk.read_file path u).0 ≡ ok (Content.text c))))
            same (ground (arith, short), plain, (w, e))

  -- A file that was read: its text, not too long and without a NUL, under the path that was asked for.
  pub record ReadFrom (relative root target : String) (f : File) : Type 0 where
    pub inside : Inside root target
    pub path : relative_path relative ≡ ok f.path
    pub size : f.size ≡ String.len f.content
    pub short : f.size ≤ s.max_read_bytes
    pub plain : has_nul f.content ≡ false
    pub from_disk : (w : W) × ((s.disk.read_file target w).0 ≡ ok (Content.text f.content))

  read_at_lem :
      (relative root target : String) (f : File) (w v : W)
      → Inside root target
      → read_at s relative (root, target) w ≡ (ok f, v)
      → ReadFrom relative root target f
  unfolding read_at
  read_at_lem relative root target f w v inside h =
      let (info, w1, e1, h1) = bind-ok (lstat_mapped s target) _ w v f h in
      let (_, w2, e2, h2) = bind-ok (fail_if (is_symlink info.kind) sandbox_symlink) _ w1 v f h1 in
      let (_, w3, e3, h3) =
        bind-ok (fail_if (not (is_regular info.kind)) sandbox_invalid_path) _ w2 v f h2 in
      let (_, w4, e4, h4) =
        bind-ok (fail_if (ltb s.max_read_bytes info.size) sandbox_too_large) _ w3 v f h3 in
      let (content, w5, e5, h5) = bind-ok (read_bounded s target) _ w4 v f h4 in
      let (path, w6, e6, h6) = bind-ok (lift (relative_path relative)) _ w5 v f h5 in
      let (short, plain, disk) = read_bounded_lem target content w4 w5 e5 in
      let read_file : File = record { path = path; size = String.len content; content = content } in
      let same : read_file ≡ f = cc (ap (λ p. p.0) h6) in
      subst (ReadFrom relative root target) same (record {
        inside = inside;
        path = ap (λ p. p.0) e6;
        size = refl;
        short = short;
        plain = plain;
        from_disk = disk;
      })

module _ {W : Type 0} (s : Service W) (ctx : Option Error)
    (workspace_id repository_id relative : String) where
  -- A listing that succeeds has at most the number of entries that the service allows, and all that it
  -- shows as readable are directories and files within the limit of reading, and neither Git's nor the
  -- synchronisation's metadata.
  pub tree-IsShown :
      (es : List Entry) (w v : W)
      → tree s ctx workspace_id repository_id relative w ≡ (ok es, v)
      → All (IsShown s.max_read_bytes) es × (length es ≤ s.max_entries)
  unfolding tree
  tree-IsShown es w v h =
      let ((root, target), u, e1, h1) =
        bind-ok (resolve s.files ctx workspace_id repository_id relative) _ w v es h in
      tree_at_lem s root target es u v h1

  -- A file that is read is a text of the disk, under the path that was asked for in its accepted form.
  -- Its place is that path in the root that the resolver answers for the repository, with symbolic
  -- links followed, and lies inside that root. The text is not longer than the limit, its size is its
  -- length, and it has no NUL.
  pub read-ReadFrom :
      (f : File) (w v : W)
      → read s ctx workspace_id repository_id relative w ≡ (ok f, v)
      → (root : String) × (target : String) × IsRooted s workspace_id repository_id f.path root
          target
        × ReadFrom s relative root target f
  unfolding read
  read-ReadFrom f w v h =
      let ((root, target), u, e1, h1) =
        bind-ok (resolve s.files ctx workspace_id repository_id relative) _ w v f h in
      let (path, accepted, rooted) =
        resolve-IsRooted s ctx workspace_id repository_id relative root target w u e1 in
      let from =
        read_at_lem s relative root target f u v
          (resolve-Inside s.files ctx workspace_id repository_id relative w root target
            (ap (λ p. p.0) e1))
          h1 in
      let same : ok path ≡ ok f.path = sym accepted ∙ from.path in
      (
        root,
        target,
        subst (λ p. IsRooted s workspace_id repository_id p root target) (ground (arith, same))
            rooted,
        from,
      )
