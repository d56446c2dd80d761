-- ===== src/Sandbox/Files.antt =====
-- internal/sandbox/service.go: Tree lists a directory, and Read reads a file. What the disk answers is
-- a parameter.
pub mod Rooted
pub mod Bounded
use Prim.Native.Nat.{Ordering}
use Prim.Native.String
use runspace.Prelude.{
  ℕ, String, Bool, true, false, not, ◌||◌, Option, none, some, List, [], ◌∷◌, length, ltb, ◌==◌,
  if◌then◌else◌,
}
use runspace.Text.{has_prefix}
use runspace.Errors.{
  Error, Result, sandbox_too_large, sandbox_binary, sandbox_symlink, sandbox_invalid_path,
}
use runspace.Exec.{Exec, pure, fail, lift, fail_if, ◌>>=◌, ◌>>◌}
use runspace.Sandbox.{FileSystem, join_clean, map_path_error, relative_path, has_nul, resolve}

-- What os.FileMode tells apart here.
pub data FileKind : Type 0 where
  symlink directory regular special : FileKind

pub record Info : Type 0 where
  pub kind : FileKind
  pub size : ℕ
  pub perm : ℕ

-- The bytes of a file: those of a text, or some number of bytes that are not UTF-8.
pub data Content : Type 0 where
  text : String → Content
  other : ℕ → Content

-- os.Lstat, the names that os.ReadDir lists, and os.ReadFile.
pub record Disk (W : Type 0) : Type 0 where
  pub lstat : String → Exec W Info
  pub read_dir : String → Exec W (List String)
  pub read_file : String → Exec W Content

pub record Entry : Type 0 where
  pub path : String
  pub name : String
  pub kind : String
  pub size : ℕ
  pub mode : ℕ
  pub ignored : Bool
  pub readable : Bool
  pub reason : String

pub record File : Type 0 where
  pub path : String
  pub size : ℕ
  pub content : String

-- The resolver of the roots is part of `files`.
pub record Service (W : Type 0) : Type 0 where
  pub files : FileSystem W
  pub disk : Disk W
  pub max_read_bytes : ℕ
  pub max_entries : ℕ

abbrev or_default : ℕ → ℕ → ℕ
or_default limit default = if ltb 0 limit then limit else default

-- A limit below 0 reads as 0, which the code treats alike.
unfoldable pub new_service : {W : Type 0} → FileSystem W → Disk W → ℕ → ℕ → Service W
new_service files disk max_read_bytes max_entries = record {
  files = files;
  disk = disk;
  max_read_bytes = or_default max_read_bytes 1048576;
  max_entries = or_default max_entries 10000;
}

unfoldable pub content_size : Content → ℕ
content_size (text s) = String.len s
content_size (other n) = n

abbrev pub is_symlink : FileKind → Bool
is_symlink FileKind.symlink = true
is_symlink _ = false

abbrev pub is_directory : FileKind → Bool
is_directory FileKind.directory = true
is_directory _ = false

abbrev pub is_regular : FileKind → Bool
is_regular FileKind.regular = true
is_regular _ = false

-- What follows a prefix that is there.
unfoldable pub after_prefix : String → String → String
after_prefix s String.[] = s
after_prefix String.[] (String.◌∷◌ d t) = ""
after_prefix (String.◌∷◌ c s) (String.◌∷◌ d t) = after_prefix s t

-- filepath.Rel(root, path), for a clean path below a clean root
abbrev pub relative_to : String → String → String
relative_to root path =
    if root == "/" then after_prefix path "/" else after_prefix path (String.◌++◌ root "/")

abbrev entry_with : String → String → Info → String → Bool → String → Entry
entry_with path name info kind readable reason = record {
  path = path;
  name = name;
  kind = kind;
  size = info.size;
  mode = info.perm;
  ignored = false;
  readable = readable;
  reason = reason;
}

abbrev pub hidden_with : String → Entry → Entry
hidden_with reason e = record e { ignored = true; readable = false; reason = reason }

abbrev pub is_sync_name : String → Bool
is_sync_name name = name == ".stfolder" || name == ".stignore"

unfoldable pub hide : Entry → Entry
hide e =
    let shown = if e.name == ".git" then hidden_with "Git metadata is hidden" e else e in
    if is_sync_name e.name then hidden_with "sync metadata is hidden" shown else shown

abbrev file_entry : ℕ → String → String → Info → Entry
file_entry max_read_bytes path name info =
    if ltb max_read_bytes info.size
    then entry_with path name info "file" false "file exceeds read limit"
    else entry_with path name info "file" true ""

unfoldable pub entry_of : ℕ → String → String → Info → FileKind → Entry
entry_of max_read_bytes path name info FileKind.symlink =
    entry_with path name info "symlink" false "symlink is not traversed"
entry_of max_read_bytes path name info FileKind.directory =
    hide (entry_with path name info "directory" true "")
entry_of max_read_bytes path name info FileKind.regular =
    hide (file_entry max_read_bytes path name info)
entry_of max_read_bytes path name info FileKind.special =
    hide (entry_with path name info "special" false "special file is not readable")

abbrev is_less : Ordering → Bool
is_less Ordering.lt = true
is_less _ = false

-- The less of the call of sort.Slice
unfoldable pub comes_before : Entry → Entry → Bool
comes_before i j =
    if i.kind == j.kind then is_less (String.compare i.path j.path) else i.kind == "directory"

-- A new last element moves to the front past those that it comes before; the last stands first here.
unfoldable pub move_front : Entry → List Entry → List Entry
move_front e [] = e ∷ []
move_front e (f ∷ fs) =
    let later = f ∷ move_front e fs in if comes_before e f then later else e ∷ f ∷ fs

abbrev pub sort_from : List Entry → List Entry → List Entry
sort_from sorted [] = sorted
sort_from sorted (e ∷ es) = sort_from (move_front e sorted) es

abbrev pub turn : List Entry → List Entry → List Entry
turn done [] = done
turn done (e ∷ es) = turn (e ∷ done) es

-- sort.Slice, as it sorts a short list: by insertion. On a longer one its order may be another, since
-- the comparison is none of an order: entries of different kinds, neither a directory, are alike.
abbrev pub sort_entries : List Entry → List Entry
sort_entries es = turn [] (sort_from [] es)

module _ {W : Type 0} (s : Service W) where
  abbrev pub lstat_mapped : String → Exec W Info
  lstat_mapped path w = let (r, w') = s.disk.lstat path w in (map_path_error s.files r, w')

  unfoldable pub entry : String → String → String → Exec W Entry
  entry root parent name = do
    let path = join_clean parent name
    info ← s.disk.lstat path
    pure (entry_of s.max_read_bytes (relative_to root path) name info info.kind)

  -- for _, item := range items { … }
  unfoldable pub entries_of : String → String → List String → Exec W (List Entry)
  entries_of root parent [] = pure []
  entries_of root parent (name ∷ names) = do
    e ← entry root parent name
    es ← entries_of root parent names
    pure (e ∷ es)

  unfoldable pub tree_at : String × String → Exec W (List Entry)
  tree_at (root, target) = do
    info ← lstat_mapped target
    fail_if (is_symlink info.kind) sandbox_symlink
    fail_if (not (is_directory info.kind)) sandbox_invalid_path
    names ← s.disk.read_dir target
    fail_if (ltb s.max_entries (length names)) sandbox_too_large
    entries ← entries_of root target names
    pure (sort_entries entries)

  unfoldable pub tree : Option Error → String → String → String → Exec W (List Entry)
  tree ctx workspace_id repository_id relative = do
    resolved ← resolve s.files ctx workspace_id repository_id relative
    tree_at resolved

  abbrev pub readable_text : Content → Exec W String
  readable_text (other n) = fail sandbox_binary
  readable_text (text t) = do fail_if (has_nul t) sandbox_binary; pure t

  unfoldable pub read_bounded : String → Exec W String
  read_bounded path = do
    data' ← s.disk.read_file path
    fail_if (ltb s.max_read_bytes (content_size data')) sandbox_too_large
    readable_text data'

  unfoldable pub read_at : String → String × String → Exec W File
  read_at relative (root, target) = do
    info ← lstat_mapped target
    fail_if (is_symlink info.kind) sandbox_symlink
    fail_if (not (is_regular info.kind)) sandbox_invalid_path
    fail_if (ltb s.max_read_bytes info.size) sandbox_too_large
    content ← read_bounded target
    path ← lift (relative_path relative)
    pure (record { path = path; size = String.len content; content = content })

  unfoldable pub read : Option Error → String → String → String → Exec W File
  read ctx workspace_id repository_id relative = do
    resolved ← resolve s.files ctx workspace_id repository_id relative
    read_at relative resolved
