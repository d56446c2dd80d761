-- ===== src/Sandbox/Tests.antt =====
-- Concrete paths.

use runspace.Sandbox.Files.Rooted.{IsRooted}
use runspace.Sandbox.Files.Bounded.{IsShown, ReadFrom, tree-IsShown, read-ReadFrom}
use runspace.Sandbox.Files.{
  Disk, FileKind, Content, Service, Entry, File, tree, read, tree_at, entries_of, entry, move_front,
  comes_before, entry_of, hide, after_prefix, read_at, read_bounded, content_size,
}
use runspace.Prelude.{
  ℕ, ◌≡◌, refl, ◌⊎◌, false, none, All, String, List, [], ◌∷◌, length, ◌≤◌, true, ◌||◌, ◌==◌,
  if◌then◌else◌,
}
use runspace.Text.{trim_space, has_prefix}
use runspace.Errors.{ok}
use runspace.Sandbox.{
  layout_root, valid_component, has_separator, join_clean, FileSystem, relative_path, resolve,
  split, to_slashes, within, has_nul, join,
}
use runspace.Sandbox.Inside.{
  IsName, Inside, relative_path-IsName, resolve-Inside, layout_root-IsName,
}

abbrev main_path : String
main_path = "src/main.go"

relative_path-IsName_example :
    (main_path ≡ ".")
    ⊎ ((main_path ≡ to_slashes (trim_space " src\\main.go ")) × All IsName (split main_path))
unfolding relative_path trim_space to_slashes split join has_nul has_prefix
relative_path-IsName_example = relative_path-IsName " src\\main.go " "src/main.go" refl

-- A file system without symbolic links.
abbrev plain : FileSystem ℕ
plain = record {
  root = λ workspace repository w. (ok "/data/repo_1", w);
  eval_symlinks = λ path w. (ok path, w);
  is_not_exist = λ e. false;
}

resolve-Inside_example : Inside "/data/repo_1" "/data/repo_1/a"
unfolding resolve relative_path trim_space to_slashes split join has_nul has_prefix within
resolve-Inside_example =
    resolve-Inside plain none "w" "repo_1" "a" 0 "/data/repo_1" "/data/repo_1/a" refl

-- A disk with a text, Git's metadata and a directory.
abbrev disk : Disk ℕ
disk = record {
  lstat = λ path w. (
    ok (record {
      kind =
          if path == "/data/repo_1" || path == "/data/repo_1/.git"
          then FileKind.directory
          else FileKind.regular;
      size = 5;
      perm = 420;
    }),
    w,
  );
  read_dir = λ path w. (ok (".git" ∷ "a" ∷ []), w);
  read_file = λ path w. (ok (Content.text "hello"), w);
}

abbrev sandbox : Service ℕ
sandbox = record { files = plain; disk = disk; max_read_bytes = 100; max_entries = 10 }

abbrev listed : List Entry
listed =
    record {
      path = ".git";
      name = ".git";
      kind = "directory";
      size = 5;
      mode = 420;
      ignored = true;
      readable = false;
      reason = "Git metadata is hidden";
    }
    ∷ record {
      path = "a";
      name = "a";
      kind = "file";
      size = 5;
      mode = 420;
      ignored = false;
      readable = true;
      reason = "";
    }
    ∷ []

tree-IsShown_example : All (IsShown 100) listed × (length listed ≤ 10)
unfolding tree resolve trim_space within tree_at entries_of entry move_front comes_before entry_of
    hide after_prefix
tree-IsShown_example = tree-IsShown sandbox none "w" "repo_1" "." listed 0 0 refl

-- What a listing hides can be read.
abbrev git_config : File
git_config = record { path = ".git/config"; size = 5; content = "hello" }

read-ReadFrom_example :
    (root : String) × (target : String) × IsRooted sandbox "w" "repo_1" ".git/config" root target
    × ReadFrom sandbox ".git/config" root target git_config
unfolding read resolve trim_space has_prefix within read_at read_bounded content_size
read-ReadFrom_example = read-ReadFrom sandbox none "w" "repo_1" ".git/config" git_config 0 0 refl

layout_root-IsName_example : IsName "repo_1" × ("/data/repo_1" ≡ join_clean "/data" "repo_1")
unfolding layout_root valid_component has_separator
layout_root-IsName_example = layout_root-IsName "/data" "repo_1" "/data/repo_1" refl
