-- ===== src/Sandbox.antt =====
-- internal/sandbox/service.go: how a path that a user names becomes a path of the file system, on Unix.
-- The file system's answers are parameters.
pub mod Inside
pub mod Files
mod Tests
use Prim.Native.Char.{Char, code}
use Prim.Native.String
use runspace.Prelude.{
  ℕ, String, Bool, true, false, not, ◌&&◌, ◌||◌, Option, none, some, List, [], ◌∷◌, ◌==◌, eqb,
  is_empty, some_of, if◌then◌else◌,
}
use runspace.Text.{trim_space, has_prefix}
use runspace.Errors.{Error, Result, ok, err, sandbox_invalid_path, sandbox_not_found}
use runspace.Exec.{Exec, pure, fail, lift, gets, check_context, ◌>>=◌, ◌>>◌}

abbrev pub is_slash : Char → Bool
is_slash c = eqb (code c) 47

abbrev pub is_backslash : Char → Bool
is_backslash c = eqb (code c) 92

-- strings.ReplaceAll(s, "\\", "/")
unfoldable pub to_slashes : String → String
to_slashes String.[] = ""
to_slashes (String.◌∷◌ c s) = String.◌∷◌ (if is_backslash c then "/" else c) (to_slashes s)

unfoldable pub has_nul : String → Bool
has_nul String.[] = false
has_nul (String.◌∷◌ c s) = eqb (code c) 0 || has_nul s

unfoldable pub has_separator : String → Bool
has_separator String.[] = false
has_separator (String.◌∷◌ c s) = is_slash c || is_backslash c || has_separator s

-- A list of parts with a character in front of the first.
abbrev pub push_front : Char → List String → List String
push_front c [] = String.◌∷◌ c "" ∷ []
push_front c (part ∷ parts) = String.◌∷◌ c part ∷ parts

-- strings.Split(s, "/")
unfoldable pub split : String → List String
split String.[] = "" ∷ []
split (String.◌∷◌ c s) =
    let parts = split s in if is_slash c then "" ∷ parts else push_front c parts

-- strings.Join(parts, "/")
unfoldable pub join : List String → String
join [] = ""
join (part ∷ []) = part
join (part ∷ next ∷ parts) = String.◌++◌ part (String.◌∷◌ "/" (join (next ∷ parts)))

abbrev pub bad_part : String → Bool
bad_part part = part == ".." || part == "." || is_empty part

unfoldable pub relative_path : String → Result String
unfolding to_slashes has_nul split join
relative_path raw =
    let value = to_slashes (trim_space raw) in
    if has_nul value
    then err sandbox_invalid_path
    else if is_empty value || value == "."
    then ok "."
    else if has_prefix value "/"
    then err sandbox_invalid_path
    else if some_of bad_part (split value)
    then err sandbox_invalid_path
    else ok (join (split value))

unfoldable pub valid_component : String → Bool
unfolding has_separator
valid_component value =
    not (is_empty value) && not (value == ".") && not (value == "..") && not (has_separator value)

unfoldable pub within : String → String → Bool
within root target = root == target || has_prefix target (String.◌++◌ root "/")

-- filepath.Join of a clean root and a path that `relativePath` accepts
abbrev pub join_clean : String → String → String
join_clean root relative =
    if relative == "."
    then root
    else if root == "/"
    then String.◌++◌ "/" relative
    else String.◌++◌ root (String.◌++◌ "/" relative)

-- The resolver of roots, filepath.EvalSymlinks, and the test for os.ErrNotExist.
pub record FileSystem (W : Type 0) : Type 0 where
  pub root : String → String → Exec W String
  pub eval_symlinks : String → Exec W String
  pub is_not_exist : Error → Bool

abbrev pub map_path_error : {W A : Type 0} → FileSystem W → Result A → Result A
map_path_error fs (ok a) = ok a
map_path_error fs (err e) = if fs.is_not_exist e then err sandbox_not_found else err e

-- LayoutResolver.Root
unfoldable pub layout_root : String → String → Result String
unfolding valid_component
layout_root base repository_id =
    if valid_component repository_id
    then ok (join_clean base repository_id)
    else err sandbox_invalid_path

module _ {W : Type 0} (fs : FileSystem W) where
  pub eval_mapped : String → Exec W String
  eval_mapped path w = let (r, w') = fs.eval_symlinks path w in (map_path_error fs r, w')

  abbrev pub checked : String → String → Result (String × String)
  checked root target = if within root target then ok (root, target) else err sandbox_invalid_path

  unfoldable pub resolve : Option Error → String → String → String → Exec W (String × String)
  unfolding relative_path eval_mapped
  resolve ctx workspace_id repository_id relative = do
    check_context ctx
    root ← fs.root workspace_id repository_id
    canonical_root ← eval_mapped root
    clean_relative ← lift (relative_path relative)
    canonical_target ← eval_mapped (join_clean canonical_root clean_relative)
    lift (checked canonical_root canonical_target)
