-- ===== src/Sandbox/Inside.antt =====
-- internal/sandbox/service.go: a path that is accepted stays inside the root.
use Prim.Native.Char.{Char}
use Prim.Native.String
use Prim.Native.String.append
use runspace.Prelude.{
  ◌≡◌, refl, sym, ap, ◌∙◌, subst, ◌⊎◌, inl, inr, String, Bool, true, false, ◌||◌, Option, none,
  some, List, [], ◌∷◌, arith, ◌==◌, eq_iff, is_empty, some_of, All, Bool-cases,
}
use runspace.Text.{trim_space, has_prefix}
use runspace.Text.Prefix.{same_char, prefix-rest}
use runspace.Errors.{Error, Result, ok, err}
use runspace.Exec.{Exec, continue}
use runspace.Sandbox.{
  layout_root, is_slash, to_slashes, has_separator, has_nul, split, join, push_front, bad_part,
  relative_path, valid_component, within, FileSystem, resolve, checked, eval_mapped, join_clean,
}

pub has_slash : String → Bool
has_slash String.[] = false
has_slash (String.◌∷◌ c s) = is_slash c || has_slash s

-- A name that stays in its directory: not empty, not `.` or `..`, and without a slash.
pub record IsName (part : String) : Type 0 where
  pub not_empty : ¬ (part ≡ "")
  pub not_here : ¬ (part ≡ ".")
  pub not_up : ¬ (part ≡ "..")
  pub one_part : has_slash part ≡ false

-- What a test that succeeds says.
abbrev pub Inside : String → String → Type 0
Inside root target =
    (root ≡ target) ⊎ ((rest : String) × (target ≡ String.◌++◌ (String.◌++◌ root "/") rest))

within-Inside : (root target : String) → within root target ≡ true → Inside root target
unfolding within
within-Inside root target h = elim (Bool-cases (root == target)) [
  | inl same ↦ inl ((eq_iff root target).0 same)
  | inr other ↦ inr (prefix-rest target (String.◌++◌ root "/") (ground (arith, h, other)))
]

split-cons : (s : String) → (p : String) × (ps : List String) × (split s ≡ p ∷ ps)
unfolding split
split-cons String.[] = ("", [], refl)
split-cons (String.◌∷◌ c s) =
    let (p, ps, e) = split-cons s in
    elim (Bool-cases (is_slash c)) [
      | inl slash ↦ ("", split s, rw slash refl)
      | inr other ↦ (String.◌∷◌ c p, ps, rw (other, e) refl)
    ]

join-push_front :
    (c : Char) (parts : List String) → join (push_front c parts) ≡ String.◌∷◌ c (join parts)
unfolding join
join-push_front c [] = refl
join-push_front c (p ∷ []) = refl
join-push_front c (p ∷ q ∷ ps) = append.cons c p (String.◌∷◌ "/" (join (q ∷ ps)))

join-split : (s : String) → join (split s) ≡ s
unfolding join split
join-split String.[] = refl
join-split (String.◌∷◌ c s) = elim (Bool-cases (is_slash c)) [
  | inl slash ↦
      let (p, ps, e) = split-cons s in
      rw slash (
        rw e (append.nil (String.◌∷◌ "/" (join (p ∷ ps))))
        ∙ ap (λ d. String.◌∷◌ d (join (p ∷ ps))) (sym (same_char c "/" slash))
        ∙ ap (λ ps. String.◌∷◌ c (join ps)) (sym e)
        ∙ ap (String.◌∷◌ c) (join-split s))
  | inr other ↦ rw (other, join-push_front) (ap (String.◌∷◌ c) (join-split s))
]

split-no_slash : (s : String) → All (λ p. has_slash p ≡ false) (split s)
unfolding split has_slash
split-no_slash String.[] = (refl, tt)
split-no_slash (String.◌∷◌ c s) = elim (Bool-cases (is_slash c)) [
  | inl slash ↦ rw slash (refl, split-no_slash s)
  | inr other ↦ rw other (pushed (split s) other (split-no_slash s))
]
  where
    pushed :
        (parts : List String)
        → is_slash c ≡ false
        → All (λ p. has_slash p ≡ false) parts
        → All (λ p. has_slash p ≡ false) (push_front c parts)
    pushed [] other h = (rw other refl, tt)
    pushed (p ∷ ps) other h = (rw other h.0, h.1)

proper :
    (part : String)
    → is_empty part ≡ false
    → (part == ".") ≡ false
    → (part == "..") ≡ false
    → has_slash part ≡ false
    → IsName part
proper part named here up l = record {
  not_empty = λ h. absurd (grind (arith, ap is_empty h));
  not_here = λ h. absurd (grind (arith, (eq_iff part ".").1 h));
  not_up = λ h. absurd (grind (arith, (eq_iff part "..").1 h));
  one_part = l;
}

names :
    (parts : List String)
    → some_of bad_part parts ≡ false
    → All (λ p. has_slash p ≡ false) parts
    → All IsName parts
names [] h l = tt
names (p ∷ ps) h l =
    (proper p (ground arith) (ground arith) (ground arith) l.0, names ps (ground arith) l.1)

-- A path that `relativePath` accepts is the root itself, or the text that was given, trimmed and with
-- slashes, all of whose parts are names: not empty, not `.` or `..`, and without a slash.
pub relative_path-IsName :
    (raw path : String)
    → relative_path raw ≡ ok path
    → (path ≡ ".") ⊎ ((path ≡ to_slashes (trim_space raw)) × All IsName (split path))
unfolding relative_path
relative_path-IsName raw path h = elim (Bool-cases (has_nul value)) [
  | inl nul ↦ absurd (ground (arith, h, nul))
  | inr no_nul ↦ elim (Bool-cases (is_empty value || value == ".")) [
    | inl here ↦ inl (ground (arith, h, no_nul, here))
    | inr elsewhere ↦ elim (Bool-cases (has_prefix value "/")) [
      | inl absolute ↦ absurd (ground (arith, h, no_nul, elsewhere, absolute))
      | inr relative ↦ elim (Bool-cases (some_of bad_part (split value))) [
        | inl bad ↦ absurd (ground (arith, h, no_nul, elsewhere, relative, bad))
        | inr good ↦
            let same : path ≡ value =
              ground (arith, h, no_nul, elsewhere, relative, good, join-split value) in
            inr (
              same,
              subst (λ p. All IsName (split p)) (sym same)
                  (names (split value) good (split-no_slash value)),
            )
      ]
    ]
  ]
]
  where
    value : String
    value = to_slashes (trim_space raw)

checked-Inside :
    {W : Type 0} (fs : FileSystem W) (a b root target : String)
    → checked fs a b ≡ ok (root, target)
    → Inside root target
checked-Inside fs a b root target h = elim (Bool-cases (within a b)) [
  | inl inside ↦
      let e : ok (a, b) ≡ ok (root, target) = sym (rw inside refl) ∙ h in
      within-Inside root target (ground (arith, e, inside))
  | inr outside ↦ absurd (ground (arith, h, outside))
]

-- A result that every success of an action is known to have.
record Only {S B : Type 0} (Q : B → Type 0) (m : Exec S B) : Type 0 where
  at : (s : S) (b : B) → (m s).0 ≡ ok b → Q b

module _ {S A B : Type 0} (Q : B → Type 0) where
  only_after :
      (f : A → Exec S B) (r : Result A) (s : S) (b : B)
      → ((a : A) → Only Q (f a))
      → (continue r f s).0 ≡ ok b
      → Q b
  only_after f (ok a) s b q h = (q a).at s b h
  only_after f (err e) s b q h = absurd (cc)

-- Whatever the file system answers, a path that is resolved is the root that comes with it or lies
-- under it.
pub resolve-Inside :
    {W : Type 0} (fs : FileSystem W) (ctx : Option Error)
    (workspace_id repository_id relative : String) (w : W) (root target : String)
    → (resolve fs ctx workspace_id repository_id relative w).0 ≡ ok (root, target)
    → Inside root target
unfolding resolve
resolve-Inside fs (some e) workspace_id repository_id relative w root target h = absurd (cc)
resolve-Inside fs none workspace_id repository_id relative w root target h =
    only_after Q _ (fs.root workspace_id repository_id w).0 _ (root, target)
      (λ a. record {
        at = λ s b h1.
            only_after Q _ (eval_mapped fs a s).0 _ b
              (λ c. record {
                at = λ s2 b2 h2.
                    only_after Q _ (relative_path relative) _ b2
                      (λ d. record {
                        at = λ s3 b3 h3.
                            only_after Q _ (eval_mapped fs (join_clean c d) s3).0 _ b3
                              (λ e. record { at = λ s4 b4 h4. checked-Inside fs c e b4.0 b4.1 h4 })
                              h3;
                      })
                      h2;
              })
              h1;
      })
      h
  where
    Q : String × String → Type 0
    Q p = Inside p.0 p.1

no_separator-no_slash : (s : String) → has_separator s ≡ false → has_slash s ≡ false
unfolding has_separator has_slash
no_separator-no_slash String.[] h = refl
no_separator-no_slash (String.◌∷◌ c s) h = ground (arith, no_separator-no_slash s)

-- A repository id for which there is a root is one name, and the root is that name in the base.
pub layout_root-IsName :
    (base repository_id root : String)
    → layout_root base repository_id ≡ ok root
    → IsName repository_id × (root ≡ join_clean base repository_id)
unfolding layout_root valid_component
layout_root-IsName base repository_id root h = (
  proper repository_id (ground (arith, h)) (ground (arith, h)) (ground (arith, h))
      (no_separator-no_slash repository_id (ground (arith, h))),
  ground (arith, h),
)
