-- ===== src/Workspace/Slug.antt =====
-- internal/workspace/memory_access.go: slugify. Of strings.ToLower only what can become an ASCII
-- letter matters: what stays outside ASCII becomes a dash either way.
use Prim.Native.Char.{Char, code}
use runspace.Prelude.{
  inl, inr, Bool-cases, ◌≡◌, refl, String, Bool, true, false, ◌&&◌, ◌||◌, leb, eqb, arith,
  if◌then◌else◌, is_empty,
}
use runspace.Text.{trim_space}

-- The lower case of a letter of the first table is the one at its place in the second.
lower_from : String → String → Char → Char
lower_from (String.◌∷◌ u us) (String.◌∷◌ l ls) c =
    let rest = lower_from us ls c in if eqb (code u) (code c) then l else rest
lower_from _ _ c = c

pub lower : Char → Char
unfolding lower_from
lower c = lower_from "ABCDEFGHIJKLMNOPQRSTUVWXYZKİ" "abcdefghijklmnopqrstuvwxyzki" c

pub to_lower : String → String
unfolding lower
to_lower String.[] = ""
to_lower (String.◌∷◌ c s) = String.◌∷◌ (lower c) (to_lower s)

abbrev pub is_slug_char : Char → Bool
is_slug_char c = leb 97 (code c) && leb (code c) 122 || leb 48 (code c) && leb (code c) 57

abbrev pub is_dash : Char → Bool
is_dash c = eqb (code c) 45

-- The loop once something is written,
dashed : String → String
dashed String.[] = ""
dashed (String.◌∷◌ c s) = String.◌∷◌ (if is_slug_char c then c else "-") (dashed s)

-- and while nothing is: b.Len() > 0 fails.
slug_from : String → String
unfolding dashed
slug_from String.[] = ""
slug_from (String.◌∷◌ c s) =
    let skipped = slug_from s in if is_slug_char c then String.◌∷◌ c (dashed s) else skipped

trim_dashes_left : String → String
trim_dashes_left String.[] = ""
trim_dashes_left (String.◌∷◌ c s) =
    let rest = trim_dashes_left s in if is_dash c then rest else String.◌∷◌ c s

abbrev drop_dash : Char → String → String
drop_dash c rest = if is_empty rest && is_dash c then "" else String.◌∷◌ c rest

trim_dashes_right : String → String
trim_dashes_right String.[] = ""
trim_dashes_right (String.◌∷◌ c s) = drop_dash c (trim_dashes_right s)

pub slugify : String → String
unfolding to_lower slug_from trim_dashes_left trim_dashes_right
slugify s = trim_dashes_right (trim_dashes_left (slug_from (to_lower (trim_space s))))

-- Letters, digits and dashes, with no dash at either end.
pub all_slug : String → Bool
all_slug String.[] = true
all_slug (String.◌∷◌ c s) = (is_slug_char c || is_dash c) && all_slug s

pub starts_dash : String → Bool
starts_dash String.[] = false
starts_dash (String.◌∷◌ c s) = is_dash c

pub ends_dash : String → Bool
ends_dash String.[] = false
ends_dash (String.◌∷◌ c s) = let rest = ends_dash s in if is_empty s then is_dash c else rest

pub record IsSlug (s : String) : Type 0 where
  pub of_slug_chars : all_slug s ≡ true
  pub no_dash_first : starts_dash s ≡ false
  pub no_dash_last : ends_dash s ≡ false

all_slug-dashed : (s : String) → all_slug (dashed s) ≡ true
unfolding all_slug dashed
all_slug-dashed String.[] = refl
all_slug-dashed (String.◌∷◌ c s) = elim (Bool-cases (is_slug_char c)) [
  | inl fit ↦ rw (fit, fit, all_slug-dashed s) refl
  | inr other ↦ rw (other, all_slug-dashed s) refl
]

all_slug-slug_from : (s : String) → all_slug (slug_from s) ≡ true
unfolding all_slug slug_from
all_slug-slug_from String.[] = refl
all_slug-slug_from (String.◌∷◌ c s) = ground (arith, all_slug-slug_from s, all_slug-dashed s)

all_slug-trim_left : (s : String) → all_slug s ≡ true → all_slug (trim_dashes_left s) ≡ true
unfolding all_slug trim_dashes_left
all_slug-trim_left String.[] h = refl
all_slug-trim_left (String.◌∷◌ c s) h = ground (arith, all_slug-trim_left s)

all_slug-trim_right : (s : String) → all_slug s ≡ true → all_slug (trim_dashes_right s) ≡ true
unfolding all_slug trim_dashes_right
all_slug-trim_right String.[] h = refl
all_slug-trim_right (String.◌∷◌ c s) h = ground (arith, all_slug-trim_right s)

starts_dash-trim_left : (s : String) → starts_dash (trim_dashes_left s) ≡ false
unfolding starts_dash trim_dashes_left
starts_dash-trim_left String.[] = refl
starts_dash-trim_left (String.◌∷◌ c s) = ground (arith, starts_dash-trim_left s)

starts_dash-trim_right :
    (s : String) → starts_dash s ≡ false → starts_dash (trim_dashes_right s) ≡ false
unfolding starts_dash trim_dashes_right
starts_dash-trim_right String.[] h = refl
starts_dash-trim_right (String.◌∷◌ c s) h = ground arith

ends_dash-trim_right : (s : String) → ends_dash (trim_dashes_right s) ≡ false
unfolding ends_dash trim_dashes_right
ends_dash-trim_right String.[] = refl
ends_dash-trim_right (String.◌∷◌ c s) = ground (arith, ends_dash-trim_right s)

-- A slug is made of small ASCII letters, digits and dashes, and neither begins nor ends with a dash.
slugify-IsSlug : (name : String) → IsSlug (slugify name)
unfolding slugify
slugify-IsSlug name =
    let body = slug_from (to_lower (trim_space name)) in
    record {
      of_slug_chars =
          all_slug-trim_right _
            (all_slug-trim_left body (all_slug-slug_from (to_lower (trim_space name))));
      no_dash_first = starts_dash-trim_right _ (starts_dash-trim_left body);
      no_dash_last = ends_dash-trim_right (trim_dashes_left body);
    }
