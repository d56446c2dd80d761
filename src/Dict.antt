-- ===== src/Dict.antt =====
-- Go's maps with text keys. The laws are about `get`. The order of iteration, which Go leaves open, is
-- that of insertion here; the listing of the resource graph, which stops at a limit, takes the order as
-- a parameter.
use runspace.Prelude.{
  String, ◌≡◌, refl, Option, none, some, List, [], ◌∷◌, map, arith, ◌==◌, eq_iff, if◌then◌else◌, In,
  or_else,
}

pub record Entry {ℓ} (V : Type ℓ) : Type ℓ where
  pub key : String
  pub value : V

pub record Dict {ℓ} (V : Type ℓ) : Type ℓ where
  pub entries : List (Entry V)

module _ {ℓ} {V : Type ℓ} where
  abbrev entry : String → V → Entry V
  entry k v = record { key = k; value = v }

  pub find : List (Entry V) → String → Option V
  find [] k = none
  find (e ∷ es) k = let later = find es k in if e.key == k then some e.value else later

  pub write : List (Entry V) → String → V → List (Entry V)
  write [] k v = entry k v ∷ []
  write (e ∷ es) k v = let later = write es k v in if e.key == k then entry k v ∷ es else e ∷ later

  pub drop_key : List (Entry V) → String → List (Entry V)
  drop_key [] k = []
  drop_key (e ∷ es) k = let later = drop_key es k in if e.key == k then later else e ∷ later

  unfoldable pub empty : Dict V
  empty = record { entries = [] }

  -- v, ok := m[k]
  unfoldable pub get : Dict V → String → Option V
  unfolding find
  get m k = find m.entries k

  -- m[k] = v
  unfoldable pub put : Dict V → String → V → Dict V
  unfolding write
  put m k v = record { entries = write m.entries k v }

  -- delete(m, k)
  unfoldable pub remove : Dict V → String → Dict V
  unfolding drop_key
  remove m k = record { entries = drop_key m.entries k }

  -- The entries are met from the last to the first.
  put_entries : Dict V → List (Entry V) → Dict V
  unfolding put
  put_entries d [] = d
  put_entries d (e ∷ es) = put (put_entries d es) e.key e.value

  -- for k, v := range m { d[k] = v }
  unfoldable pub put_all : Dict V → Dict V → Dict V
  unfolding put_entries
  put_all d m = put_entries d m.entries

  -- for _, v := range m
  unfoldable pub values : Dict V → List V
  values m = map (λ e. e.value) m.entries

  find-write :
      (es : List (Entry V)) (k j : String) (v : V)
      → find (write es k v) j ≡ (if k == j then some v else find es j)
  unfolding find write
  find-write [] k j v = refl
  find-write (e ∷ es) k j v =
      ground (arith, find-write es k j v, eq_iff e.key k, eq_iff e.key j, eq_iff k j)

  find-drop_key :
      (es : List (Entry V)) (k j : String)
      → find (drop_key es k) j ≡ (if k == j then none else find es j)
  unfolding find drop_key
  find-drop_key [] k j = ground arith
  find-drop_key (e ∷ es) k j =
      ground (arith, find-drop_key es k j, eq_iff e.key k, eq_iff e.key j, eq_iff k j)

  pub get-empty : (k : String) → get empty k ≡ none
  unfolding get empty
  get-empty k = refl

  pub get-put :
      (m : Dict V) (k j : String) (v : V) → get (put m k v) j ≡ (if k == j then some v else get m j)
  unfolding get put
  get-put m k j v = find-write m.entries k j v

  pub get-remove :
      (m : Dict V) (k j : String) → get (remove m k) j ≡ (if k == j then none else get m j)
  unfolding get remove
  get-remove m k j = find-drop_key m.entries k j

  get-put_entries :
      (d : Dict V) (es : List (Entry V)) (k : String)
      → get (put_entries d es) k ≡ or_else (find es k) (get d k)
  unfolding put_entries find
  get-put_entries d [] k = refl
  get-put_entries d (e ∷ es) k =
      ground (arith, get-put (put_entries d es) e.key k e.value, get-put_entries d es k)

  pub get-put_all : (d m : Dict V) (k : String) → get (put_all d m) k ≡ or_else (get m k) (get d k)
  unfolding put_all get
  get-put_all d m k = get-put_entries d m.entries k

find-In :
    {V : Type 0} (es : List (Entry V)) (k : String) (v : V)
    → find es k ≡ some v
    → In v (map (λ e. e.value) es)
unfolding find
find-In [] k v h = ground arith
find-In (e ∷ es) k v h = ground (arith, find-In es k v)

-- A stored value is met by an iteration.
pub get-In-values :
    {V : Type 0} (m : Dict V) (k : String) (v : V) → get m k ≡ some v → In v (values m)
unfolding get values
get-In-values m k v h = find-In m.entries k v h

pub ruleset dict_laws = (get-empty, get-put, get-remove)
