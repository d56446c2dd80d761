-- ===== src/Secrets/Tests/Plain.antt =====
-- A cipher for the tests that hides nothing: a text is sealed as its code points.
use Prim.Native.Char.{Char, char, code, nul, IsLt, IsScalar}
use Prim.Native.Nat.{compare, Ordering}
use runspace.Prelude.{ℕ, ◌≡◌, refl, String, Option, none, some, List, [], ◌∷◌, ap}
use runspace.Errors.{ok}
use runspace.Secrets.Model.{Aead}

-- What `IsScalar` computes to.
abbrev IsBoth : Ordering → Ordering → Type 0
IsBoth Ordering.lt o = IsLt o
IsBoth Ordering.eq _ = ⊥
IsBoth Ordering.gt _ = ⊥

abbrev IsScalarBy : Ordering → Ordering → Ordering → Type 0
IsScalarBy Ordering.lt _ _ = Unit
IsScalarBy Ordering.eq o p = IsBoth o p
IsScalarBy Ordering.gt o p = IsBoth o p

decide_both : (o p : Ordering) → Option (IsBoth o p)
decide_both Ordering.lt Ordering.lt = some tt
decide_both Ordering.lt Ordering.eq = none
decide_both Ordering.lt Ordering.gt = none
decide_both Ordering.eq p = none
decide_both Ordering.gt p = none

decide_scalar : (o p q : Ordering) → Option (IsScalarBy o p q)
decide_scalar Ordering.lt p q = some tt
decide_scalar Ordering.eq p q = decide_both p q
decide_scalar Ordering.gt p q = decide_both p q

decide_both-some : (o p : Ordering) (x : IsBoth o p) → decide_both o p ≡ some x
unfolding decide_both
decide_both-some Ordering.lt Ordering.lt x = refl
decide_both-some Ordering.lt Ordering.eq x = elim x [ ]
decide_both-some Ordering.lt Ordering.gt x = elim x [ ]
decide_both-some Ordering.eq p x = elim x [ ]
decide_both-some Ordering.gt p x = elim x [ ]

decide_scalar-some : (o p q : Ordering) (x : IsScalarBy o p q) → decide_scalar o p q ≡ some x
unfolding decide_scalar
decide_scalar-some Ordering.lt p q x = refl
decide_scalar-some Ordering.eq p q x = decide_both-some p q x
decide_scalar-some Ordering.gt p q x = decide_both-some p q x

char_from : (n : ℕ) → Option (IsScalar n) → Char
char_from n none = nul
char_from n (some p) = char n p

char_of : ℕ → Char
unfolding char_from decide_scalar decide_both
char_of n = char_from n (decide_scalar (compare n 55296) (compare 57343 n) (compare n 1114112))

char_of-code : (c : Char) → char_of (code c) ≡ c
unfolding char_of
char_of-code (char n p) =
    ap (char_from n) (decide_scalar-some (compare n 55296) (compare 57343 n) (compare n 1114112) p)

codes : String → List ℕ
codes String.[] = []
codes (String.◌∷◌ c s) = code c ∷ codes s

text_of : List ℕ → String
unfolding char_of
text_of [] = ""
text_of (n ∷ ns) = String.◌∷◌ (char_of n) (text_of ns)

text_of-codes : (s : String) → text_of (codes s) ≡ s
unfolding text_of codes
text_of-codes String.[] = refl
text_of-codes (String.◌∷◌ c s) = rw (char_of-code, text_of-codes s) refl

abbrev pub plain : Aead
unfolding codes text_of
plain = record {
  nonce_size = 12;
  seal = λ nonce value. codes value;
  open_sealed = λ nonce bytes. ok (text_of bytes);
}

pub plain-opens :
    (nonce : List ℕ) (value : String) → plain.open_sealed nonce (plain.seal nonce value) ≡ ok value
unfolding codes text_of
plain-opens nonce value = ap ok (text_of-codes value)
