-- ===== src/Text/Prefix.antt =====
-- strings.HasPrefix: what a test that succeeds says.
use Prim.Native.Char.{Char, code}
use Prim.Native.String
use Prim.Native.String.append
use text.Mathlib.TextEquality.{Char-path}
use runspace.Prelude.{◌≡◌, refl, sym, ap, ◌∙◌, String, true, arith, eqb}
use runspace.Text.{has_prefix}

pub same_char : (c d : Char) → eqb (code c) (code d) ≡ true → c ≡ d
same_char c d h = Char-path c d (ground arith)

pub prefix-rest :
    (s t : String) → has_prefix s t ≡ true → (rest : String) × (s ≡ String.◌++◌ t rest)
unfolding has_prefix
prefix-rest s String.[] h = (s, sym (append.nil s))
prefix-rest String.[] (String.◌∷◌ d t) h = absurd (cc)
prefix-rest (String.◌∷◌ c s) (String.◌∷◌ d t) h =
    let (rest, e) = prefix-rest s t (ground arith) in
    (
      rest,
      ap (λ x. String.◌∷◌ x s) (same_char c d (ground arith))
          ∙ ap (String.◌∷◌ d) e
          ∙ sym (append.cons d t rest),
    )

pub has_prefix-append : (t rest : String) → has_prefix (String.◌++◌ t rest) t ≡ true
unfolding has_prefix
has_prefix-append String.[] rest = refl
has_prefix-append (String.◌∷◌ c t) rest =
    rw (append.cons c t rest) (ground (arith, has_prefix-append t rest))
