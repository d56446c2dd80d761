-- ===== src/Collaboration/Ids.antt =====
-- internal/collaboration/service.go: id makes an id of the second and of one letter out of 26.
use Prim.Native.Char.{code}
use Prim.Native.String
use text.Mathlib.TextLemmas.{append_cancel_left, head-eq_of_cons-eq}
use runspace.Prelude.{
  ℕ, zero, suc, ◌+◌, ◌/◌, ◌%◌, ◌<◌, ◌≡◌, ◌↔◌, refl, sym, ap, ◌∙◌, String, Bool, true, ◌&&◌, eqb,
  arith, Bool-cases, inl, inr,
}
use runspace.Text.Stamp.{time_stamp, time_stamp_second}
use runspace.Errors.{ok}
use runspace.Collaboration.Model.{MemoryService, letter, next_seq, id_text, next_id}

-- Whether the first letters have the codes that follow on that of a.
letters_follow : ℕ → Bool
letters_follow zero = true
letters_follow (suc count) = letters_follow count && eqb (code (letter count)) (count + 97)

code-letter_below :
    (count n : ℕ) → n < count → letters_follow count ≡ true → code (letter n) ≡ n + 97
unfolding letters_follow
code-letter_below zero n below follow = absurd (omega arith)
code-letter_below (suc count) n below follow = elim (Bool-cases (eqb n count)) [
  | inl last ↦
      let same : n ≡ count = ground (arith, last) in
      ap (λ k. code (letter k)) same ∙ ground (arith, follow) ∙ ap (λ k. k + 97) (sym same)
  | inr earlier ↦
      code-letter_below count n (ground (arith, below, earlier)) (ground (arith, follow))
]

alphabet : letters_follow 26 ≡ true
unfolding letters_follow letter
alphabet = refl

code-letter : (n : ℕ) → n < 26 → code (letter n) ≡ n + 97
code-letter n h = code-letter_below 26 n h alphabet

letter_inj : (m n : ℕ) → letter (m % 26) ≡ letter (n % 26) → m % 26 ≡ n % 26
letter_inj m n h =
    omega (arith, ap code h, code-letter (m % 26) (omega arith), code-letter (n % 26) (omega arith))

-- Of one second, ids with one prefix are told apart by their letters only.
id_text_iff :
    (prefix : String) (i j m n : ℕ)
    → i / 1000000000 ≡ j / 1000000000
    → (id_text prefix i m ≡ id_text prefix j n) ↔ (m % 26 ≡ n % 26)
id_text_iff prefix i j m n second = (
  λ h.
      let same = time_stamp_second i j second in
      letter_inj m n (
        head-eq_of_cons-eq (
          append_cancel_left "_" _ _ (
            append_cancel_left (time_stamp j) _ _ (
              append_cancel_left "_" _ _ (
                append_cancel_left prefix _ _ (
                  ap
                    (λ t. String.◌++◌ prefix (
                      String.◌++◌ "_"
                        (String.◌++◌ t (String.◌++◌ "_" (String.◌∷◌ (letter (m % 26)) "")))))
                    (sym same)
                  ∙ h)))))),
  λ h. rw (time_stamp_second i j second, h) refl,
)

module _ {W : Type 0} (prefix : String) (s t : MemoryService W) where
  -- Two ids with one prefix, made in one second, are the same exactly if the sequence numbers that
  -- they are made with agree modulo 26.
  pub next_id_iff :
      (s.wall s.world).0 / 1000000000 ≡ (t.wall t.world).0 / 1000000000
      → ((next_id prefix s).0 ≡ (next_id prefix t).0) ↔ (next_seq s.seq % 26 ≡ next_seq t.seq % 26)
  unfolding next_id
  next_id_iff second =
      let (apart, same) =
        id_text_iff prefix (s.wall s.world).0 (t.wall t.world).0 (next_seq s.seq) (next_seq t.seq)
          second in
      (λ h. apart (ok_inj h), λ h. ap ok (same h))
    where
      ok_inj : {a b : String} → ok a ≡ ok b → a ≡ b
      ok_inj h = cc h
