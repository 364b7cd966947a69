-- ===== src/Codec/Sizes.antt =====
-- The size prefix and the padding: what the reader finds where the writer has been.
use flutter_libnx.Prelude.{
  ℕ, zero, suc, ◌-◌, ◌/◌, ◌%◌, ◌^◌, ◌<◌, ◌≤◌, ◌≡◌, refl, ◌∙◌, List, [], ◌∷◌, ◌++◌, append_assoc,
  length, word_bytes, word_bytes-IsByte, arith, inl, inr, Bool-cases, ◌==◌, ◌⊎◌, lt→leb,
}
use flutter_libnx.Codec.Encode.{push_back, push_word, write_size, align_loop, align_to}
use flutter_libnx.Codec.Decode.{Decoded, ok, read_size, skip_loop, skip_alignment}
use flutter_libnx.Codec.Extends.{
  Extends, Extends-refl, Extends-trans, Extends-append, length-Extends, length-push_back,
  from_bytes-word32, read_size_short, read_size_long,
}

-- The three forms of a size.
write_size_one : (n : ℕ) (out : List ℕ) → n < 254 → write_size n out ≡ push_back n out
unfolding write_size
write_size_one n out h = ground arith

abbrev two_bytes : ℕ → List ℕ
two_bytes n = (n % 256) ∷ (n / 2 ^ 8 % 256) ∷ []

write_size_two :
    (n : ℕ) (out : List ℕ)
    → 254 ≤ n
    → n ≤ 0xFFFF
    → write_size n out ≡ push_back 254 out ++ two_bytes n
unfolding write_size
write_size_two n out h k =
    ground (arith, append_assoc (push_back 254 out) ((n % 256) ∷ []) ((n / 2 ^ 8 % 256) ∷ []))

write_size_four :
    (n : ℕ) (out : List ℕ) → 0xFFFF < n → write_size n out ≡ push_word 4 n (push_back 255 out)
unfolding write_size
write_size_four n out h = ground arith

size_forms : (n : ℕ) → (n < 254) ⊎ ((254 ≤ n) × (n ≤ 0xFFFF)) ⊎ (0xFFFF < n)
size_forms n = ground arith

pub write_size-Extends : (n : ℕ) (out : List ℕ) → Extends out (write_size n out)
write_size-Extends n out = elim (size_forms n) [
  | inl one ↦ rw (write_size_one n out one) (Extends-append out _)
  | inr (inl (two, le)) ↦
      rw (write_size_two n out two le)
        (Extends-trans out _ _ (Extends-append out _) (Extends-append (push_back 254 out) _))
  | inr (inr four) ↦
      rw (write_size_four n out four)
        (Extends-trans out _ _ (Extends-append out _) (Extends-append (push_back 255 out) _))
]

same_size : {v w c : ℕ} → v ≡ w → ◌≡◌ {A = Decoded (ℕ × ℕ)} (ok (v, c)) (ok (w, c))
same_size e = cc

-- ReadSize returns every 32-bit size that WriteSize wrote, and stops behind it.
pub read_size-write_size :
    (n : ℕ) (out whole : List ℕ)
    → n < 2 ^ 32
    → Extends (write_size n out) whole
    → read_size whole (length out) ≡ ok (n, length (write_size n out))
read_size-write_size n out whole fits = elim (size_forms n) [
  | inl one ↦
      rw (write_size_one n out one, length-push_back n out) (read_size_short n out whole one)
  | inr (inl (two, le)) ↦ rw (write_size_two n out two le) (λ e.
      read_size_long 254 out (two_bytes n) whole (omega arith) refl (omega arith) e
      ∙ same_size (omega arith))
  | inr (inr four) ↦ rw (write_size_four n out four) (λ e.
      read_size_long 255 out (word_bytes 4 0 n) whole (omega arith) refl (word_bytes-IsByte 4 0 n) e
      ∙ same_size (from_bytes-word32 n ∙ omega arith))
]

-- AlignTo pads to a multiple of eight, and SkipAlignment steps over as many bytes.
align_loop-Extends :
    (rounds alignment : ℕ) (out : List ℕ) → Extends out (align_loop rounds alignment out)
unfolding align_loop
align_loop-Extends zero alignment out = Extends-refl out
align_loop-Extends (suc rounds) alignment out = elim (Bool-cases (length out % alignment == 0)) [
  | inl done ↦ rw done (Extends-refl out)
  | inr more ↦ rw more (
      Extends-trans out _ _ (Extends-append out _)
        (align_loop-Extends rounds alignment (push_back 0 out)))
]

pub align_to-Extends : (alignment : ℕ) (out : List ℕ) → Extends out (align_to alignment out)
unfolding align_to
align_to-Extends alignment out = align_loop-Extends alignment alignment out

align_loop_aligned :
    (rounds : ℕ) (out : List ℕ)
    → (8 - length out % 8) % 8 ≤ rounds
    → length (align_loop rounds 8 out) % 8 ≡ 0
unfolding align_loop
align_loop_aligned zero out h = omega arith
align_loop_aligned (suc rounds) out h = elim (Bool-cases (length out % 8 == 0)) [
  | inl done ↦ rw done (ground arith)
  | inr more ↦
      rw more (align_loop_aligned rounds (push_back 0 out) (ground (arith, length-push_back 0 out)))
]

-- The eight rounds of `align_to` are enough: the padded length is a multiple of eight.
pub align_to_aligned : (out : List ℕ) → length (align_to 8 out) % 8 ≡ 0
unfolding align_to
align_to_aligned out = align_loop_aligned 8 out (omega arith)

skip_loop-align_loop :
    (rounds : ℕ) (out : List ℕ) (size : ℕ)
    → (8 - length out % 8) % 8 < rounds
    → length (align_loop rounds 8 out) ≤ size
    → skip_loop rounds 8 size (length out) ≡ ok (length (align_loop rounds 8 out))
unfolding skip_loop align_loop
skip_loop-align_loop zero out size h = absurd (omega arith)
skip_loop-align_loop (suc rounds) out size h = elim (Bool-cases (length out % 8 == 0)) [
  | inl done ↦ rw done (λ fits. refl)
  | inr more ↦ rw more (λ fits.
      let padded = align_loop-Extends rounds 8 (push_back 0 out) in
      let longer = length-Extends _ _ padded in
      let ih =
        skip_loop-align_loop rounds (push_back 0 out) size (ground (arith, length-push_back 0 out))
          fits in
      rw (lt→leb (length out) size (omega (arith, length-push_back 0 out)))
        (rw (length-push_back 0 out) at ih))
]

pub skip_alignment-align_to :
    (out : List ℕ) (size : ℕ)
    → length (align_to 8 out) ≤ size
    → skip_alignment 8 size (length out) ≡ ok (length (align_to 8 out))
unfolding skip_alignment align_to
skip_alignment-align_to out size fits = skip_loop-align_loop 8 out size (omega arith) fits
