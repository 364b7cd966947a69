-- ===== src/Codec/Answers.antt =====
-- A postcondition on an outcome of the decoder: it is rejected, or returns a value that satisfies `P`;
-- it is neither a read outside the buffer nor a loop without end.
use flutter_libnx.Prelude.{Bool, true, false, ◌≡◌, refl, if◌then◌else◌, ◌≢◌}
use mathlib.Core.Path.{subst}
use flutter_libnx.Codec.Decode.{Decoded, ok, rejected, fault, stuck, ◌>>=◌}

pub data Answers {ℓ κ} {A : Type ℓ} (P : A → Type κ) : Decoded A → Type (ℓ ⊔ κ) where
  returns : {a : A} → P a → Answers P (ok a)
  rejects : Answers P rejected

module _ {ℓ κ} {A : Type ℓ} {P : A → Type κ} where
  pub Answers-bind {ℓ' κ'} :
      {B : Type ℓ'} {Q : B → Type κ'} {m : Decoded A} {f : A → Decoded B}
      → Answers P m
      → ((a : A) → P a → Answers Q (f a))
      → Answers Q (m >>= f)
  Answers-bind (returns {a} h) k = k a h
  Answers-bind rejects k = rejects

  pub Answers-if :
      (b : Bool) {x y : Decoded A}
      → (b ≡ true → Answers P x)
      → (b ≡ false → Answers P y)
      → Answers P (if b then x else y)
  Answers-if true hx hy = hx refl
  Answers-if false hx hy = hy refl

  pub Answers-ok : {m : Decoded A} {a : A} → Answers P m → m ≡ ok a → P a
  Answers-ok (returns h) e = subst P (cc) h
  Answers-ok rejects e = cc

  pub Answers-ne-fault : {m : Decoded A} → Answers P m → m ≢ fault
  Answers-ne-fault (returns h) = cc
  Answers-ne-fault rejects = cc

  pub Answers-ne-stuck : {m : Decoded A} → Answers P m → m ≢ stuck
  Answers-ne-stuck (returns h) = cc
  Answers-ne-stuck rejects = cc

pub Answers-weaken {ℓ κ κ'} :
    {A : Type ℓ} {P : A → Type κ} {Q : A → Type κ'} {m : Decoded A}
    → Answers P m
    → ((a : A) → P a → Q a)
    → Answers Q m
Answers-weaken (returns {a} h) k = returns (k a h)
Answers-weaken rejects k = rejects
