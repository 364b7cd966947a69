-- ===== src/Video/Pointers.antt =====
-- Outputs by pointer, and the render contexts that one output owns through the operations on it.
use flutter_libnx.Prelude.{
  ℕ, ◌≡◌, ◌≢◌, refl, sym, ap, ◌∙◌, inl, inr, true, false, some, List, [], ◌∷◌, ◌++◌, arith,
  Bool-cases, ◌==◌,
}
use flutter_libnx.Video.Outputs.{VideoOutput, output_at, put_output, erase_output}

-- The pointers to `id`.
same_id : (a b : ℕ) → (a == b) ≡ true → a ≡ b
same_id a b h = ground arith

other_id : (a b : ℕ) → a ≢ b → (a == b) ≡ false
other_id a b h = ground arith

pub output_at-id :
    (id : ℕ) (os : List VideoOutput) (o : VideoOutput)
    → output_at id os ≡ some o
    → o.texture_id ≡ id
unfolding output_at
output_at-id id [] o h = cc
output_at-id id (p ∷ os) o h = elim (Bool-cases (p.texture_id == id)) [
  | inl here ↦
      (let e = rw here at h in
        let same : p ≡ o = cc in
        ap (λ (x : VideoOutput). x.texture_id) (sym same) ∙ same_id p.texture_id id here)
  | inr there ↦ output_at-id id os o (rw there at h)
]

pub output_at-put_self :
    (id : ℕ) (os : List VideoOutput) (o new : VideoOutput)
    → output_at id os ≡ some o
    → new.texture_id ≡ id
    → output_at id (put_output id new os) ≡ some new
unfolding output_at put_output
output_at-put_self id [] o new h e = cc
output_at-put_self id (p ∷ os) o new h e = elim (Bool-cases (p.texture_id == id)) [
  | inl here ↦ (let match : (new.texture_id == id) ≡ true = ground arith in rw (here, match) refl)
  | inr there ↦ rw (there, output_at, there) (output_at-put_self id os o new (rw there at h) e)
]

pub output_at-put_ne :
    (id j : ℕ) (os : List VideoOutput) (new : VideoOutput)
    → new.texture_id ≡ id
    → j ≢ id
    → output_at j (put_output id new os) ≡ output_at j os
unfolding output_at put_output
output_at-put_ne id j [] new e ne = refl
output_at-put_ne id j (p ∷ os) new e ne = elim (Bool-cases (p.texture_id == id)) [
  | inl here ↦
      let a : (p.texture_id == j) ≡ false =
        other_id p.texture_id j (λ q. ne (sym q ∙ same_id p.texture_id id here)) in
      let b : (new.texture_id == j) ≡ false = other_id new.texture_id j (λ q. ne (sym q ∙ e)) in
      rw (here, output_at, a, b) refl
  | inr there ↦ rw (there, output_at, output_at-put_ne id j os new e ne) refl
]

pub output_at-erase_ne :
    (id j : ℕ) (os : List VideoOutput) → j ≢ id → output_at j (erase_output id os) ≡ output_at j os
unfolding output_at erase_output
output_at-erase_ne id j [] ne = refl
output_at-erase_ne id j (p ∷ os) ne = elim (Bool-cases (p.texture_id == id)) [
  | inl here ↦
      let a : (p.texture_id == j) ≡ false =
        other_id p.texture_id j (λ q. ne (sym q ∙ same_id p.texture_id id here)) in
      rw (here, a) refl
  | inr there ↦ rw (there, output_at, output_at-erase_ne id j os ne) refl
]

pub output_at-append :
    (j : ℕ) (os more : List VideoOutput) (o : VideoOutput)
    → output_at j os ≡ some o
    → output_at j (os ++ more) ≡ some o
unfolding output_at
output_at-append j [] more o h = cc
output_at-append j (p ∷ os) more o h = elim (Bool-cases (p.texture_id == j)) [
  | inl here ↦ rw here (rw here at h)
  | inr there ↦ rw there (output_at-append j os more o (rw there at h))
]
