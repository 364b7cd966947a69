-- ===== src/Plugins/Selected.antt =====
-- Which file a single selection gives.
use flutter_libnx.Prelude.{
  ℕ, zero, suc, ◌≡◌, refl, true, false, some, List, [], ◌∷◌, arith, if◌then◌else◌, if_true,
  if_false, Bool-cases, inl, inr, get_elem?, All, ℤ, pos, negsuc,
}
use mathlib.Core.Path.{subst}
use flutter_libnx.Plugins.FilePicker.{Candidate, int_lt, newest, select}

int_lt_trans : (a b c : ℤ) → int_lt a b ≡ false → int_lt b c ≡ false → int_lt a c ≡ false
unfolding int_lt
int_lt_trans (pos a) (pos b) (pos c) h k = ground arith
int_lt_trans (pos a) b (negsuc c) h k = refl
int_lt_trans (pos a) (negsuc b) (pos c) h k = cc
int_lt_trans (negsuc a) (pos b) c h k = cc
int_lt_trans (negsuc a) (negsuc b) (pos c) h k = cc
int_lt_trans (negsuc a) (negsuc b) (negsuc c) h k = ground arith

int_lt_irrefl : (a : ℤ) → int_lt a a ≡ false
unfolding int_lt
int_lt_irrefl (pos a) = ground arith
int_lt_irrefl (negsuc a) = ground arith

int_lt_asym : (a b : ℤ) → int_lt a b ≡ true → int_lt b a ≡ false
unfolding int_lt
int_lt_asym (pos a) (pos b) h = ground arith
int_lt_asym (pos a) (negsuc b) h = cc
int_lt_asym (negsuc a) (pos b) h = refl
int_lt_asym (negsuc a) (negsuc b) h = ground arith

-- One of the files, and none of them is newer.
abbrev pub IsNewest : Candidate → List Candidate → Type 0
IsNewest c cs = ((i : ℕ) × (get_elem? cs i ≡ some c)) × All (λ d. int_lt c.mtime d.mtime ≡ false) cs

index_behind :
    (best c r : Candidate) (cs : List Candidate) (i : ℕ)
    → get_elem? (best ∷ cs) i ≡ some r
    → (j : ℕ) × (get_elem? (best ∷ c ∷ cs) j ≡ some r)
index_behind best c r cs zero e = (0, e)
index_behind best c r cs (suc i) e = (suc (suc i), e)

IsNewest-next :
    (best c r : Candidate) (cs : List Candidate)
    → IsNewest r ((if int_lt best.mtime c.mtime then c else best) ∷ cs)
    → IsNewest r (best ∷ c ∷ cs)
IsNewest-next best c r cs h = elim (Bool-cases (int_lt best.mtime c.mtime)) [
  | inl newer ↦
      let ((i, e), (rc, rest)) : IsNewest r (c ∷ cs) =
        subst (λ x. IsNewest r (x ∷ cs)) (if_true c best newer) h in
      (
        (suc i, e),
        (
          int_lt_trans r.mtime c.mtime best.mtime rc (int_lt_asym best.mtime c.mtime newer),
          (rc, rest),
        ),
      )
  | inr older ↦
      let ((i, e), (rb, rest)) : IsNewest r (best ∷ cs) =
        subst (λ x. IsNewest r (x ∷ cs)) (if_false c best older) h in
      (index_behind best c r cs i e, (rb, (int_lt_trans r.mtime best.mtime c.mtime rb older, rest)))
]

newest-IsNewest : (best : Candidate) (cs : List Candidate) → IsNewest (newest best cs) (best ∷ cs)
unfolding newest
newest-IsNewest best [] = ((0, refl), (int_lt_irrefl best.mtime, tt))
newest-IsNewest best (c ∷ cs) =
    IsNewest-next best c _ cs (newest-IsNewest (if int_lt best.mtime c.mtime then c else best) cs)

-- Without multiple selection, and with a file found, one file is selected: one of those found, none of
-- which is newer.
pub select-IsNewest :
    (found : Candidate) (more : List Candidate)
    → (c : Candidate) × (select false (found ∷ more) ≡ c ∷ []) × IsNewest c (found ∷ more)
unfolding select
select-IsNewest found more = (newest found more, refl, newest-IsNewest found more)
