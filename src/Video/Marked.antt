-- ===== src/Video/Marked.antt =====
-- The pump marks the outputs that are ready, at most eight of them.
use flutter_libnx.Prelude.{
  ℕ, zero, suc, ◌+◌, ◌-◌, ◌<◌, ◌≤◌, ◌≡◌, refl, ap, ◌∙◌, inl, inr, Bool, true, false, not, ◌&&◌, ℤ,
  pos, negsuc, some, ◌∷◌, [], List, ◌++◌, arith, if◌then◌else◌, if-both, Bool-cases, ◌==◌, ltb,
  length, length-append, take, append_assoc, append-nil,
}
use mathlib.Core.List.{Mem, mem-cons_self, mem-cons_of_mem, mem-append_right}
use flutter_libnx.Video.Outputs.{VideoOutput, output_at}
use flutter_libnx.Video.Frame.{Video, is_ready, collect_ready, is_positive, pump}

-- The ready outputs, in their order.
unfoldable pub ready_ids : List VideoOutput → List ℕ
ready_ids [] = []
ready_ids (o ∷ os) = let rest = ready_ids os in if is_ready o then o.texture_id ∷ rest else rest

take_suc : (n : ℕ) (x : ℕ) (xs : List ℕ) → n < 8 → take (8 - n) (x ∷ xs) ≡ x ∷ take (8 - (n + 1)) xs
take_suc n x xs below = let e : 8 - n ≡ suc (8 - (n + 1)) = omega arith in rw e refl

take_nil : (n : ℕ) → take {A = ℕ} n [] ≡ []
take_nil zero = refl
take_nil (suc n) = refl

collect_ready-take :
    (os : List VideoOutput) (acc : List ℕ)
    → length acc ≤ 8
    → collect_ready os acc ≡ acc ++ take (8 - length acc) (ready_ids os)
unfolding collect_ready ready_ids
collect_ready-take [] acc h = rw (take_nil (8 - length acc), append-nil) refl
collect_ready-take (o ∷ os) acc h = elim (Bool-cases (is_ready o)) [
  | inl ready ↦ elim (Bool-cases (ltb (length acc) 8)) [
    | inl room ↦
        let below : length acc < 8 = ground arith in
        let one : length (acc ++ (o.texture_id ∷ [])) ≡ length acc + 1 =
          length-append acc (o.texture_id ∷ []) in
        let fits : length (acc ++ (o.texture_id ∷ [])) ≤ 8 = rw one (omega arith) in
        rw
          (
            ready,
            room,
            collect_ready-take os (acc ++ (o.texture_id ∷ [])) fits,
            one,
            take_suc (length acc) o.texture_id (ready_ids os) below,
            append_assoc,
          )
          refl
    | inr full ↦
        let e : 8 - length acc ≡ 0 = ground arith in
        rw (ready, full, collect_ready-take os acc h, e) refl
  ]
  | inr other ↦ rw (other, collect_ready-take os acc h) refl
]

-- A frame waits for the output, it was given a width, and it is neither being disposed of nor failed.
abbrev pub IsReady : VideoOutput → Type 0
IsReady o =
    (o.frame_pending ≡ true)
    × ((n : ℕ) × (o.pending_width ≡ pos (suc n)))
    × (o.dispose_requested ≡ false)
    × (o.create_failed ≡ false)

-- The ids are those of the outputs that are ready, in their order.
pub data Ready : List VideoOutput → List ℕ → Type 0 where
  no_output : Ready [] []
  ready :
      {o : VideoOutput} {os : List VideoOutput} {ids : List ℕ}
      → IsReady o
      → Ready os ids
      → Ready (o ∷ os) (o.texture_id ∷ ids)
  not_ready :
      {o : VideoOutput} {os : List VideoOutput} {ids : List ℕ}
      → ¬ IsReady o
      → Ready os ids
      → Ready (o ∷ os) ids

positive_suc : (w : ℤ) → is_positive w ≡ true → (n : ℕ) × (w ≡ pos (suc n))
positive_suc (pos zero) h = cc
positive_suc (pos (suc n)) h = (n, refl)
positive_suc (negsuc n) h = cc

all_four :
    (a b c d : Bool)
    → (a && (b && (not c && not d))) ≡ true
    → (a ≡ true) × (b ≡ true) × (c ≡ false) × (d ≡ false)
all_four true true false false h = (refl, refl, refl, refl)
all_four true true false true h = cc
all_four true true true d h = cc
all_four true false c d h = cc
all_four false b c d h = cc

is_ready-IsReady : (o : VideoOutput) → is_ready o ≡ true → IsReady o
unfolding is_ready
is_ready-IsReady o h =
    let (frame, wide, stays, fine) =
      all_four o.frame_pending (is_positive o.pending_width) o.dispose_requested o.create_failed
        h in
    (frame, positive_suc o.pending_width wide, stays, fine)

positive : (n : ℕ) → is_positive (pos (suc n)) ≡ true
positive n = ground arith

IsReady-is_ready : (o : VideoOutput) → IsReady o → is_ready o ≡ true
unfolding is_ready
IsReady-is_ready o (frame, (n, width), stays, fine) =
    let wide : is_positive o.pending_width ≡ true = ap is_positive width ∙ positive n in
    rw (frame, wide, stays, fine) refl

ready_ids-Ready : (os : List VideoOutput) → Ready os (ready_ids os)
unfolding ready_ids
ready_ids-Ready [] = no_output
ready_ids-Ready (o ∷ os) = elim (Bool-cases (is_ready o)) [
  | inl holds ↦ rw holds (ready (is_ready-IsReady o holds) (ready_ids-Ready os))
  | inr other ↦
      rw other (not_ready (λ r. (let e = IsReady-is_ready o r in cc)) (ready_ids-Ready os))
]

pump-ready_ids :
    (s : Video) → pump s ≡ record s { marked = s.marked ++ take 8 (ready_ids s.outputs) }
unfolding pump
pump-ready_ids s =
    let all : collect_ready s.outputs [] ≡ take 8 (ready_ids s.outputs) =
      collect_ready-take s.outputs [] (omega arith) in
    ap (λ (xs : List ℕ). record s { marked = s.marked ++ xs }) all

-- The pump marks the first eight of the outputs that are ready, in their order: a frame waits for them,
-- they were given a width, and they are neither being disposed of nor failed. It changes nothing else.
pub pump-take :
    (s : Video)
    → (ids : List ℕ) × Ready s.outputs ids × (pump s ≡ record s { marked = s.marked ++ take 8 ids })
pump-take s = (ready_ids s.outputs, ready_ids-Ready s.outputs, pump-ready_ids s)

length-ready_ids : (os : List VideoOutput) → length (ready_ids os) ≤ length os
unfolding ready_ids
length-ready_ids [] = omega arith
length-ready_ids (o ∷ os) =
    let rest = length-ready_ids os in
    if-both (λ (xs : List ℕ). length xs ≤ suc (length os)) (is_ready o) _ _ (omega arith)
      (omega arith)

take_all : (n : ℕ) (xs : List ℕ) → length xs ≤ n → take n xs ≡ xs
take_all zero [] h = refl
take_all zero (x ∷ xs) h = elim h [ ]
take_all (suc n) [] h = refl
take_all (suc n) (x ∷ xs) h = ap (λ (ys : List ℕ). x ∷ ys) (take_all n xs (omega arith))

ready_ids-Mem :
    (id : ℕ) (os : List VideoOutput) (o : VideoOutput)
    → output_at id os ≡ some o
    → is_ready o ≡ true
    → Mem id (ready_ids os)
unfolding output_at ready_ids
ready_ids-Mem id [] o at h = cc
ready_ids-Mem id (p ∷ os) o at h = elim (Bool-cases (p.texture_id == id)) [
  | inl here ↦
      let e : some p ≡ some o = rw here at at in
      let same : p ≡ o = cc in
      let ready : is_ready p ≡ true = ap is_ready same ∙ h in
      let q : id ≡ p.texture_id = ground arith in rw (ready, q) mem-cons_self
  | inr there ↦
      let m = ready_ids-Mem id os o (rw there at at) h in
      if-both (λ (xs : List ℕ). Mem id xs) (is_ready p) _ _ (mem-cons_of_mem p.texture_id m) m
]

-- With at most eight outputs, every ready one is marked.
pub pump-Mem :
    (id : ℕ) (o : VideoOutput) (s : Video)
    → output_at id s.outputs ≡ some o
    → is_ready o ≡ true
    → length s.outputs ≤ 8
    → Mem id (pump s).marked
pump-Mem id o s at h few =
    let short = length-ready_ids s.outputs in
    rw
      (
        ap (λ (v : Video). v.marked) (pump-ready_ids s),
        take_all 8 (ready_ids s.outputs) (omega arith),
      )
      (mem-append_right s.marked (ready_ids-Mem id s.outputs o at h))
