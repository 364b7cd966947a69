-- ===== src/ThreadDiag/Walks.antt =====
-- The walks over the regions end, whatever the kernel answers.
use flutter_libnx.Prelude.{
  ℕ, zero, suc, ◌+◌, ◌-◌, ◌<◌, ◌≤◌, ◌≡◌, refl, inl, inr, Bool, true, false, ◌&&◌, some, List, [],
  ◌∷◌, ◌++◌, arith, if◌then◌else◌, if-both, Bool-cases, Option-cases, ltb, leb, length,
  length-append, All, All-append, min,
}
use flutter_libnx.ThreadDiag.Pages.{
  MemoryInfo, Kernel, is_heap, end_of, Walk, finished, gave_up, stuck, Scan, is_anomaly, count,
  no_regions, Region, add_hole, scan_from, scan_heap, holes_from,
}

-- The walk comes to a result, which has the property.
abbrev pub Ends : {A : Type 0} → (A → Type 0) → Walk A → Type 0
Ends P (finished a) = P a
Ends P (gave_up a) = P a
Ends P stuck = ⊥

pub nearer :
    (limit addr next fuel : ℕ)
    → ltb addr limit ≡ true
    → leb next addr ≡ false
    → limit - addr < suc fuel
    → limit - next < fuel
nearer limit addr next fuel inside on enough =
    let a : addr < limit = ground arith in let b : addr < next = ground arith in omega arith

pub both_true : (a b c : Bool) → (a && (b && c)) ≡ true → (a ≡ true) × (b ≡ true) × (c ≡ true)
both_true true true true h = (refl, refl, refl)
both_true true true false h = cc
both_true true false c h = cc
both_true false b c h = cc

-- Of the anomalies the first 24 are logged, each once.
abbrev pub IsCounted : Scan → Type 0
IsCounted c = (c.anomalies ≤ c.regions) × (length c.reported ≡ min 24 c.anomalies)

reported-24 :
    (info : MemoryInfo) (n : ℕ) (xs : List MemoryInfo)
    → length xs ≡ min 24 n
    → length (if leb (n + 1) 24 then xs ++ (info ∷ []) else xs) ≡ min 24 (n + 1)
reported-24 info n xs h = elim (Bool-cases (leb (n + 1) 24)) [
  | inl room ↦
      let e : n + 1 ≤ 24 = ground arith in rw (room, length-append xs (info ∷ [])) (omega arith)
  | inr full ↦ (let e : 24 < n + 1 = ground arith in rw full (omega arith))
]

count-IsCounted : (info : MemoryInfo) (c : Scan) → IsCounted c → IsCounted (count info c)
unfolding count
count-IsCounted info c (below, lines) =
    if-both IsCounted (is_anomaly info) _ _
      (omega arith, reported-24 info c.anomalies c.reported lines) (omega arith, lines)

module _ (K : Kernel) (w : K.World) where
  scan_from-Ends :
      (fuel addr end : ℕ) (c : Scan)
      → end - addr < fuel
      → IsCounted c
      → Ends IsCounted (scan_from K w fuel addr end c)
  unfolding scan_from
  scan_from-Ends zero addr end c enough h = omega arith
  scan_from-Ends (suc fuel) addr end c enough h = elim (Bool-cases (ltb addr end)) [
    | inr over ↦ rw (over, scan_from) h
    | inl inside ↦ elim (Option-cases (K.query addr w)) [
      | inl e ↦ rw (inside, scan_from, e) h
      | inr (info, e) ↦ elim (Bool-cases (leb (end_of info) addr)) [
        | inl back ↦ rw (inside, scan_from, e, back) (count-IsCounted info c h)
        | inr on ↦
            rw (inside, scan_from, e, on)
              (scan_from-Ends fuel (end_of info) end (count info c)
                (nearer end addr (end_of info) fuel inside on enough) (count-IsCounted info c h))
      ]
    ]
  ]

  -- The scan ends for every heap and whatever the kernel answers; it counts no more anomalies than
  -- regions, and logs a line for the first 24 anomalies and for no others.
  pub scan_heap-Ends : (start end : ℕ) → Ends IsCounted (scan_heap K w start end)
  unfolding scan_heap
  scan_heap-Ends start end =
      scan_from-Ends (suc end) start end no_regions (omega arith) (omega arith, omega arith)

  -- Such a hole as the kernel reports: borrowed pages of the heap.
  abbrev pub IsHole : Region → Type 0
  IsHole hole =
      (addr : ℕ) × (info : MemoryInfo) × (K.query addr w ≡ some info)
      × (is_heap info.kind ≡ true)
      × (info.borrowed ≡ true)
      × (info.addr ≡ hole.addr)
      × (info.size ≡ hole.size)

  abbrev pub AreHoles : List Region → Type 0
  AreHoles holes = (length holes ≤ 16) × All IsHole holes

  add_hole-AreHoles :
      (addr : ℕ) (info : MemoryInfo) (holes : List Region)
      → K.query addr w ≡ some info
      → AreHoles holes
      → AreHoles (add_hole info holes)
  unfolding add_hole
  add_hole-AreHoles addr info holes e (few, all) =
      let new : Region = record { addr = info.addr; size = info.size } in
      elim (Bool-cases (is_heap info.kind && (info.borrowed && ltb (length holes) 16))) [
        | inl hole ↦
            let (h, b, room) =
              both_true (is_heap info.kind) info.borrowed (ltb (length holes) 16) hole in
            let below : length holes < 16 = ground arith in
            rw (hole, length-append holes (new ∷ []))
              (
                omega arith,
                All-append IsHole holes (new ∷ []) all ((addr, info, e, h, b, refl, refl), tt),
              )
        | inr other ↦ rw other (few, all)
      ]

  holes_from-Ends :
      (fuel addr end : ℕ) (holes : List Region)
      → end - addr < fuel
      → AreHoles holes
      → Ends AreHoles (holes_from K w fuel addr end holes)
  unfolding holes_from
  holes_from-Ends zero addr end holes enough h = omega arith
  holes_from-Ends (suc fuel) addr end holes enough h = elim (Bool-cases (ltb addr end)) [
    | inr over ↦ rw (over, holes_from) h
    | inl inside ↦ elim (Option-cases (K.query addr w)) [
      | inl e ↦ rw (inside, holes_from, e) h
      | inr (info, e) ↦ elim (Bool-cases (leb (end_of info) addr)) [
        | inl back ↦ rw (inside, holes_from, e, back) h
        | inr on ↦
            rw (inside, holes_from, e, on)
              (holes_from-Ends fuel (end_of info) end (add_hole info holes)
                (nearer end addr (end_of info) fuel inside on enough)
                (add_hole-AreHoles addr info holes e h))
      ]
    ]
  ]

  pub heap-AreHoles : (start end : ℕ) → Ends AreHoles (holes_from K w (suc end) start end [])
  heap-AreHoles start end = holes_from-Ends (suc end) start end [] (omega arith) (omega arith, tt)
