-- ===== src/ThreadDiag/Pages.antt =====
-- flutter_libnx_scan_heap and flutter_libnx_heal_heap.
use flutter_libnx.Prelude.{
  ℕ, zero, suc, ◌+◌, ◌%◌, ◌^◌, Bool, true, false, not, ◌&&◌, ◌||◌, Option, none, some, List, [],
  ◌∷◌, ◌++◌, if◌then◌else◌, ltb, leb, ◌==◌, length,
}

-- MemoryInfo: its type, whether MemAttr_IsBorrowed is among the attributes, and the other numbers.
pub data MemoryType : Type 0 where
  heap mapped other_type : MemoryType

pub record MemoryInfo : Type 0 where
  pub kind : MemoryType
  pub addr : ℕ
  pub size : ℕ
  pub borrowed : Bool
  pub attr : ℕ
  pub perm : ℕ

-- svcQueryMemory, and svcUnmapMemory of a mirror, a hole and a size, which says whether it succeeded.
pub record Kernel : Type 1 where
  pub World : Type 0
  pub query : ℕ → World → Option MemoryInfo
  pub unmap : ℕ → ℕ → ℕ → World → Bool × World

abbrev pub perm_rw : ℕ
perm_rw = 3

abbrev pub is_heap : MemoryType → Bool
is_heap heap = true
is_heap mapped = false
is_heap other_type = false

abbrev pub is_mapped : MemoryType → Bool
is_mapped heap = false
is_mapped mapped = true
is_mapped other_type = false

-- `info.addr + info.size` on u64.
abbrev pub end_of : MemoryInfo → ℕ
end_of info = (info.addr + info.size) % 2 ^ 64

-- A walk over the regions: it came to its end, it gave up, or it ran out of fuel.
pub data Walk (A : Type 0) : Type 0 where
  finished gave_up : A → Walk A
  stuck : Walk A

-- What a scan has counted, and the regions of which it has logged a line.
pub record Scan : Type 0 where
  pub regions : ℕ
  pub anomalies : ℕ
  pub anomaly_bytes : ℕ
  pub reported : List MemoryInfo

abbrev pub is_anomaly : MemoryInfo → Bool
is_anomaly info = not (is_heap info.kind) || (not (info.attr == 0) || not (info.perm == perm_rw))

unfoldable pub count : MemoryInfo → Scan → Scan
count info c =
    if is_anomaly info
    then record {
      regions = c.regions + 1;
      anomalies = c.anomalies + 1;
      anomaly_bytes = (c.anomaly_bytes + info.size) % 2 ^ 64;
      reported = if leb (c.anomalies + 1) 24 then c.reported ++ (info ∷ []) else c.reported;
    }
    else record c { regions = c.regions + 1 }

abbrev pub no_regions : Scan
no_regions = record { regions = 0; anomalies = 0; anomaly_bytes = 0; reported = [] }

-- A borrowed hole in the heap.
pub record Region : Type 0 where
  pub addr : ℕ
  pub size : ℕ

unfoldable pub add_hole : MemoryInfo → List Region → List Region
add_hole info holes =
    if is_heap info.kind && (info.borrowed && ltb (length holes) 16)
    then holes ++ (record { addr = info.addr; size = info.size } ∷ [])
    else holes

-- A call of svcUnmapMemory: what the query had said of the mirror, and the hole.
pub record Unmap : Type 0 where
  pub mirror : MemoryInfo
  pub hole : Region

module _ (K : Kernel) (w : K.World) where
  -- The loop of the scan.
  unfoldable pub scan_from : ℕ → ℕ → ℕ → Scan → Walk Scan
  unfolding count
  scan_from zero addr end c = stuck
  scan_from (suc fuel) addr end c =
      let go : MemoryInfo → Walk Scan = λ info. scan_from fuel (end_of info) end (count info c) in
      elim (ltb addr end) [
        | false ↦ finished c
        | true ↦ elim (K.query addr w) [
          | none ↦ gave_up c
          | some info ↦ elim (leb (end_of info) addr) [
            | true ↦ gave_up (count info c)
            | false ↦ go info
          ]
        ]
      ]

  -- flutter_libnx_scan_heap
  unfoldable pub scan_heap : ℕ → ℕ → Walk Scan
  unfolding scan_from
  scan_heap start end = scan_from (suc end) start end no_regions

  -- The first loop of the healing.
  unfoldable pub holes_from : ℕ → ℕ → ℕ → List Region → Walk (List Region)
  unfolding add_hole
  holes_from zero addr end holes = stuck
  holes_from (suc fuel) addr end holes =
      let go : MemoryInfo → Walk (List Region) =
        λ info. holes_from fuel (end_of info) end (add_hole info holes) in
      elim (ltb addr end) [
        | false ↦ finished holes
        | true ↦ elim (K.query addr w) [
          | none ↦ gave_up holes
          | some info ↦ elim (leb (end_of info) addr) [ true ↦ gave_up holes | false ↦ go info ]
        ]
      ]

abbrev pub is_mirror : MemoryInfo → Region → MemoryInfo → Bool
is_mirror own hole info =
    is_mapped info.kind && (info.size == hole.size && not (info.addr == own.addr))

-- What the search for a mirror of one hole comes to: whether it was healed, and the calls.
pub record Healed (K : Kernel) : Type 0 where
  pub healed : Bool
  pub calls : List Unmap
  pub world : K.World

module _ (K : Kernel) where
  abbrev pub not_healed : List Unmap → K.World → Healed K
  not_healed cs w = record { healed = false; calls = cs; world = w }

  -- svcUnmapMemory on one region, if it is a mirror of the hole.
  unfoldable pub try_mirror : MemoryInfo → Region → MemoryInfo → List Unmap → K.World → Healed K
  try_mirror own hole info calls w =
      let tried = calls ++ (record { mirror = info; hole = hole } ∷ []) in
      let (ok, w') = K.unmap info.addr hole.addr hole.size w in
      if is_mirror own hole info
      then record { healed = ok; calls = tried; world = w' }
      else not_healed calls w

  unfoldable pub mirror_from : ℕ → ℕ → MemoryInfo → Region → List Unmap → K.World → Walk (Healed K)
  unfolding try_mirror
  mirror_from zero addr own hole calls w = stuck
  mirror_from (suc fuel) addr own hole calls w =
      let on : MemoryInfo → Healed K → Walk (Healed K) =
        λ info r. mirror_from fuel (end_of info) own hole r.calls r.world in
      let next : MemoryInfo → Healed K → Walk (Healed K) =
        λ info r. elim (leb (end_of info) addr) [ true ↦ gave_up r | false ↦ on info r ] in
      elim (ltb addr (2 ^ 39)) [
        | false ↦ finished (not_healed calls w)
        | true ↦ elim (K.query addr w) [
          | none ↦ gave_up (not_healed calls w)
          | some info ↦
              let r = try_mirror own hole info calls w in
              elim r.healed [ true ↦ finished r | false ↦ next info r ]
        ]
      ]

  -- What the healing has come to: the count, the calls, and the world.
  pub record Healing : Type 0 where
    pub healed : ℕ
    pub calls : List Unmap
    pub world : K.World

  abbrev pub add_healed : ℕ → Healed K → Healing
  add_healed n r = record {
    healed = if r.healed then n + 1 else n;
    calls = r.calls;
    world = r.world;
  }

  -- The loop over the holes. A search that gives up ends that hole only.
  unfoldable pub heal_holes : MemoryInfo → List Region → Healing → Walk Healing
  unfolding mirror_from
  heal_holes own [] h = finished h
  heal_holes own (hole ∷ holes) h =
      let rest : Healing → Walk Healing = heal_holes own holes in
      elim (mirror_from (suc (2 ^ 39)) 0 own hole h.calls h.world) [
        | finished r ↦ rest (add_healed h.healed r)
        | gave_up r ↦ rest (add_healed h.healed r)
        | stuck ↦ stuck
      ]

  abbrev pub no_calls : K.World → Healing
  no_calls w = record { healed = 0; calls = []; world = w }

  unfoldable pub heal_found : ℕ → List Region → K.World → Walk Healing
  unfolding heal_holes
  heal_found stack [] w = finished (no_calls w)
  heal_found stack (hole ∷ holes) w = elim (K.query stack w) [
    | none ↦ gave_up (no_calls w)
    | some own ↦ heal_holes own (hole ∷ holes) (no_calls w)
  ]

  -- flutter_libnx_heal_heap, with an address on its stack.
  unfoldable pub heal_heap : ℕ → ℕ → ℕ → K.World → Walk Healing
  unfolding holes_from heal_found
  heal_heap start end stack w = elim (holes_from K w (suc end) start end []) [
    | finished holes ↦ heal_found stack holes w
    | gave_up holes ↦ gave_up (no_calls w)
    | stuck ↦ stuck
  ]
