-- ===== src/Random/Generator.antt =====
-- EnsureCsrng, _getentropy_r and flutter_libnx_random_cleanup.
use flutter_libnx.Prelude.{
  ℕ, ◌+◌, Bool, true, false, not, Option, none, some, List, if◌then◌else◌, ltb,
}

-- The service: csrngInitialize, csrngGetRandomBytes, which gives the bytes, and csrngExit.
pub record Csrng : Type 1 where
  pub World : Type 0
  pub initialize : World → Bool × World
  pub random_bytes : ℕ → World → Option (List ℕ) × World
  pub exit : World → World

-- g_csrng_ready, the service, and how often it was opened and closed.
pub record Random (C : Csrng) : Type 0 where
  pub ready : Bool
  pub opened : ℕ
  pub closed : ℕ
  pub world : C.World

pub data Entropy : Type 0 where
  filled : List ℕ → Entropy
  eio efault : Entropy

abbrev pub max_entropy_per_call : ℕ
max_entropy_per_call = 256

module _ (C : Csrng) where
  unfoldable pub ensure_csrng : Random C → Bool × Random C
  ensure_csrng s =
      let (ok, w) = C.initialize s.world in
      if s.ready
      then (true, s)
      else if ok
      then (true, record s { ready = true; opened = s.opened + 1; world = w })
      else (false, record s { world = w })

  unfoldable pub random_cleanup : Random C → Random C
  random_cleanup s =
      if s.ready
      then record s { ready = false; closed = s.closed + 1; world = C.exit s.world }
      else s

  -- csrngGetRandomBytes and its result.
  unfoldable pub read_entropy : ℕ → Random C → Entropy × Random C
  read_entropy len s =
      let (bytes, w) = C.random_bytes len s.world in
      elim bytes [
        | some bs ↦ (filled bs, record s { world = w })
        | none ↦ (eio, record s { world = w })
      ]

  unfoldable pub getentropy : Bool → ℕ → Random C → Entropy × Random C
  unfolding ensure_csrng read_entropy
  getentropy has_buffer len s =
      let (ok, s') = ensure_csrng s in
      let read = read_entropy len s' in
      if ltb max_entropy_per_call len
      then (eio, s)
      else if not has_buffer
      then (efault, s)
      else if not ok
      then (eio, s')
      else read
