-- ===== src/Random/Sessions.antt =====
-- Every session that is opened is closed, and the bytes are as many as were asked for.
use flutter_libnx.Prelude.{
  ℕ, ◌+◌, ◌≡◌, refl, ap, ◌∙◌, Bool, true, false, not, Option, none, some, List, if◌then◌else◌,
  if-both, ltb, arith,
}
use flutter_libnx.Random.Generator.{
  Csrng, Random, Entropy, filled, eio, ensure_csrng, random_cleanup, max_entropy_per_call,
  read_entropy, getentropy,
}

module _ (C : Csrng) where
  -- A call of _getentropy_r with a buffer or without, or the cleanup.
  pub data Turn : Random C → Random C → Type 0 where
    entropy :
        {s : Random C} (has_buffer : Bool) (len : ℕ) → Turn s (getentropy C has_buffer len s).1
    cleanup : {s : Random C} → Turn s (random_cleanup C s)

  pub data Turns (s : Random C) : Random C → Type 0 where
    at_start : Turns s s
    and_then : {t u : Random C} → Turns s t → Turn t u → Turns s u

  -- The sessions that are open: one if the service is ready, and none otherwise.
  abbrev pub IsBalanced : Random C → Type 0
  IsBalanced s = s.opened ≡ s.closed + (if s.ready then 1 else 0)

  abbrev After : Bool × Random C → Type 0
  After (ok, s) = IsBalanced s

  abbrev AfterRead : Entropy × Random C → Type 0
  AfterRead (e, s) = IsBalanced s

  open_sessions :
      (s : Random C) (b : Bool)
      → s.ready ≡ b
      → IsBalanced s
      → s.opened ≡ s.closed + (if b then 1 else 0)
  open_sessions s b e h = h ∙ ap (λ (x : Bool). s.closed + (if x then 1 else 0)) e

  ensure_ready-IsBalanced :
      (s : Random C) (b ok : Bool) (w : C.World)
      → s.ready ≡ b
      → IsBalanced s
      → After (
          if b
          then (true, s)
          else if ok
          then (true, record s { ready = true; opened = s.opened + 1; world = w })
          else (false, record s { world = w }))
  ensure_ready-IsBalanced s true ok w e h = h
  ensure_ready-IsBalanced s false true w e h =
      (let none_open = open_sessions s false e h in omega arith)
  ensure_ready-IsBalanced s false false w e h = h

  ensure_csrng-IsBalanced : (s : Random C) → IsBalanced s → IsBalanced (ensure_csrng C s).1
  unfolding ensure_csrng
  ensure_csrng-IsBalanced s h =
      let (ok, w) = C.initialize s.world in ensure_ready-IsBalanced s s.ready ok w refl h

  cleanup_ready-IsBalanced :
      (s : Random C) (b : Bool)
      → s.ready ≡ b
      → IsBalanced s
      → IsBalanced (
          if b
          then record s { ready = false; closed = s.closed + 1; world = C.exit s.world }
          else s)
  cleanup_ready-IsBalanced s true e h = (let one = open_sessions s true e h in omega arith)
  cleanup_ready-IsBalanced s false e h = h

  read_entropy-IsBalanced :
      (len : ℕ) (s : Random C) → IsBalanced s → IsBalanced (read_entropy C len s).1
  unfolding read_entropy
  read_entropy-IsBalanced len s h = entropy_case (C.random_bytes len s.world).0
    where
      entropy_case :
          (bytes : Option (List ℕ))
          → AfterRead (elim bytes [
            | some bs ↦ (filled bs, record s { world = (C.random_bytes len s.world).1 })
            | none ↦ (eio, record s { world = (C.random_bytes len s.world).1 })
          ])
      entropy_case none = h
      entropy_case (some bs) = h

  Turn-IsBalanced : {s t : Random C} → Turn s t → IsBalanced s → IsBalanced t
  unfolding getentropy random_cleanup
  Turn-IsBalanced (entropy {s} has_buffer len) h =
      let (ok, s') = ensure_csrng C s in
      let after = ensure_csrng-IsBalanced s h in
      if-both AfterRead (ltb max_entropy_per_call len) _ _ h (
        if-both AfterRead (not has_buffer) _ _ h
          (if-both AfterRead (not ok) _ _ after (read_entropy-IsBalanced len s' after)))
  Turn-IsBalanced (cleanup {s}) h = cleanup_ready-IsBalanced s s.ready refl h

  Turns-IsBalanced : {s t : Random C} → Turns s t → IsBalanced s → IsBalanced t
  Turns-IsBalanced at_start h = h
  Turns-IsBalanced (and_then before last) h = Turn-IsBalanced last (Turns-IsBalanced before h)

  cleaned_ready :
      (s : Random C) (b : Bool)
      → s.ready ≡ b
      → (if b
          then record s { ready = false; closed = s.closed + 1; world = C.exit s.world }
          else s).ready
        ≡ false
  cleaned_ready s true e = refl
  cleaned_ready s false e = e

  -- However often bytes are asked for and the service is cleaned up, with whatever results: at most one
  -- session is open at a time, and after the cleanup as many were closed as were opened.
  pub cleanup_closes :
      {s t : Random C}
      → Turns s t
      → IsBalanced s
      → IsBalanced t × ((random_cleanup C t).opened ≡ (random_cleanup C t).closed)
  unfolding random_cleanup
  cleanup_closes {s} {t} run h =
      let now = Turns-IsBalanced run h in
      let after = cleanup_ready-IsBalanced t t.ready refl now in
      let shut = open_sessions (random_cleanup C t) false (cleaned_ready t t.ready refl) after in
      (now, omega arith)
