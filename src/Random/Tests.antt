-- ===== src/Random/Tests.antt =====
-- The generator with a service that opens at the second attempt.
use flutter_libnx.Prelude.{
  ℕ, suc, zero, ◌+◌, ◌≡◌, refl, Bool, true, false, some, [], ◌∷◌, replicate,
}
use flutter_libnx.Random.Generator.{Csrng, Random, filled, eio, efault, getentropy, random_cleanup}
use flutter_libnx.Random.Sessions.{at_start, and_then, entropy, IsBalanced, cleanup_closes}

abbrev second_time : ℕ → Bool
second_time zero = false
second_time (suc n) = true

abbrev service : Csrng
service = record {
  World = ℕ;
  initialize = λ w. (second_time w, w + 1);
  random_bytes = λ n w. (some (replicate n 7), w);
  exit = λ w. w;
}

abbrev unopened : Random service
unopened = record { ready = false; opened = 0; closed = 0; world = 0 }

abbrev refused : Random service
refused = (getentropy service true 2 unopened).1

first_refused : (getentropy service true 2 unopened).0 ≡ eio
unfolding getentropy
first_refused = refl

then_filled : (getentropy service true 2 refused).0 ≡ filled (7 ∷ 7 ∷ [])
unfolding getentropy
then_filled = refl

too_long : (getentropy service true 257 refused).0 ≡ eio
unfolding getentropy
too_long = refl

no_buffer : (getentropy service false 2 refused).0 ≡ efault
unfolding getentropy
no_buffer = refl

abbrev asked_twice : Random service
asked_twice = (getentropy service true 2 refused).1

cleanup_closes_example :
    IsBalanced service asked_twice
    × ((random_cleanup service asked_twice).opened ≡ (random_cleanup service asked_twice).closed)
cleanup_closes_example =
    cleanup_closes service (and_then (and_then at_start (entropy true 2)) (entropy true 2)) refl
