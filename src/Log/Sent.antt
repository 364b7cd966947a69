-- ===== src/Log/Sent.antt =====
-- The loop around send().
use flutter_libnx.Prelude.{ℕ, ◌<◌, ◌≡◌, List, ◌++◌, length}
use flutter_libnx.Log.Sinks.{System}
use flutter_libnx.Log.Lines.{Sending, all_sent, broken, out_of_fuel}

module _ (S : System) where
  -- All of the line went out, or the connection broke with something left of it.
  abbrev pub IsSent : List ℕ → Sending × List ℕ × S.World → Type 0
  IsSent line (all_sent, sent, w) = sent ≡ line
  IsSent line (broken, sent, w) = (left : List ℕ) × (sent ++ left ≡ line) × (0 < length left)
  IsSent line (out_of_fuel, sent, w) = ⊥
