-- ===== src/Guard/Health/Runs.antt =====
-- The health of bots at concrete pools.
use line_go.Common.{◌+◌, ◌≤◌, ◌≡◌, refl, arith, String, Bool, true, false, List, [], ◌∷◌}
use line_go.Guard.Health.{
  BotHealth, new_health, Pool, any, fail, find, is_ready, rank_clients, fail_pause,
  any-rank_clients,
}
use text.Mathlib.Text.{◌==◌ as str_eq}

abbrev tired : BotHealth
tired = record (new_health "a") { streak = 9; cooldown_end = 50 }

abbrev pool : Pool
pool = tired ∷ new_health "b" ∷ []

abbrev unsorted : (String → String → Bool) → List String → List String
unsorted less xs = xs

fail_pause_example :
    (7 + 2_000 ≤ (fail 7 true tired).cooldown_end)
    × ((fail 7 true tired).cooldown_end ≤ 7 + 64_000)
    × (7 + 30_000 ≤ (fail 7 true tired).cooldown_end)
fail_pause_example = fail_pause 7 true tired (omega arith)

-- Only the bot that is not cooling is returned.
any-rank_clients_example :
    any (str_eq "a") (rank_clients unsorted (λ m. m) 10 pool ("a" ∷ "b" ∷ [])) ≡ false
unfolding any find is_ready
any-rank_clients_example =
    any-rank_clients unsorted (λ m. m) 10 pool ("a" ∷ "b" ∷ []) (str_eq "a") (λ less xs q. refl)
