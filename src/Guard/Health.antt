-- ===== src/Guard/Health.antt =====
-- guard/health.go: the health of the bots and the order in which they are tried. Times are
-- milliseconds and `now` is an argument; a counter wraps around as its type does.
mod Runs
use line_go.Common.{
  ℕ, zero, suc, ◌+◌, ◌*◌, ◌^◌, ◌%◌, ◌≤◌, ◌<◌, min, String, Bool, true, false, not, ◌&&◌, ◌||◌,
  Option, none, some, ◌≡◌, ◌≢◌, refl, arith, List, [], ◌∷◌, length, ltb, ◌==◌, if◌then◌else◌,
  Bool-cases, inl, inr,
}
use text.Mathlib.Text.{◌==◌ as str_eq}

pub record BotHealth : Type 0 where
  pub mid : String
  pub kick : ℕ
  pub invite : ℕ
  pub cancel : ℕ
  pub success : ℕ
  pub failures : ℕ
  pub streak : ℕ
  pub cooldown_end : ℕ

abbrev pub Pool : Type 0
Pool = List BotHealth

abbrev pub new_health : String → BotHealth
new_health mid = record {
  mid = mid;
  kick = 0;
  invite = 0;
  cancel = 0;
  success = 0;
  failures = 0;
  streak = 0;
  cooldown_end = 0;
}

-- `strings.ToLower` and `strings.Contains`.
pub record TextSearch : Type 0 where
  pub to_lower : String → String
  pub has : String → String → Bool

unfoldable pub is_limit_error : TextSearch → String → Bool
is_limit_error search error =
    let text = search.to_lower error in
    search.has text "429"
    || search.has text "code 35"
    || search.has text "{1:35"
    || search.has text "request blocked"
    || search.has text "rate"
    || search.has text "limit"
    || search.has text "too many"

unfoldable pub find : String → Pool → Option BotHealth
find mid [] = none
find mid (bot ∷ bots) = if str_eq bot.mid mid then some bot else find mid bots

-- `p.bots[mid]` changed, and made where it is missing.
unfoldable pub update_bot : String → (BotHealth → BotHealth) → Pool → Pool
update_bot mid change [] = change (new_health mid) ∷ []
update_bot mid change (bot ∷ bots) =
    let rest = update_bot mid change bots in
    if str_eq bot.mid mid then change bot ∷ bots else bot ∷ rest

unfoldable pub register : String → Pool → Pool
unfolding update_bot
register mid = update_bot mid (λ bot. bot)

unfoldable pub count_action : String → BotHealth → BotHealth
count_action action bot =
    if str_eq action "kick"
    then record bot { kick = (bot.kick + 1) % 2 ^ 64 }
    else if str_eq action "invite"
    then record bot { invite = (bot.invite + 1) % 2 ^ 64 }
    else if str_eq action "cancel"
    then record bot { cancel = (bot.cancel + 1) % 2 ^ 64 }
    else bot

-- The pause after a failure, for the streak with that failure and whether it is a limit error.
unfoldable pub delay : ℕ → Bool → ℕ
delay streak limited =
    let backoff = 1000 * 2 ^ (min streak 6) in
    if limited && ltb backoff 30_000 then 30_000 else backoff

unfoldable pub succeed : BotHealth → BotHealth
succeed bot = record bot { success = (bot.success + 1) % 2 ^ 64; streak = 0 }

unfoldable pub fail : ℕ → Bool → BotHealth → BotHealth
unfolding delay
fail now limited bot = record bot {
  failures = (bot.failures + 1) % 2 ^ 64;
  streak = (bot.streak + 1) % 2 ^ 32;
  cooldown_end = now + delay ((bot.streak + 1) % 2 ^ 32) limited;
}

unfoldable pub outcome : TextSearch → ℕ → Option String → BotHealth → BotHealth
unfolding succeed fail
outcome search now none bot = succeed bot
outcome search now (some error) bot = fail now (is_limit_error search error) bot

-- `record`; `none` is a success.
unfoldable pub record_action : TextSearch → ℕ → String → String → Option String → Pool → Pool
unfolding update_bot outcome count_action
record_action search now mid action error =
    update_bot mid (λ bot. outcome search now error (count_action action bot))

small_power : (k : ℕ) → k ≤ 6 → 1 ≤ k → (2 ≤ 2 ^ k) × (2 ^ k ≤ 64)
small_power zero h l = absurd (omega arith)
small_power (suc zero) h l = omega arith
small_power (suc (suc zero)) h l = omega arith
small_power (suc (suc (suc zero))) h l = omega arith
small_power (suc (suc (suc (suc zero)))) h l = omega arith
small_power (suc (suc (suc (suc (suc zero))))) h l = omega arith
small_power (suc (suc (suc (suc (suc (suc zero)))))) h l = omega arith
small_power (suc (suc (suc (suc (suc (suc (suc k))))))) h l = absurd (omega arith)

-- The pause after a failure, for a streak that has begun.
delay_bounds :
    (streak : ℕ) (limited : Bool)
    → 1 ≤ streak
    → (2_000 ≤ delay streak limited)
      × (delay streak limited ≤ 64_000)
      × ((if limited then 30_000 else 0) ≤ delay streak limited)
unfolding delay
delay_bounds streak limited h =
    ground (arith, small_power (min streak 6) (omega arith) (omega arith))

-- A failure makes the bot pause for 2 to 64 seconds, for 30 at least where the error is a limit
-- error. The streak before it must be below 2 ^ 32 - 1, where its counter wraps around.
pub fail_pause :
    (now : ℕ) (limited : Bool) (bot : BotHealth)
    → bot.streak + 1 < 2 ^ 32
    → (now + 2_000 ≤ (fail now limited bot).cooldown_end)
      × ((fail now limited bot).cooldown_end ≤ now + 64_000)
      × (now + (if limited then 30_000 else 0) ≤ (fail now limited bot).cooldown_end)
unfolding fail
fail_pause now limited bot h =
    let (least, most, limit) = delay_bounds ((bot.streak + 1) % 2 ^ 32) limited (omega arith) in
    (omega arith, omega arith, omega arith)

-- What the comparison of `rank` reads of a bot: its actions and, four times, its failures.
unfoldable pub load : BotHealth → ℕ
load bot = (bot.kick + bot.invite + bot.cancel + bot.failures * 4) % 2 ^ 64

unfoldable pub is_cooling : ℕ → BotHealth → Bool
is_cooling now bot = ltb now bot.cooldown_end

-- Whether a client comes before another, over the health of their bots.
unfoldable pub goes_first : ℕ → Option BotHealth → Option BotHealth → Bool
unfolding is_cooling load
goes_first now none b = false
goes_first now (some a) none = true
goes_first now (some a) (some b) =
    if is_cooling now a && not (is_cooling now b)
    then false
    else if not (is_cooling now a) && is_cooling now b
    then true
    else if not (a.cooldown_end == b.cooldown_end) && is_cooling now a
    then ltb a.cooldown_end b.cooldown_end
    else ltb (load a) (load b)

unfoldable pub is_ready : ℕ → Option BotHealth → Bool
unfolding is_cooling
is_ready now none = true
is_ready now (some bot) = not (is_cooling now bot)

module _ {A : Type 0} where
  unfoldable pub keep : (A → Bool) → List A → List A
  keep test [] = []
  keep test (x ∷ xs) = let rest = keep test xs in if test x then x ∷ rest else rest

  unfoldable pub any : (A → Bool) → List A → Bool
  any test [] = false
  any test (x ∷ xs) = test x || any test xs

  any-keep : (p q : A → Bool) (xs : List A) → any p (keep q xs) ≡ any (λ x. q x && p x) xs
  unfolding any keep
  any-keep p q [] = refl
  any-keep p q (x ∷ xs) = ground (arith, any-keep p q xs)

  keep-none : (q : A → Bool) (xs : List A) → (length (keep q xs) == 0) ≡ not (any q xs)
  unfolding any keep
  keep-none q [] = refl
  keep-none q (x ∷ xs) = ground (arith, keep-none q xs)

-- `sort.SliceStable` for an order, and a client's MID.
module _ {A : Type 0} (sort : (A → A → Bool) → List A → List A) (mid : A → String) where
  unfoldable pub rank_clients : ℕ → Pool → List A → List A
  rank_clients now pool clients =
      let sorted = sort (λ a b. goes_first now (find (mid a) pool) (find (mid b) pool)) clients in
      let ready = keep (λ a. is_ready now (find (mid a) pool)) sorted in
      if not (length ready == 0) then ready else sorted

  -- Where the sort keeps the elements, `rank` returns exactly the clients that are ready, and all
  -- clients if none is: stated for every test of clients.
  pub any-rank_clients :
      (now : ℕ) (pool : Pool) (clients : List A) (p : A → Bool)
      → ((less : A → A → Bool) (xs : List A) (q : A → Bool) → any q (sort less xs) ≡ any q xs)
      → any p (rank_clients now pool clients) ≡ (
          if any (λ a. is_ready now (find (mid a) pool)) clients
          then any (λ a. is_ready now (find (mid a) pool) && p a) clients
          else any p clients)
  unfolding rank_clients
  any-rank_clients now pool clients p keeps =
      let ready : A → Bool = λ a. is_ready now (find (mid a) pool) in
      let less : A → A → Bool = λ a b. goes_first now (find (mid a) pool) (find (mid b) pool) in
      let none_ready = keep-none ready (sort less clients) in
      let kept = any-keep p ready (sort less clients) in
      elim (Bool-cases (any ready clients)) [
        | inl e ↦ rw (none_ready, keeps less clients ready, e) (rw kept (keeps less clients _))
        | inr e ↦ rw (none_ready, keeps less clients ready, e) (keeps less clients p)
      ]
