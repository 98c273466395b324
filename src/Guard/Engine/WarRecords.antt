-- ===== src/Guard/Engine/WarRecords.antt =====
-- The war of a group as the engine of guard/war.go sees it: whether it is on, the counters and
-- suspects that are kept of it, and its start by many events.
use line_go.Common.{
  ℕ, ◌+◌, ◌-◌, ◌%◌, ◌^◌, String, Bool, not, Option, none, some, List, [], ◌∷◌, if◌then◌else◌,
  find_key, put_key,
}
use line_go.Guard.Store.{WarState}
use line_go.Guard.Store.Persist.{Store}
use line_go.Guard.War.{war, war_active, war_protected, activate_war_auto, should_activate, recent}
use line_go.Guard.Engine.{
  AuditEvent, WarRuntime, Env, Engine, Moment, M, ◌>>=◌, ◌>>◌, pure, gets, modify, moment,
}
use line_go.Guard.Engine.Memory.{or_nothing}
use Prim.Native.String.{◌++◌ as join}
use text.Mathlib.Text.{◌==◌ as str_eq}

unfoldable pub new_runtime : ℕ → WarRuntime
new_runtime now = record {
  started = now;
  kicks = 0;
  invites = 0;
  cancels = 0;
  qr_closed = 0;
  rescues = 0;
  failures = 0;
  suspects = [];
  quarantine = [];
}

unfoldable pub or_new_runtime : ℕ → Option WarRuntime → WarRuntime
unfolding new_runtime
or_new_runtime now none = new_runtime now
or_new_runtime now (some r) = r

unfoldable pub or_zero : Option ℕ → ℕ
or_zero none = 0
or_zero (some n) = n

unfoldable pub add_risk : String → ℕ → WarRuntime → WarRuntime
unfolding or_zero
add_risk mid score r = record r {
  suspects = put_key r.suspects mid (or_zero (find_key r.suspects mid) + score);
}

unfoldable pub next_count : ℕ → ℕ
next_count n = (n + 1) % 2 ^ 64

unfoldable pub count_failure : Option String → WarRuntime → WarRuntime
unfolding next_count
count_failure none r = r
count_failure (some error) r = record r { failures = next_count r.failures }

unfoldable pub count_war_action : String → Option String → WarRuntime → WarRuntime
unfolding next_count count_failure
count_war_action action error r =
    let counted = count_failure error r in
    if str_eq action "kick"
    then record counted { kicks = next_count r.kicks }
    else if str_eq action "invite"
    then record counted { invites = next_count r.invites }
    else if str_eq action "cancel"
    then record counted { cancels = next_count r.cancels }
    else if str_eq action "qr"
    then record counted { qr_closed = next_count r.qr_closed }
    else if str_eq action "rescue"
    then record counted { rescues = next_count r.rescues }
    else counted

unfoldable pub audit_times : List AuditEvent → List ℕ
audit_times [] = []
audit_times (event ∷ events) = event.at ∷ audit_times events

unfoldable pub update_runtime : ℕ → String → (WarRuntime → WarRuntime) → Engine → Engine
unfolding or_new_runtime
update_runtime now group change e = record e {
  war = put_key e.war group (change (or_new_runtime now (find_key e.war group)));
}

unfoldable pub is_protected_in_war : Engine → String → String → Bool
is_protected_in_war e group mid = war_protected e.store.state group mid

module _ (env : Env) where
  -- A method of the store; its error is kept as a text.
  unfoldable pub with_store : {A : Type 0} → (Moment → Store → Store × A) → M A
  with_store f = do
    m ← moment env
    e ← gets (λ e. e)
    modify (λ e. record e { store = (f m e.store).0 })
    pure (f m e.store).1

  -- `warActive`.
  unfoldable pub war_now : String → M (WarState × Bool)
  unfolding with_store
  war_now group =
      with_store λ m s. let (s', w, on) = war_active env.json m.calls m.now group s in (s', (w, on))

  unfoldable pub add_war_risk : String → String → ℕ → M (Unit {0})
  unfolding update_runtime add_risk
  add_war_risk group mid score = do
    m ← moment env
    modify (update_runtime m.now group (add_risk mid score))

  unfoldable pub record_war_action : String → String → Option String → M (Unit {0})
  unfolding update_runtime count_war_action
  record_war_action group action error = do
    (w, on) ← war_now group
    if not on
        then pure tt
        else do m ← moment env; modify (update_runtime m.now group (count_war_action action error))

  unfoldable pub reset_war_runtime : String → M (Unit {0})
  unfolding update_runtime new_runtime
  reset_war_runtime group = do
    m ← moment env
    modify (update_runtime m.now group (λ r. new_runtime m.now))

  -- `observeWarAuto`; the counters are reset where the war was saved.
  unfoldable pub observe_war_auto : String → M (Unit {0})
  unfolding with_store audit_times
  observe_war_auto group = do
    m ← moment env
    e ← gets (λ e. e)
    let times = audit_times (or_nothing (find_key e.audit group))
    if not (should_activate m.now (war group e.store.state) times) then pure tt else do
      error ← with_store (λ m'.
          activate_war_auto env.json m'.calls m'.now group
            (join (env.show (recent (m.now - 10_000) times)) " olay/10s"))
      elim error [ none ↦ reset_war_runtime group | some e ↦ pure tt ]
