-- ===== src/Guard/Engine/WarReports.antt =====
-- The reports of a war in guard/war.go, and what `executeWar` reads of a command. A clock has whole
-- milliseconds; a duration is in nanoseconds.
use line_go.Common.{
  ℕ, zero, suc, ◌+◌, ◌-◌, ◌*◌, ◌/◌, ◌%◌, String, Bool, true, false, ◌&&◌, Option, none, some, List,
  [], ◌∷◌, length, ltb, leb, ◌==◌, if◌then◌else◌, ℤ, pos, negsuc, find_key, drop_key, put_key,
}
use line_go.Guard.Store.{WarState}
use line_go.Guard.War.{update_war}
use line_go.Guard.Engine.{
  WarRuntime, reports, Env, Engine, M, ◌>>=◌, ◌>>◌, pure, gets, modify, moment, call,
}
use line_go.Guard.Engine.WarRecords.{or_zero, with_store, update_runtime, war_now, or_new_runtime}
use line_go.Guard.Engine.Actions.{text_of, reply}
use Prim.Native.String.{◌++◌ as join}

-- The text that a command returns, and its error.
abbrev pub Reply : Type 0
Reply = String × Option String

abbrev pub says : String → M Reply
says text = pure (text, none)

abbrev pub fails : String → M Reply
fails error = pure ("", some error)

unfoldable pub show_bool : Bool → String
show_bool true = "true"
show_bool false = "false"

-- The texts that end in a numeral each.
unfoldable pub counted : (ℕ → String) → List (String × ℕ) → String
counted show [] = ""
counted show ((label, n) ∷ rest) = join label (join (show n) (counted show rest))

unfoldable pub report_of : (ℕ → String) → WarRuntime → String
unfolding counted
report_of show r = counted show (
    ("War report: kick=", r.kicks)
    ∷ (" invite=", r.invites)
    ∷ (" cancel=", r.cancels)
    ∷ (" qr=", r.qr_closed)
    ∷ (" rescue=", r.rescues)
    ∷ (" error=", r.failures)
    ∷ (" suspects=", length r.suspects)
    ∷ [])

-- Between 30 seconds and 24 hours.
unfoldable pub is_war_duration : ℤ → Bool
is_war_duration (pos n) = leb 30_000_000_000 n && leb n 86_400_000_000_000
is_war_duration (negsuc n) = false

-- A duration in whole milliseconds, and in whole seconds, cut towards zero.
unfoldable pub milliseconds : ℤ → ℕ
milliseconds (pos n) = n / 1_000_000
milliseconds (negsuc n) = 0

unfoldable pub seconds : ℤ → ℤ
seconds (pos n) = pos (n / 1_000_000_000)
seconds (negsuc n) =
    let whole = (n + 1) / 1_000_000_000 in if whole == 0 then pos 0 else negsuc (whole - 1)

unfoldable pub negated : ℕ → ℤ
negated zero = pos 0
negated (suc n) = negsuc n

-- `Round(time.Second)` of some milliseconds, in nanoseconds.
unfoldable pub rounded : ℕ → ℕ
rounded ms = (ms + 500) / 1_000 * 1_000_000_000

-- `time.Until` of a moment, rounded to seconds.
unfoldable pub remaining : ℕ → ℤ → ℤ
unfolding negated rounded
remaining now (pos until) =
    if leb now until then pos (rounded (until - now)) else negated (rounded (now - until))
remaining now (negsuc n) = negated (rounded (now + n + 1))

unfoldable pub last_byte : List ℕ → ℕ
last_byte [] = 0
last_byte (b ∷ []) = b
last_byte (b ∷ c ∷ bytes) = last_byte (c ∷ bytes)

-- `command[len(command)-1] - '0'`.
unfoldable pub level_of : List ℕ → ℕ
unfolding last_byte
level_of bytes = (last_byte bytes + 208) % 256

unfoldable pub last_text : List String → String
last_text [] = ""
last_text (t ∷ []) = t
last_text (t ∷ u ∷ us) = last_text (u ∷ us)

-- The third word, where there is one.
unfoldable pub third : List String → Option String
third (a ∷ b ∷ c ∷ rest) = some c
third words = none

unfoldable pub pardoned : String → WarRuntime → WarRuntime
pardoned target r = record r {
  suspects = drop_key r.suspects target;
  quarantine = drop_key r.quarantine target;
}

-- Where the group has a runtime, forgets a suspect.
unfoldable pub pardon : String → String → Engine → Engine
unfolding pardoned
pardon group target e = elim (find_key e.war group) [
  | none ↦ e
  | some r ↦ record e { war = put_key e.war group (pardoned target r) }
]

unfoldable pub suspect_names : List (String × ℕ) → List String
suspect_names [] = []
suspect_names ((mid, score) ∷ rest) = mid ∷ suspect_names rest

module _ (env : Env) where
  -- `UpdateWar` by a change that does not fail.
  unfoldable pub update_settings : String → String → (WarState → WarState) → M (Option String)
  unfolding with_store text_of
  update_settings group actor change = do
    error ←
        with_store env (λ m s. update_war env.json m.calls group actor (λ w. (change w, none)) s)
    pure (text_of error)

  unfoldable pub updates : String → String → (WarState → WarState) → String → M Reply
  unfolding update_settings
  updates group actor change text = do
    error ← update_settings group actor change
    pure (text, error)

  -- `ensureWarRuntimeLocked`.
  unfoldable pub ensured : String → M WarRuntime
  unfolding update_runtime or_new_runtime
  ensured group = do
    m ← moment env
    modify (update_runtime m.now group (λ r. r))
    gets (λ e. or_new_runtime m.now (find_key e.war group))

  unfoldable pub war_report : String → M String
  unfolding ensured report_of
  war_report group = do r ← ensured group; pure (report_of env.show r)

  unfoldable pub war_status : String → M String
  unfolding war_report show_bool counted remaining
  war_status group = do
    (w, on) ← war_now env group
    m ← moment env
    report ← war_report group
    pure (
        join "War active=" (
          join (show_bool on) (
            join " level=" (
              join (env.show_int w.level) (
                join " remaining=" (
                  join (if on then env.show_duration (remaining m.now w.until) else "-") (
                    join " auto=" (
                      join (show_bool w.auto) (
                        join " sensitivity=" (
                          join w.sensitivity (
                            join " lock=" (
                              join (show_bool w.locked) (
                                join " dryrun=" (
                                  join (show_bool w.dry_run) (
                                    join
                                      (counted env.show ((" whitelist=", length w.whitelist) ∷ []))
                                      (join "\n" report))))))))))))))))

  unfoldable pub send_suspects : String → String → M Reply
  unfolding ensured suspect_names reply
  send_suspects client group = do
    r ← ensured group
    elim (env.sort (λ a b. ltb (or_zero (find_key r.suspects b)) (or_zero (find_key r.suspects a)))
        (suspect_names r.suspects)) [
          | [] ↦ do error ← reply env client group "No war suspects."; pure ("", error)
          | mid ∷ mids ↦ do
            m ← call env (reports client group "War suspects:" (mid ∷ mids))
            pure ("", m.error)
        ]
