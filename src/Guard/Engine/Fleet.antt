-- ===== src/Guard/Engine/Fleet.antt =====
-- `reconcilePrimaryFleet` of guard/engine.go. Whether another run for the group is on, and whether one
-- asked for a further pass, is what the environment says at a moment.
use line_go.Common.{
  ℕ, zero, suc, ◌+◌, ◌%◌, String, Bool, false, not, ◌&&◌, Option, none, some, List, [], ◌∷◌, ◌++◌,
  length, ltb, if◌then◌else◌, find_key, put_key,
}
use line_go.Guard.Engine.{
  invites, Env, Engine, M, ◌>>=◌, ◌>>◌, pure, gets, modify, nil, moment, call,
}
use line_go.Guard.Engine.Memory.{or_nothing, is_present, is_primary, set_member}
use line_go.Guard.Engine.WarRecords.{or_zero, record_war_action}
use line_go.Guard.Engine.Actions.{clients_that, record_health, ranked}
use text.Mathlib.Text.{◌==◌ as str_eq}

-- `pendingInviteLocked`; a time of 0 is none. An entry that is over is as if it were not there, and
-- stays here until it is written again.
unfoldable pub is_pending : ℕ → Engine → String → String → Bool
unfolding or_nothing or_zero
is_pending now e group mid =
    ltb now (or_zero (find_key (or_nothing (find_key e.pending group)) mid))

-- `markPendingInvite`.
unfoldable pub mark_pending : ℕ → String → String → Engine → Engine
unfolding or_nothing
mark_pending now group mid e = record e {
  pending =
      put_key e.pending group (put_key (or_nothing (find_key e.pending group)) mid (now + 3_000));
}

-- The primary bots that are not in the group, and not invited either.
unfoldable pub missing_of : ℕ → String → Engine → List String
unfolding is_pending clients_that is_primary is_present
missing_of now group e =
    clients_that
      (λ mid. is_primary e mid && not (is_present e group mid) && not (is_pending now e group mid))
      e.fleet

-- A list from a place on, and then from its front to that place.
unfoldable pub rotated : ℕ → List String → List String
rotated zero xs = xs
rotated (suc n) [] = []
rotated (suc n) (x ∷ xs) = rotated n (xs ++ x ∷ [])

-- Whether an error says that the client is in the group no more.
unfoldable pub is_no_member : (String → String → Bool) → (String → String) → String → Bool
is_no_member has lower error = has (lower error) "not a member"

module _ (env : Env) where
  -- The protectors in turn, until one can invite the target; the last error.
  unfoldable pub invite_by_any : String → String → Option String → List String → M (Option String)
  unfolding record_health record_war_action mark_pending set_member is_no_member
  invite_by_any group target last [] = pure last
  invite_by_any group target last (protector ∷ protectors) = do
    outcome ← if str_eq protector target then pure (some last) else do
      m ← call env (invites protector group (target ∷ []))
      record_health env protector "invite" m.error
      record_war_action env group "invite" m.error
      elim m.error [
        | none ↦ do
          now ← moment env
          modify (mark_pending now.now group target)
          record_war_action env group "rescue" none
          pure none
        | some error ↦ do
          (if is_no_member env.search.has env.search.to_lower error
              then set_member group protector false
              else pure tt)
          pure (some (some error))
      ]
    elim outcome [ none ↦ pure nil | some error ↦ invite_by_any group target error protectors ]

  unfoldable pub invite_missing :
      String → List String → ℕ → Option String → List String → M (Option String)
  unfolding invite_by_any rotated
  invite_missing group protectors index last [] = pure last
  invite_missing group protectors index last (target ∷ targets) = do
    error ← invite_by_any group target last (rotated (index % length protectors) protectors)
    invite_missing group protectors (suc index) error targets

  unfoldable pub fleet_pass : String → Option String → M (Bool × Option String)
  unfolding invite_missing missing_of clients_that is_primary is_present ranked
  fleet_pass group last = do
    e ← gets (λ e. e)
    elim (clients_that (λ mid. is_primary e mid && is_present e group mid) e.fleet) [
      | [] ↦ pure (false, some "no primary guard remains in the group")
      | mid ∷ mids ↦ do
        order ← ranked env (mid ∷ mids)
        m ← moment env
        e' ← gets (λ e. e)
        error ← invite_missing group order 0 last (env.sort_texts (missing_of m.now group e'))
        dirty ← moment env
        pure (dirty.done, error)
    ]

  -- At most so many passes, while another run asks for one more.
  unfoldable pub fleet_passes : ℕ → String → Option String → M (Option String)
  unfolding fleet_pass
  fleet_passes zero group last = pure last
  fleet_passes (suc n) group last = do
    (dirty, error) ← fleet_pass group last
    let later = fleet_passes n group error
    if dirty then later else pure error

  -- `reconcilePrimaryFleet`.
  unfoldable pub reconcile_fleet : String → M (Option String)
  unfolding fleet_passes
  reconcile_fleet group = do
    running ← moment env
    if running.done then pure nil else fleet_passes 4 group nil
