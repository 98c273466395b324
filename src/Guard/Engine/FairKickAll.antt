-- ===== src/Guard/Engine/FairKickAll.antt =====
-- Whom `kickAll` of guard/engine.go kicks.
use line_go.Common.{
  ℕ, zero, suc, String, not, ◌&&◌, some, ◌≡◌, arith, List, [], ◌∷◌, take, drop, ltb, ◌==◌,
  Option-cases, Bool-cases, inl, inr,
}
use line_go.Guard.Lists.{contains}
use line_go.Guard.Store.{State, user, admin, rank, role}
use line_go.Guard.Engine.{Env, Engine}
use line_go.Guard.Engine.Actions.{role_of, kick}
use line_go.Guard.Engine.KickAll.{
  targets_among, item_at, put_at, swap_at, shuffle, batches, jobs_from, run_jobs, kick_targets,
  kick_members, kick_all,
}
use line_go.Guard.Engine.Leads.{Leads-if, Leads-option, Leads-pure, Leads-bind}
use line_go.Guard.Engine.Fair.{
  MayBeKicked, AllMayBeKicked, Calm, Keeps, Leads-engine, Keeps-moment, Keeps-call,
}
use line_go.Guard.Engine.FairActions.{Keeps-act_as_member, Keeps-ranked}
use line_go.Guard.Engine.Spares.{may_be_kicked}
use text.Mathlib.Text.{◌==◌ as str_eq}

module _ (env : Env) (s₀ : State) (attacker : String → Type 0) (group : String) where
  abbrev Spared : List String → Type 0
  Spared = AllMayBeKicked s₀ attacker group

  Spared-take : (n : ℕ) (xs : List String) → Spared xs → Spared (take n xs)
  Spared-take zero xs h = tt
  Spared-take (suc n) [] h = tt
  Spared-take (suc n) (x ∷ xs) h = (h.0, Spared-take n xs h.1)

  Spared-drop : (n : ℕ) (xs : List String) → Spared xs → Spared (drop n xs)
  Spared-drop zero xs h = h
  Spared-drop (suc n) [] h = tt
  Spared-drop (suc n) (x ∷ xs) h = Spared-drop n xs h.1

  Spared-item_at :
      (n : ℕ) (xs : List String) (x : String)
      → Spared xs
      → item_at n xs ≡ some x
      → MayBeKicked s₀ attacker group x
  unfolding item_at
  Spared-item_at n [] x h e = cc
  Spared-item_at zero (y ∷ xs) x h e = let same : y ≡ x = cc in rw (← same) h.0
  Spared-item_at (suc n) (y ∷ xs) x h e = Spared-item_at n xs x h.1 e

  Spared-put_at :
      (n : ℕ) (y : String) (xs : List String)
      → MayBeKicked s₀ attacker group y
      → Spared xs
      → Spared (put_at n y xs)
  unfolding put_at
  Spared-put_at n y [] p h = tt
  Spared-put_at zero y (x ∷ xs) p h = (p, h.1)
  Spared-put_at (suc n) y (x ∷ xs) p h = (h.0, Spared-put_at n y xs p h.1)

  Spared-swap_at : (i j : ℕ) (xs : List String) → Spared xs → Spared (swap_at i j xs)
  unfolding swap_at
  Spared-swap_at i j xs h = elim (Option-cases (item_at i xs)) [
    | inl e ↦ rw (e, swap_at) h
    | inr (x, e) ↦ elim (Option-cases (item_at j xs)) [
      | inl e' ↦ rw (e, swap_at) (rw (e', swap_at) h)
      | inr (y, e') ↦
          rw (e, swap_at)
            (rw (e', swap_at)
              (Spared-put_at j x (put_at i y xs) (Spared-item_at i xs x h e)
                (Spared-put_at i y xs (Spared-item_at j xs y h e') h)))
    ]
  ]

  Spared-shuffle : (swaps : List (ℕ × ℕ)) (xs : List String) → Spared xs → Spared (shuffle swaps xs)
  unfolding shuffle
  Spared-shuffle [] xs h = h
  Spared-shuffle ((i, j) ∷ swaps) xs h =
      Spared-shuffle swaps (swap_at i j xs) (Spared-swap_at i j xs h)

  abbrev AllJobs : List (String × List String) → Type 0
  AllJobs [] = Unit
  AllJobs ((worker, targets) ∷ jobs) = Spared targets × AllJobs jobs

  AllJobs-batches :
      (leader : String) (workers : List String) (fuel : ℕ) (targets : List String) (round index : ℕ)
      → Spared targets
      → AllJobs (jobs_from leader workers round index (batches fuel targets))
  unfolding batches jobs_from
  AllJobs-batches leader workers zero targets round index h = tt
  AllJobs-batches leader workers (suc fuel) [] round index h = tt
  AllJobs-batches leader workers (suc fuel) (x ∷ xs) round index h = (
    Spared-take 14 (x ∷ xs) h,
    AllJobs-batches leader workers fuel (drop 14 (x ∷ xs)) _ _ (Spared-drop 14 (x ∷ xs) h),
  )

  targets_among-Spared :
      (e : Engine) (members : List String)
      → Calm env s₀ attacker e
      → Spared (targets_among e.store.state group members)
  unfolding targets_among
  targets_among-Spared e [] c = tt
  targets_among-Spared e (mid ∷ mids) c =
      let test =
        not (str_eq mid "")
        && not (contains e.store.state.bots mid)
        && (rank (role e.store.state group mid) == rank user) in
      elim (Bool-cases test) [
        | inl h ↦ rw h (
          may_be_kicked env s₀ attacker group mid e c (ground arith)
              (inl (unfold rank in ground arith)),
          targets_among-Spared e mids c,
        )
        | inr h ↦ rw h (targets_among-Spared e mids c)
      ]

  Keeps-run_jobs :
      (jobs : List (String × List String)) (removed failed : ℕ)
      → AllJobs jobs
      → Keeps env s₀ attacker (run_jobs env group removed failed jobs)
  unfolding run_jobs kick
  Keeps-run_jobs [] removed failed h = Leads-pure _ tt
  Keeps-run_jobs ((worker, targets) ∷ jobs) removed failed h =
      Leads-bind (Keeps-act_as_member env s₀ attacker worker group "kick" _ h.0) λ error _.
        Leads-option error (Keeps-run_jobs jobs _ failed h.1) λ e. Keeps-run_jobs jobs removed _ h.1

  Keeps-kick_targets :
      (leader : String) (members targets : List String)
      → Spared targets
      → Keeps env s₀ attacker (kick_targets env group leader members targets)
  unfolding kick_targets
  Keeps-kick_targets leader members [] h = Leads-pure _ tt
  Keeps-kick_targets leader members (mid ∷ mids) h =
      Leads-bind (Keeps-moment env s₀ attacker) λ m _.
        Leads-bind (Leads-engine env s₀ attacker) λ e _.
          Leads-bind (Keeps-ranked env s₀ attacker _) λ workers _.
            Leads-bind
              (Keeps-run_jobs _ 0 0 (
                AllJobs-batches leader workers _ (shuffle m.swaps (mid ∷ mids)) 0 0
                  (Spared-shuffle m.swaps (mid ∷ mids) h)))
              λ (removed, failed) _. Leads-pure _ tt

  Keeps-kick_members :
      (leader : String) (chats : List (List String))
      → Keeps env s₀ attacker (kick_members env group leader chats)
  unfolding kick_members
  Keeps-kick_members leader (members ∷ []) =
      Leads-bind (Leads-engine env s₀ attacker)
        λ e c. Keeps-kick_targets leader members _ (targets_among-Spared e members c)
  Keeps-kick_members leader [] = Leads-pure _ tt
  Keeps-kick_members leader (a ∷ b ∷ rest) = Leads-pure _ tt

  pub Keeps-kick_all :
      (leader actor : String) → Keeps env s₀ attacker (kick_all env leader group actor)
  unfolding kick_all
  Keeps-kick_all leader actor = Leads-bind (Leads-engine env s₀ attacker) λ e _.
      Leads-if (ltb (rank (role_of e group actor)) (rank admin)) (λ h. Leads-pure _ tt)
        λ h.
          Leads-bind (Keeps-call env s₀ attacker _ tt)
            λ m _. Leads-option m.error (Keeps-kick_members leader m.chats) λ error. Leads-pure _ tt
