-- ===== src/Guard/Engine/KickAll.antt =====
-- `kickAll` of guard/engine.go: who is kicked, in which batches, and by whom. The jobs of a round run
-- in goroutines of their own; here they run in the order in which they are made.
pub mod Batches
use line_go.Common.{
  ℕ, zero, suc, ◌+◌, ◌%◌, String, Bool, true, false, not, ◌&&◌, Option, none, some, List, [], ◌∷◌,
  ◌++◌, length, take, drop, ltb, ◌==◌, if◌then◌else◌,
}
use line_go.Guard.Lists.{contains}
use line_go.Guard.Store.{State, user, admin, rank, role}
use line_go.Guard.Engine.{gets_chat, Env, Engine, M, ◌>>=◌, ◌>>◌, pure, gets, nil, moment, call}
use line_go.Guard.Engine.Actions.{role_of, is_user, clients_that, kick, ranked}
use line_go.Guard.Engine.WarReports.{Reply, says, fails}
use Prim.Native.String.{◌++◌ as join}
use text.Mathlib.Text.{◌==◌ as str_eq}

-- The members that may be kicked, as they are listed.
unfoldable pub targets_among : State → String → List String → List String
targets_among s group [] = []
targets_among s group (mid ∷ mids) =
    let others = targets_among s group mids in
    if not (str_eq mid "") && not (contains s.bots mid) && (rank (role s group mid) == rank user)
    then mid ∷ others
    else others

unfoldable pub item_at : ℕ → List String → Option String
item_at n [] = none
item_at zero (x ∷ xs) = some x
item_at (suc n) (x ∷ xs) = item_at n xs

unfoldable pub put_at : ℕ → String → List String → List String
put_at n y [] = []
put_at zero y (x ∷ xs) = y ∷ xs
put_at (suc n) y (x ∷ xs) = x ∷ put_at n y xs

-- Two places change their items; a place out of range is left.
unfoldable pub swap_at : ℕ → ℕ → List String → List String
unfolding item_at put_at
swap_at i j xs = elim (item_at i xs) [
  | none ↦ xs
  | some x ↦ elim (item_at j xs) [ none ↦ xs | some y ↦ put_at j x (put_at i y xs) ]
]

-- `rand.Shuffle`, by the swaps that it makes.
unfoldable pub shuffle : List (ℕ × ℕ) → List String → List String
unfolding swap_at
shuffle [] xs = xs
shuffle ((i, j) ∷ swaps) xs = shuffle swaps (swap_at i j xs)

-- A batch of 14 for each job; the fuel is the number of targets.
unfoldable pub batches : ℕ → List String → List (List String)
batches zero targets = []
batches (suc fuel) [] = []
batches (suc fuel) (mid ∷ mids) = take 14 (mid ∷ mids) ∷ batches fuel (drop 14 (mid ∷ mids))

-- The worker of a job: each round has one job for each worker, and begins one worker further.
unfoldable pub worker_at : String → List String → ℕ → ℕ → String
unfolding item_at
worker_at leader workers round index = elim (item_at ((index + round) % length workers) workers) [
  | none ↦ leader
  | some worker ↦ worker
]

-- The jobs in their order, from a place in a round.
unfoldable pub jobs_from :
    String → List String → ℕ → ℕ → List (List String) → List (String × List String)
unfolding worker_at
jobs_from leader workers round index [] = []
jobs_from leader workers round index (batch ∷ rest) =
    (worker_at leader workers round index, batch)
    ∷ (let last = ltb (index + 1) (length workers) in
        jobs_from leader workers (if last then round else round + 1) (if last then index + 1 else 0)
          rest)

module _ (env : Env) where
  -- How many were removed, and for how many that failed.
  unfoldable pub run_jobs : String → ℕ → ℕ → List (String × List String) → M (ℕ × ℕ)
  unfolding kick
  run_jobs group removed failed [] = pure (removed, failed)
  run_jobs group removed failed ((worker, targets) ∷ jobs) = do
    error ← kick env worker group targets
    elim error [
      | none ↦ run_jobs group (removed + length targets) failed jobs
      | some e ↦ run_jobs group removed (failed + length targets) jobs
    ]

  unfoldable pub or_leader : String → List String → List String
  or_leader leader [] = leader ∷ []
  or_leader leader (mid ∷ mids) = mid ∷ mids

  unfoldable pub kick_targets : String → String → List String → List String → M Reply
  unfolding shuffle batches jobs_from run_jobs or_leader ranked
  kick_targets group leader members [] =
      says "No kickall targets; bots and privileged users are protected."
  kick_targets group leader members (mid ∷ mids) = do
    m ← moment env
    let targets = shuffle m.swaps (mid ∷ mids)
    e ← gets (λ e. e)
    workers ← ranked env (or_leader leader (clients_that (contains members) e.fleet))
    (removed, failed) ←
        run_jobs group 0 0 (jobs_from leader workers 0 0 (batches (length targets) targets))
    says (
        join "Kickall completed: " (
          join (env.show removed) (
            join " removed, "
              (join (env.show failed) " failed; bots and privileged users were protected."))))

  unfoldable pub kick_members : String → String → List (List String) → M Reply
  unfolding kick_targets targets_among
  kick_members group leader (members ∷ []) = do
    e ← gets (λ e. e)
    kick_targets group leader members (targets_among e.store.state group members)
  kick_members group leader _ = fails "group members could not be retrieved"

  unfoldable pub kick_all : String → String → String → M Reply
  unfolding kick_members role_of
  kick_all leader group actor = do
    e ← gets (λ e. e)
    if ltb (rank (role_of e group actor)) (rank admin)
        then fails "kickall requires Admin permission"
        else do
          m ← call env (gets_chat leader group)
          elim m.error [
            | some error ↦ fails "group members could not be retrieved"
            | none ↦ kick_members group leader m.chats
          ]
