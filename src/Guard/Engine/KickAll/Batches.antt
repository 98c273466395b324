-- ===== src/Guard/Engine/KickAll/Batches.antt =====
-- The batches of `kickAll` of guard/engine.go, and its targets.
use line_go.Common.{
  ℕ, zero, suc, ◌≤◌, ◌≡◌, refl, ap, arith, String, List, [], ◌∷◌, ◌++◌, length, take, drop,
}
use line_go.Guard.Engine.KickAll.{batches, jobs_from}

abbrev pub joined : List (List String) → List String
joined [] = []
joined (batch ∷ rest) = batch ++ joined rest

abbrev pub AreBatches : List (List String) → Type 0
AreBatches [] = Unit
AreBatches (batch ∷ rest) = ((1 ≤ length batch) × (length batch ≤ 14)) × AreBatches rest

take-append-drop : (n : ℕ) (xs : List String) → take n xs ++ drop n xs ≡ xs
take-append-drop zero xs = refl
take-append-drop (suc n) [] = refl
take-append-drop (suc n) (x ∷ xs) = ap (λ ys. x ∷ ys) (take-append-drop n xs)

length-take_le : (n : ℕ) (xs : List String) → length (take n xs) ≤ n
length-take_le zero xs = omega arith
length-take_le (suc n) [] = omega arith
length-take_le (suc n) (x ∷ xs) = omega (arith, length-take_le n xs)

length-drop_le : (n : ℕ) (xs : List String) → length (drop n xs) ≤ length xs
length-drop_le zero xs = omega arith
length-drop_le (suc n) [] = omega arith
length-drop_le (suc n) (x ∷ xs) = omega (arith, length-drop_le n xs)

-- With as much fuel as there are targets, every target is in one batch, in its place, and each batch
-- has between one and fourteen targets.
joined-batches :
    (fuel : ℕ) (targets : List String)
    → length targets ≤ fuel
    → (joined (batches fuel targets) ≡ targets) × AreBatches (batches fuel targets)
unfolding batches
joined-batches zero [] h = (refl, tt)
joined-batches zero (mid ∷ mids) h = absurd (omega arith)
joined-batches (suc fuel) [] h = (refl, tt)
joined-batches (suc fuel) (mid ∷ mids) h =
    let rest = joined-batches fuel (drop 13 mids) (omega (arith, length-drop_le 13 mids)) in
    let cut : mid ∷ (take 13 mids ++ joined (batches fuel (drop 13 mids))) ≡ mid ∷ mids =
      rw (rest.0, take-append-drop 13 mids) refl in
    (cut, ((omega arith, omega (arith, length-take_le 13 mids)), rest.1))

abbrev pub targets_of : List (String × List String) → List (List String)
targets_of [] = []
targets_of ((worker, targets) ∷ jobs) = targets ∷ targets_of jobs

targets_of-jobs_from :
    (leader : String) (workers : List String) (parts : List (List String)) (round index : ℕ)
    → targets_of (jobs_from leader workers round index parts) ≡ parts
unfolding jobs_from
targets_of-jobs_from leader workers [] round index = refl
targets_of-jobs_from leader workers (part ∷ parts) round index =
    ap (λ later. part ∷ later) (targets_of-jobs_from leader workers parts _ _)

-- Whoever the workers are, the jobs of `kickAll` have every target once, in its place, and each job
-- has between one and fourteen targets.
pub joined-jobs_from :
    (leader : String) (workers : List String) (round index : ℕ) (targets : List String)
    → (joined (targets_of (jobs_from leader workers round index (batches (length targets) targets)))
        ≡ targets)
      × AreBatches
          (targets_of (jobs_from leader workers round index (batches (length targets) targets)))
joined-jobs_from leader workers round index targets =
    rw (targets_of-jobs_from leader workers (batches (length targets) targets) round index)
      (joined-batches (length targets) targets (omega arith))
