-- ===== src/Guard/Engine/FairReserves.antt =====
-- The reserves and the fleet of guard/engine.go under the postconditions of Leads, Calm and Fair.
use line_go.Common.{ℕ, String, false, not, ◌&&◌, ◌||◌, List, [], ◌∷◌, length, ltb, ◌==◌}
use line_go.Guard.Lists.{contains}
use line_go.Guard.Store.{State}
use line_go.Guard.Engine.{Env}
use line_go.Guard.Engine.Reserves.{
  is_client, recall, send_out, place_reserves, select_reserves, configure_reserves, leave_each,
  leave_members, leave_fleet, reserve_candidates,
}
use line_go.Guard.Engine.Leads.{Leads-if, Leads-option, Leads-pure, Leads-bind}
use line_go.Guard.Engine.CalmStores.{set_reserve_plan-IsCalm}
use line_go.Guard.Engine.Fair.{Keeps, Leads-engine, Keeps-call, Keeps-with_store, Keeps-set_member}
use line_go.Guard.Engine.FairActions.{Keeps-invite}

module _ (env : Env) (s₀ : State) (attacker : String → Type 0) where
  Keeps-recall :
      (group : String) (selected mids : List String)
      → Keeps env s₀ attacker (recall env group selected mids)
  unfolding recall
  Keeps-recall group selected [] = Leads-pure _ tt
  Keeps-recall group selected (mid ∷ mids) = Leads-bind (Leads-engine env s₀ attacker) λ e _.
      Leads-bind
        (Leads-if (contains selected mid || not (is_client e mid))
          (λ h. Leads-pure {Q = λ u. Unit {0}} _ tt)
          λ h. Leads-bind (Keeps-call env s₀ attacker _ tt) λ m _. Leads-pure _ tt)
        λ u _. Keeps-recall group selected mids

  Keeps-send_out :
      (group client : String) (former present mids : List String)
      → Keeps env s₀ attacker (send_out env group client former present mids)
  unfolding send_out
  Keeps-send_out group client former present [] = Leads-pure _ tt
  Keeps-send_out group client former present (mid ∷ mids) =
      Leads-bind (Leads-engine env s₀ attacker) λ e _.
        Leads-bind
          (Leads-if (is_client e mid && contains present mid)
            (λ h.
              Leads-bind (Keeps-call env s₀ attacker _ tt)
                λ m _. Leads-pure {Q = λ u. Unit {0}} _ tt)
            (λ h. Leads-pure _ tt))
          λ left _.
            Leads-option left
              (Leads-bind
                (Leads-if (is_client e mid && not (contains former mid))
                  (λ h.
                    Leads-bind (Keeps-invite env s₀ attacker client group (mid ∷ []))
                      λ error _. Leads-pure {Q = λ u. Unit {0}} _ tt)
                  (λ h. Leads-pure _ tt))
                λ u _. Keeps-send_out group client former present mids)
              λ error. Leads-pure _ tt

  Keeps-place_reserves :
      (client group : String) (former present selected : List String)
      → Keeps env s₀ attacker (place_reserves env client group former present selected)
  unfolding place_reserves
  Keeps-place_reserves client group former present selected =
      Leads-bind (Keeps-recall group selected former) λ u _.
        Leads-if (length selected == 0) (λ h. Leads-pure _ tt)
          λ h.
            Leads-bind (Keeps-send_out group client former present selected)
              λ failed _. Leads-option failed (Leads-pure _ tt) λ error. Leads-pure _ tt

  Keeps-select_reserves :
      (client group actor : String) (count : ℕ) (former : List String) (chats : List (List String))
      → Keeps env s₀ attacker (select_reserves env client group actor count former chats)
  unfolding select_reserves
  Keeps-select_reserves client group actor count former (present ∷ []) =
      Leads-bind (Leads-engine env s₀ attacker) λ e _.
        Leads-if (ltb (length (reserve_candidates env.sort_texts e client former present)) count)
          (λ h. Leads-pure _ tt)
          λ h.
            Leads-bind
              (Keeps-with_store env s₀ attacker _
                (λ m s c. set_reserve_plan-IsCalm env.json m.calls s₀ group actor count _ s c))
              λ failed _.
                Leads-option failed (Keeps-place_reserves client group former present _)
                  λ error. Leads-pure _ tt
  Keeps-select_reserves client group actor count former [] = Leads-pure _ tt
  Keeps-select_reserves client group actor count former (a ∷ b ∷ rest) = Leads-pure _ tt

  pub Keeps-configure_reserves :
      (client group actor : String) (count : ℕ)
      → Keeps env s₀ attacker (configure_reserves env client group actor count)
  unfolding configure_reserves
  Keeps-configure_reserves client group actor count =
      Leads-bind (Leads-engine env s₀ attacker) λ e _.
        Leads-bind (Keeps-call env s₀ attacker _ tt) λ m _.
          Leads-option m.error (Keeps-select_reserves client group actor count _ m.chats)
            λ error. Leads-pure _ tt

  Keeps-leave_each :
      (group : String) (failures : ℕ) (mids : List String)
      → Keeps env s₀ attacker (leave_each env group failures mids)
  unfolding leave_each
  Keeps-leave_each group failures [] = Leads-pure _ tt
  Keeps-leave_each group failures (mid ∷ mids) = Leads-bind (Leads-engine env s₀ attacker) λ e _.
      Leads-bind
        (Leads-if (not (is_client e mid)) (λ h. Leads-pure {Q = λ u. Unit {0}} _ tt)
          λ h. Leads-bind (Keeps-call env s₀ attacker _ tt) λ m _.
            Leads-option m.error
              (Leads-bind (Keeps-set_member env s₀ attacker group mid false) λ u _. Leads-pure _ tt)
              λ error. Leads-pure _ tt)
        λ failed _. Keeps-leave_each group _ mids

  pub Keeps-leave_fleet :
      (group leader : String) → Keeps env s₀ attacker (leave_fleet env group leader)
  unfolding leave_fleet
  Keeps-leave_fleet group leader =
      Leads-bind (Keeps-call env s₀ attacker _ tt)
        λ m _. Leads-option m.error (leave m.chats) λ error. Leads-pure _ tt
    where
      leave : (chats : List (List String)) → Keeps env s₀ attacker (leave_members env group chats)
      leave [] = unfold leave_members in (Leads-pure _ tt)
      leave (members ∷ []) =
          unfold leave_members in
          (Leads-bind (Keeps-leave_each group 0 members) λ failures _. Leads-pure _ tt)
      leave (a ∷ b ∷ rest) = unfold leave_members in (Leads-pure _ tt)
