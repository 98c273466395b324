-- ===== src/Guard/Engine/FairInvitation.antt =====
-- Whom `handleInvitation` of guard/engine.go kicks, and whom it makes the creator.
use line_go.Common.{
  ℕ, ◌+◌, String, Bool, true, false, not, ◌&&◌, Option, none, arith, List, [], ◌∷◌, length, ltb,
  ◌==◌,
}
use line_go.Guard.Lists.{contains}
use line_go.Guard.Store.{State, rank, creator, can_kick}
use line_go.Guard.Store.Persist.{Store}
use line_go.Guard.Store.Roles.{bootstrap_creator}
use line_go.Guard.Store.Settings.{protection}
use line_go.Guard.Engine.{
  Call, Env, Engine, Moment, Operation, M, ◌>>=◌, pure, gets, modify, moment, call,
}
use line_go.Guard.Engine.Memory.{
  with_member, set_member, is_bot, creator_of, is_group_reserve, primary_count, split_mids,
}
use line_go.Guard.Engine.WarRecords.{with_store}
use line_go.Guard.Engine.Actions.{role_of, reply, start_reconcile}
use line_go.Guard.Engine.Invitation.{
  join_each, open_rollout, admit_joining, admit_absent, admit_by_ticket, accept_invitation,
  handle_own_invitation, may_invite, cancel_blacklisted, punish_inviter, handle_others_invitation,
  handle_invitation,
}
use line_go.Guard.Engine.Leads.{
  Leads, Leads-if, Leads-option, Leads-pure, Leads-bind, Leads-modify, Leads-gets, Leads-loosen,
}
use line_go.Guard.Engine.Fair.{
  MayBeKicked, IsFair, Fair, Calm, Keeps, Leads-engine, Keeps-war_now, Keeps-duplicate,
  Keeps-add_war_risk, Keeps-clear_pending_invite,
}
use line_go.Guard.Engine.FairActions.{Keeps-cancel, Keeps-protector_for, Keeps-eject_and_blacklist}
use line_go.Guard.Engine.Spares.{inviter-MayBeKicked}
use text.Mathlib.Text.{◌==◌ as str_eq}

module _ (env : Env) (s₀ : State) (attacker : String → Type 0) where
  -- An action that adds fair calls alone, whatever the store is.
  abbrev IsQuiet : {A : Type 0} → M A → Type 0
  IsQuiet {A} = Leads (Fair env s₀ attacker) (Fair env s₀ attacker) (λ (a : A). Unit {0})

  call-IsQuiet : (c : Call) → IsFair s₀ attacker c → IsQuiet (call env c)
  unfolding call
  call-IsQuiet c h = record { leads = λ e p. ((h, p), tt) }

  gets-IsQuiet : {A : Type 0} (f : Engine → A) → IsQuiet (gets f)
  gets-IsQuiet f = Leads-gets f (λ e p. tt)

  with_member-Fair :
      (group mid : String) (present : Bool) (e : Engine)
      → Fair env s₀ attacker e
      → Fair env s₀ attacker (with_member group mid present e)
  unfolding with_member
  with_member-Fair group mid present e p = ground arith

  set_member-IsQuiet :
      (group mid : String) (present : Bool) → IsQuiet (set_member group mid present)
  unfolding set_member
  set_member-IsQuiet group mid present = Leads-modify _ (with_member-Fair group mid present)

  start_reconcile-IsQuiet : (group : String) → IsQuiet (start_reconcile env group)
  unfolding start_reconcile
  start_reconcile-IsQuiet group = Leads-bind (call-IsQuiet _ tt) λ m _. Leads-pure _ tt

  join_each-IsQuiet :
      (group : String) (first : Bool) (joined : ℕ) (mids : List String)
      → IsQuiet (join_each env group first joined mids)
  unfolding join_each
  join_each-IsQuiet group first joined [] = Leads-pure _ tt
  join_each-IsQuiet group first joined (mid ∷ mids) =
      Leads-bind
        (Leads-if first (λ h. Leads-pure {Q = λ r. Unit {0}} _ tt)
          λ h. Leads-bind (call-IsQuiet _ tt) λ m _. Leads-pure _ tt)
        λ ready _.
          Leads-if (not ready) (λ h. Leads-pure _ tt)
            λ h. Leads-bind (call-IsQuiet _ tt) λ m _.
              Leads-option m.error
                (Leads-bind (set_member-IsQuiet group mid true)
                  λ u _. join_each-IsQuiet group false (joined + 1) mids)
                λ error. join_each-IsQuiet group false joined mids

  open_rollout-IsQuiet :
      (group leader : String) (joining : List String)
      → IsQuiet (open_rollout env group leader joining)
  unfolding open_rollout
  open_rollout-IsQuiet group leader joining =
      Leads-bind (join_each-IsQuiet group true 0 joining) λ (joined, stopped) _.
        Leads-bind (call-IsQuiet _ tt) λ m _.
          Leads-option stopped
            (Leads-if (not (joined == length joining)) (λ h. Leads-pure _ tt) λ h. Leads-pure _ tt)
            λ error. Leads-pure _ tt

  admit_joining-IsQuiet :
      (group leader : String) (joining : List String)
      → IsQuiet (admit_joining env group leader joining)
  unfolding admit_joining
  admit_joining-IsQuiet group leader joining = Leads-bind (call-IsQuiet _ tt) λ issued _.
      Leads-option issued.error
        (Leads-bind (call-IsQuiet _ tt) λ opened _.
          Leads-option opened.error (open_rollout-IsQuiet group leader joining)
            λ error. Leads-pure _ tt)
        λ error. Leads-pure _ tt

  admit_absent-IsQuiet :
      (group leader : String) (chats : List (List String))
      → IsQuiet (admit_absent env group leader chats)
  unfolding admit_absent
  admit_absent-IsQuiet group leader [] = Leads-pure _ tt
  admit_absent-IsQuiet group leader (present ∷ []) =
      Leads-bind (gets-IsQuiet _) λ e _. choose (env.sort_texts _)
    where
      choose :
          (mids : List String)
          → IsQuiet {A = Option String} (elim mids [
            | [] ↦ pure none
            | mid ∷ rest ↦ admit_joining env group leader (mid ∷ rest)
          ])
      choose [] = Leads-pure _ tt
      choose (mid ∷ rest) = admit_joining-IsQuiet group leader (mid ∷ rest)
  admit_absent-IsQuiet group leader (present ∷ other ∷ chats) = Leads-pure _ tt

  admit_by_ticket-IsQuiet : (group leader : String) → IsQuiet (admit_by_ticket env group leader)
  unfolding admit_by_ticket
  admit_by_ticket-IsQuiet group leader = Leads-bind (call-IsQuiet _ tt) λ m _.
      Leads-option m.error (admit_absent-IsQuiet group leader m.chats) λ error. Leads-pure _ tt

  with_store-IsQuiet : {A : Type 0} (f : Moment → Store → Store × A) → IsQuiet (with_store env f)
  unfolding with_store moment ◌>>=◌ gets modify pure
  with_store-IsQuiet f = record { leads = λ e p. (p, tt) }

  accept_invitation-IsQuiet :
      (group inviter client : String) → IsQuiet (accept_invitation env group inviter client)
  unfolding accept_invitation reply
  accept_invitation-IsQuiet group inviter client =
      Leads-bind (with_store-IsQuiet (λ m s. bootstrap_creator env.json m.calls inviter s))
        λ (created, failed) _.
          Leads-option failed
            (Leads-bind (call-IsQuiet _ tt) λ m _.
              Leads-option m.error
                (Leads-bind (set_member-IsQuiet group client true) λ u _.
                  Leads-bind (gets-IsQuiet _) λ e _.
                    Leads-bind
                      (Leads-if
                        (not (is_bot e inviter) && (rank (role_of e group inviter) == rank creator))
                        (λ h. admit_by_ticket-IsQuiet group client) (λ h. Leads-pure _ tt))
                      λ rolled _.
                        Leads-bind
                          (Leads-option rolled (Leads-pure {Q = λ r. Unit {0}} _ tt)
                            λ error. start_reconcile-IsQuiet group)
                          λ u' _.
                            Leads-if created
                              (λ h. Leads-bind (call-IsQuiet _ tt) λ m' _. Leads-pure _ tt)
                              (λ h. Leads-pure _ tt))
                λ error. Leads-bind (start_reconcile-IsQuiet group) λ u _. Leads-pure _ tt)
            λ error. Leads-pure _ tt

  abbrev LeavesFair : {A : Type 0} → M A → Type 0
  LeavesFair {A} = Leads (Calm env s₀ attacker) (Fair env s₀ attacker) (λ (a : A). Unit {0})

  Keeps-LeavesFair : {A : Type 0} {m : M A} → Keeps env s₀ attacker m → LeavesFair m
  Keeps-LeavesFair h = Leads-loosen (λ e p. p.1) (λ a q. q) h

  handle_own_invitation-LeavesFair :
      (group inviter client : String) → LeavesFair (handle_own_invitation env group inviter client)
  unfolding handle_own_invitation
  handle_own_invitation-LeavesFair group inviter client =
      Leads-bind (Keeps-LeavesFair (Keeps-clear_pending_invite env s₀ attacker group client)) λ u _.
        Leads-bind (gets-IsQuiet _) λ e _.
          Leads-if (is_group_reserve e group client && ltb 0 (primary_count e group))
            (λ h. Leads-pure _ tt) (λ h. accept_invitation-IsQuiet group inviter client)

  Keeps-cancel_blacklisted :
      (group client : String) (mids : List String)
      → Keeps env s₀ attacker (cancel_blacklisted env group client mids)
  unfolding cancel_blacklisted
  Keeps-cancel_blacklisted group client [] = Leads-pure _ tt
  Keeps-cancel_blacklisted group client (mid ∷ mids) =
      Leads-bind (Keeps-protector_for env s₀ attacker group "" client) λ protector _.
        Leads-option protector (Leads-pure _ tt)
          λ p. Keeps-cancel env s₀ attacker p group (mid ∷ mids)

  Keeps-punish_inviter :
      (group inviter : String) (invited : List String) (client : String)
      → MayBeKicked s₀ attacker group inviter
      → Keeps env s₀ attacker (punish_inviter env group inviter invited client)
  unfolding punish_inviter
  Keeps-punish_inviter group inviter invited client fair =
      Leads-bind (Keeps-protector_for env s₀ attacker group "" client) λ protector _.
        Leads-option protector (Leads-pure _ tt) λ p.
          Leads-bind (Keeps-cancel env s₀ attacker p group invited) λ cancelled _.
            Leads-bind (Leads-engine env s₀ attacker) λ e _.
              Leads-if (can_kick e.store.state group (creator_of e.store.state) inviter)
                (λ h. Keeps-eject_and_blacklist env s₀ attacker p group inviter fair)
                (λ h. Leads-pure _ tt)

  Keeps-handle_others_invitation :
      (group inviter : String) (invited : List String) (client : String)
      → Keeps env s₀ attacker (handle_others_invitation env group inviter invited client)
  unfolding handle_others_invitation
  Keeps-handle_others_invitation group inviter invited client =
      Leads-bind (Keeps-war_now env s₀ attacker group) λ (war, on) _.
        Leads-bind (Leads-engine env s₀ attacker) λ e c.
          Leads-if (not (protection group e.store).invite && not on && not war.locked)
            (λ h. Leads-pure _ tt)
            λ h.
              Leads-if (may_invite e.store.state group inviter invited)
                (λ h'. Keeps-cancel_blacklisted group client _)
                λ refused.
                  Leads-bind
                    (Leads-if on (λ h'. Keeps-add_war_risk env s₀ attacker group inviter 3)
                      (λ h'. Leads-pure _ tt))
                    λ u _.
                      Keeps-punish_inviter group inviter invited client
                        (inviter-MayBeKicked env s₀ attacker group inviter invited e c refused)

  pub handle_invitation-LeavesFair :
      (op : Operation) (client : String) → LeavesFair (handle_invitation env op client)
  unfolding handle_invitation
  handle_invitation-LeavesFair op client =
      Leads-if (contains (split_mids env op.param3) client)
        (λ h. handle_own_invitation-LeavesFair op.param1 op.param2 client)
        λ h. Keeps-LeavesFair (
          Leads-bind (Leads-engine env s₀ attacker) λ e c.
            Leads-if (str_eq (creator_of e.store.state) "") (λ h'. Leads-pure _ tt)
              λ h'. Leads-bind (Keeps-duplicate env s₀ attacker _) λ old _.
                Leads-if old (λ h''. Leads-pure _ tt)
                  λ h''. Keeps-handle_others_invitation op.param1 op.param2 _ client)
