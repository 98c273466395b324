-- ===== src/Guard/War/Expiry.antt =====
-- How long a war lasts that guard/war.go starts by itself.
use line_go.Common.{
  ℕ, ◌+◌, ◌<◌, String, true, false, ◌&&◌, some, ◌≡◌, refl, sym, ap, ◌∙◌, arith, ltb, pos,
  Bool-cases, inl, inr,
}
use line_go.Guard.Store.{WarState, State, get_group, or_new, update_group}
use line_go.Guard.Store.Persist.{Json, Calls, Store, commit-state}
use line_go.Guard.Store.Authority.{get_group-set_group}
use line_go.Guard.War.{
  war, war_active, stored_war, with_war, activate_war_auto, expire_war, expire_room, is_over,
}
use text.Mathlib.Text.{◌==◌ as str_eq}
use text.Mathlib.TextEquality.{eq_iff}

stored_room :
    (group : String) (w : WarState) (s : State)
    → get_group group (update_group group (with_war w) s).groups
      ≡ some (with_war w (or_new (get_group group s.groups)))
unfolding update_group
stored_room group w s =
    let self : str_eq group group ≡ true = (eq_iff group group).1 refl in
    rw (
      get_group-set_group group group (with_war w (or_new (get_group group s.groups))) s.groups,
      self,
    )

-- The settings that are stored are those that are read, with the defaults.
war-update_group :
    (group : String) (w : WarState) (s : State)
    → ((war group (update_group group (with_war w) s)).enabled ≡ w.enabled)
      × ((war group (update_group group (with_war w) s)).until ≡ w.until)
unfolding war with_war
war-update_group group w s = rw (stored_room group w s, war) (refl, refl)

module _ (json : Json) where
  expire_war-enabled :
      (calls : Calls) (group : String) (w : WarState) (state : State) (s : Store)
      → w.enabled ≡ true
      → s.state ≡ update_group group (with_war w) state
      → (war group (expire_war json calls group s).state).enabled ≡ false
  unfolding expire_war expire_room with_war
  expire_war-enabled calls group w state s on e =
      let found = ap (λ (st : State). get_group group st.groups) e ∙ stored_room group w state in
      let over = record w { enabled = false; locked = false } in
      let saved = commit-state json calls s (update_group group (with_war over) s.state) in
      rw (found, expire_war) (rw on (rw saved (war-update_group group over s.state).0))

  activated :
      (calls : Calls) (now : ℕ) (group reason : String) (s : Store)
      → (stored_war group s.state).auto ≡ true
      → (stored_war group s.state).enabled ≡ false
      → (activate_war_auto json calls now group reason s).0.state
        ≡ update_group group
            (with_war (record (stored_war group s.state) {
              enabled = true;
              until = pos (now + 300_000);
              reason = reason;
              started_by = "auto";
            }))
            s.state
  unfolding activate_war_auto
  activated calls now group reason s auto off =
      rw (auto, off, activate_war_auto) (commit-state json calls s _)

  active_until :
      (calls : Calls) (later until : ℕ) (group : String) (w : WarState) (state : State) (s : Store)
      → w.enabled ≡ true
      → w.until ≡ pos until
      → 0 < until
      → s.state ≡ update_group group (with_war w) state
      → ((war_active json calls later group s).2 ≡ ltb later until)
        × ((war group (war_active json calls later group s).0.state).enabled ≡ ltb later until)
  unfolding war_active is_over
  active_until calls later until group w state s on end start e =
      let (enabled, ends) = war-update_group group w state in
      let on' = ap (λ (st : State). (war group st).enabled) e ∙ enabled ∙ on in
      let end' = ap (λ (st : State). (war group st).until) e ∙ ends ∙ end in
      elim (Bool-cases (ltb later until)) [
        | inl early ↦
            let test : ((war group s.state).enabled && is_over later (war group s.state).until)
                ≡ false =
              rw (on', end') (ground arith) in
            rw (test, war_active) (on' ∙ sym early, on' ∙ sym early)
        | inr late ↦
            let test : ((war group s.state).enabled && is_over later (war group s.state).until)
                ≡ true =
              rw (on', end') (ground arith) in
            rw (test, war_active)
              (sym late, expire_war-enabled calls group w state s on e ∙ sym late)
      ]

  -- A war that is started automatically at some time is active before five minutes have passed, and
  -- not from then on; asking then also ends it in the store. This holds whether or not the saves
  -- succeed.
  pub war_active-activate_war_auto :
      (calls calls' : Calls) (now later : ℕ) (group reason : String) (s : Store)
      → (stored_war group s.state).auto ≡ true
      → (stored_war group s.state).enabled ≡ false
      → ((war_active json calls' later group (activate_war_auto json calls now group reason s).0).2
          ≡ ltb later (now + 300_000))
        × ((war group
              (war_active json calls' later group
                (activate_war_auto json calls now group reason s).0).0.state).enabled
            ≡ ltb later (now + 300_000))
  war_active-activate_war_auto calls calls' now later group reason s auto off =
      active_until calls' later (now + 300_000) group _ s.state
        (activate_war_auto json calls now group reason s).0 refl refl (omega arith)
        (activated calls now group reason s auto off)
