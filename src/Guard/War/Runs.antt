-- ===== src/Guard/War/Runs.antt =====
-- A war in a concrete group that may start by itself.
use line_go.Common.{true, false, none, some, ◌≡◌, refl, [], ◌∷◌, pos, ◌+◌, ltb}
use line_go.Guard.Store.{no_group, get_group, or_new}
use line_go.Guard.Store.Persist.{Json, Calls, Store}
use line_go.Guard.War.{default_war, or_default_war, stored_war, war, war_active, activate_war_auto}
use line_go.Guard.War.Expiry.{war_active-activate_war_auto}

abbrev json : Json
json = record {
  marshal = λ s. some "saved";
  migrate = λ t. some (t, false);
  unmarshal = λ s t. some s;
}

-- The save fails where the directory cannot be made.
abbrev calls : Calls
calls = record {
  mkdir_ok = false;
  create_ok = true;
  chmod_ok = true;
  write_ok = true;
  sync_ok = true;
  close_ok = true;
  rename_ok = true;
}

abbrev store : Store
store = record {
  state = record {
    version = pos 1;
    creators = "ann" ∷ [];
    owners = [];
    admins = [];
    blacklist = [];
    bots = [];
    commands = [];
    groups =
        ("room", some (record no_group { war = some (record default_war { auto = true }) })) ∷ [];
  };
  file = none;
  backup = none;
}

war_active-activate_war_auto_example :
    ((war_active json calls 301_000 "room"
        (activate_war_auto json calls 1_000 "room" "storm" store).0).2
      ≡ ltb 301_000 (1_000 + 300_000))
    × ((war "room"
          (war_active json calls 301_000 "room"
            (activate_war_auto json calls 1_000 "room" "storm" store).0).0.state).enabled
        ≡ ltb 301_000 (1_000 + 300_000))
unfolding stored_war get_group or_default_war or_new
war_active-activate_war_auto_example =
    war_active-activate_war_auto json calls calls 1_000 301_000 "room" "storm" store refl refl
