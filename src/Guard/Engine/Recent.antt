-- ===== src/Guard/Engine/Recent.antt =====
-- How long `duplicate` of guard/engine.go remembers an event.
use line_go.Common.{
  ℕ, ◌+◌, ◌≤◌, ◌<◌, String, Bool, true, false, not, some, ◌≡◌, refl, ap, ◌∙◌, arith, List, [], ◌∷◌,
  ltb, find_key, keep_values, find_key-put_key, Bool-cases, inl, inr, Option-cases,
}
use line_go.Guard.Engine.Memory.{note_seen}
use text.Mathlib.Text.{◌==◌ as str_eq}
use text.Mathlib.TextEquality.{eq_iff}

-- The key is remembered until some time at or after `until`.
abbrev Remembers : List (String × ℕ) → String → ℕ → Type 0
Remembers seen key until = (t : ℕ) × (find_key seen key ≡ some t) × (until ≤ t)

find_key-keep_values :
    (test : ℕ → Bool) (m : List (String × ℕ)) (key : String) (t : ℕ)
    → find_key m key ≡ some t
    → test t ≡ true
    → find_key (keep_values test m) key ≡ some t
unfolding find_key keep_values
find_key-keep_values test [] key t e h = cc
find_key-keep_values test ((other, value) ∷ rest) key t e h =
    ground (arith, find_key-keep_values test rest key t)

-- Before its time, a key that is remembered is a duplicate, and stays remembered whatever else is seen.
note_seen-known :
    (now until : ℕ) (key : String) (seen : List (String × ℕ))
    → now < until
    → Remembers seen key until
    → (note_seen now key seen).1 ≡ true
unfolding note_seen
note_seen-known now until key seen early (t, e, late) =
    let live = find_key-keep_values (λ x. not (ltb x now)) seen key t e (ground arith) in
    let open' : ltb now t ≡ true = ground arith in rw (live, note_seen) (rw open' refl)

note_seen-Remembers :
    (now until : ℕ) (other key : String) (seen : List (String × ℕ))
    → now < until
    → Remembers seen key until
    → Remembers (note_seen now other seen).0 key until
unfolding note_seen
note_seen-Remembers now until other key seen early (t, e, late) =
    let kept = keep_values (λ x. not (ltb x now)) seen in
    let live = find_key-keep_values (λ x. not (ltb x now)) seen key t e (ground arith) in
    let open' : ltb now t ≡ true = ground arith in
    let found : find_key (note_seen now other seen).0 key ≡ some t =
      elim (Bool-cases (str_eq other key)) [
        | inl same ↦
            let here : find_key kept other ≡ some t =
              ap (find_key kept) ((eq_iff other key).0 same) ∙ live in
            rw (here, note_seen) (rw open' live)
        | inr apart ↦ elim (Option-cases (find_key kept other)) [
          | inl e' ↦
              rw (e', note_seen) (rw (find_key-put_key kept other key (now + 10_000), apart) live)
          | inr (x, e') ↦ elim (Bool-cases (ltb now x)) [
            | inl b ↦ rw (e', note_seen) (rw b live)
            | inr b ↦
                rw (e', note_seen)
                  (rw b (rw (find_key-put_key kept other key (now + 10_000), apart) live))
          ]
        ]
      ] in
    (t, found, late)

-- A key that was fresh is remembered for ten seconds.
note_seen-fresh :
    (now : ℕ) (key : String) (seen : List (String × ℕ))
    → (note_seen now key seen).1 ≡ false
    → Remembers (note_seen now key seen).0 key (now + 10_000)
unfolding note_seen
note_seen-fresh now key seen fresh =
    let kept = keep_values (λ x. not (ltb x now)) seen in
    let self : str_eq key key ≡ true = (eq_iff key key).1 refl in
    elim (Option-cases (find_key kept key)) [
      | inl e ↦ (
        now + 10_000,
        rw (e, note_seen) (rw (find_key-put_key kept key key (now + 10_000), self) refl),
        omega arith,
      )
      | inr (x, e) ↦ elim (Bool-cases (ltb now x)) [
        | inl b ↦
            absurd
              (let known : (note_seen now key seen).1 ≡ true = rw (e, note_seen) (rw b refl) in cc)
        | inr b ↦ (
          now + 10_000,
          rw (e, note_seen) (rw b (rw (find_key-put_key kept key key (now + 10_000), self) refl)),
          omega arith,
        )
      ]
    ]

-- The keys that are seen one after another, each with its time.
unfoldable pub note_all : List (ℕ × String) → List (String × ℕ) → List (String × ℕ)
unfolding note_seen
note_all [] seen = seen
note_all ((now, key) ∷ later) seen = note_all later (note_seen now key seen).0

abbrev pub AllBefore : ℕ → List (ℕ × String) → Type 0
AllBefore until [] = Unit
AllBefore until ((now, key) ∷ later) = (now < until) × AllBefore until later

note_all-Remembers :
    (until : ℕ) (key : String) (keys : List (ℕ × String)) (seen : List (String × ℕ))
    → AllBefore until keys
    → Remembers seen key until
    → Remembers (note_all keys seen) key until
unfolding note_all
note_all-Remembers until key [] seen before known = known
note_all-Remembers until key ((now, other) ∷ later) seen before known =
    note_all-Remembers until key later _ before.1
      (note_seen-Remembers now until other key seen before.0 known)

-- A key that `duplicate` found new is a duplicate for ten seconds, whatever other keys, or the same,
-- come in between within that time.
pub note_seen-note_all :
    (now : ℕ) (key : String) (between : List (ℕ × String)) (later : ℕ) (seen : List (String × ℕ))
    → (note_seen now key seen).1 ≡ false
    → AllBefore (now + 10_000) between
    → later < now + 10_000
    → (note_seen later key (note_all between (note_seen now key seen).0)).1 ≡ true
note_seen-note_all now key between later seen fresh before early =
    note_seen-known later (now + 10_000) key (note_all between (note_seen now key seen).0) early (
      note_all-Remembers (now + 10_000) key between (note_seen now key seen).0 before
        (note_seen-fresh now key seen fresh))
