-- ===== src/Protocol/Containers.antt =====
-- The loops `for range size` of both decoders, over the reader of an element. Go's `values[key] =
-- item` panics where the key cannot be hashed; the entries of a map are kept in the order in which
-- they are written.
use line_go.Common.{ℕ, zero, suc, ◌+◌, ◌*◌, ◌≤◌, ◌<◌, ◌≡◌, arith, true, List, ◌++◌, append_assoc}
use line_go.Common.{if◌then◌else◌, length, length-append}
use line_go.Protocol.Outcome.{
  Outcome, ok, panic, unhashable_key, Ensures, holds, panics, Ensures-if, Ensures-bind, ◌>>=◌, ◌>>◌,
}
use line_go.Protocol.Value.{Value, Items, no_items, item, Entries, no_entries, entry, is_hashable}
use line_go.Protocol.Varint.{Reader}
use line_go.Protocol.Varint.Reads.{Takes}

unfoldable pub guard_key : Value → Outcome (Unit {0})
guard_key key = if is_hashable key then ok tt else panic unhashable_key

unfoldable pub read_items : ℕ → Reader Value → Reader Items
read_items zero read bytes = ok (no_items, bytes)
read_items (suc n) read bytes = do
  (v, bytes₁) ← read bytes
  (vs, bytes₂) ← read_items n read bytes₁
  ok (item v vs, bytes₂)

unfoldable pub read_entries : ℕ → Reader Value → Reader Value → Reader Entries
unfolding guard_key
read_entries zero read_key read_item bytes = ok (no_entries, bytes)
read_entries (suc n) read_key read_item bytes = do
  (k, bytes₁) ← read_key bytes
  (v, bytes₂) ← read_item bytes₁
  guard_key k
  (es, bytes₃) ← read_entries n read_key read_item bytes₂
  ok (entry k v es, bytes₃)

-- A reader that ends on every input of at most `b` bytes, and leaves no more than it was given.
abbrev pub Ends : {A : Type 0} → ℕ → Reader A → Type 0
Ends b read = (bytes : List ℕ) → length bytes ≤ b → Takes 0 bytes (read bytes)

pub read_items-Ends : (n b : ℕ) (read : Reader Value) → Ends b read → Ends b (read_items n read)
unfolding read_items
read_items-Ends zero b read ends bytes h = holds (omega arith)
read_items-Ends (suc n) b read ends bytes h = Ensures-bind (ends bytes h) λ (v, bytes₁) h₁.
    Ensures-bind (read_items-Ends n b read ends bytes₁ (omega arith))
      λ (vs, bytes₂) h₂. holds (omega arith)

guard_key-Ensures : (k : Value) → Ensures (λ _. Unit {0}) (guard_key k)
unfolding guard_key
guard_key-Ensures k = Ensures-if (is_hashable k) (holds tt) panics

pub read_entries-Ends :
    (n b : ℕ) (read_key read_item : Reader Value)
    → Ends b read_key
    → Ends b read_item
    → Ends b (read_entries n read_key read_item)
unfolding read_entries
read_entries-Ends zero b read_key read_item ends_key ends_item bytes h = holds (omega arith)
read_entries-Ends (suc n) b read_key read_item ends_key ends_item bytes h =
    Ensures-bind (ends_key bytes h) λ (k, bytes₁) h₁.
      Ensures-bind (ends_item bytes₁ (omega arith)) λ (v, bytes₂) h₂.
        Ensures-bind (guard_key-Ensures k) λ _ _.
          Ensures-bind
            (read_entries-Ends n b read_key read_item ends_key ends_item bytes₂ (omega arith))
            λ (es, bytes₃) h₃. holds (omega arith)

-- The reader takes `written` off the front of any input, and gives `a`.
abbrev pub TakesOff : {A : Type 0} → Reader A → List ℕ → A → Type 0
TakesOff read written a = (rest : List ℕ) → read (written ++ rest) ≡ ok (a, rest)

read_items_step :
    (n : ℕ) (read : Reader Value) (v : Value) (vs : Items) (first others : List ℕ)
    → TakesOff read first v
    → TakesOff (read_items n read) others vs
    → TakesOff (read_items (suc n) read) (first ++ others) (item v vs)
unfolding read_items
read_items_step n read v vs first others reads₁ reads₂ rest =
    rw (append_assoc, reads₁ (others ++ rest)) (rw (reads₂ rest))

read_entries_step :
    (n : ℕ) (read_key read_item : Reader Value) (k v : Value) (es : Entries)
    (first second others : List ℕ)
    → is_hashable k ≡ true
    → TakesOff read_key first k
    → TakesOff read_item second v
    → TakesOff (read_entries n read_key read_item) others es
    → TakesOff
        (read_entries (suc n) read_key read_item)
        (first ++ (second ++ others))
        (entry k v es)
unfolding read_entries
read_entries_step n read_key read_item k v es first second others hash reads₁ reads₂ reads₃ rest =
    rw (append_assoc, reads₁ ((second ++ others) ++ rest))
      (rw (append_assoc, reads₂ (others ++ rest), hash) (rw (reads₃ rest)))

-- Fuel above any bound is a successor.
pub spend {ℓ} :
    {bound : ℕ} (P : ℕ → Type ℓ) (one_less : (fuel : ℕ) → bound < suc fuel → P (suc fuel))
    (fuel : ℕ)
    → bound < fuel
    → P fuel
spend P one_less (suc fuel) enough = one_less fuel enough
spend P one_less zero enough = absurd (omega arith)

-- With fuel above `bound` the reader takes `written` off the front of any input, and gives `a`.
abbrev pub Reads : {A : Type 0} → (ℕ → Reader A) → ℕ → List ℕ → A → Type 0
Reads read bound written a =
    (rest : List ℕ) (f : ℕ) → bound < f → read f (written ++ rest) ≡ ok (a, rest)

pub read_items-Reads :
    (n : ℕ) (read : ℕ → Reader Value) (v : Value) (vs : Items) (first others : List ℕ)
    → Reads read (2 * length first + 1) first v
    → Reads (λ f. read_items n (read f)) (2 * length others + 1) others vs
    → Reads
        (λ f. read_items (suc n) (read f))
        (2 * length (first ++ others) + 1)
        (first ++ others)
        (item v vs)
read_items-Reads n read v vs first others reads₁ reads₂ rest f h =
    let len = length-append first others in
    read_items_step n (read f) v vs first others (λ rest'. reads₁ rest' f (omega (arith, len)))
      (λ rest'. reads₂ rest' f (omega (arith, len))) rest

pub read_entries-Reads :
    (n : ℕ) (read_key read_item : ℕ → Reader Value) (k v : Value) (es : Entries)
    (first second others : List ℕ)
    → is_hashable k ≡ true
    → Reads read_key (2 * length first + 1) first k
    → Reads read_item (2 * length second + 1) second v
    → Reads (λ f. read_entries n (read_key f) (read_item f)) (2 * length others + 1) others es
    → Reads
        (λ f. read_entries (suc n) (read_key f) (read_item f))
        (2 * length (first ++ (second ++ others)) + 1)
        (first ++ (second ++ others))
        (entry k v es)
read_entries-Reads n read_key read_item k v es first second others hash reads₁ reads₂ reads₃ rest f
      h =
    let len₁ = length-append first (second ++ others) in
    let len₂ = length-append second others in
    read_entries_step n (read_key f) (read_item f) k v es first second others hash
      (λ rest'. reads₁ rest' f (omega (arith, len₁)))
      (λ rest'. reads₂ rest' f (omega (arith, len₁, len₂)))
      (λ rest'. reads₃ rest' f (omega (arith, len₁, len₂))) rest
