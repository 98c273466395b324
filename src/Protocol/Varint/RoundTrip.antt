-- ===== src/Protocol/Varint/RoundTrip.antt =====
-- What `varint`, `signed` and `binary` write is read back, and what follows is left alone.
use line_go.Common.{ℕ, zero, suc, ◌+◌, ◌*◌, ◌/◌, ◌%◌, ◌^◌, ◌≤◌, ◌<◌, ◌≡◌, ap, arith}
use line_go.Common.{
  Bool-cases, true, false, ◌∙◌, inl, inr, List, [], ◌∷◌, ◌++◌, append_assoc, leb, ◌==◌,
}
use line_go.Common.{length, length-append, take-length-append, drop-length-append}
use line_go.Protocol.Outcome.{ok}
use line_go.Protocol.Varint.{groups, varint, zigzag, signed, binary, read_take}
use line_go.Protocol.Varint.{varint_loop, read_varint, unzigzag, read_signed, read_binary}
use native.Mathlib.Nat.{div-add-mod}
use native.Mathlib.Numerals.{towards_suc}

pow_add_seven : (s : ℕ) → 2 ^ (s + 7) ≡ 128 * 2 ^ s
pow_add_seven s = simp towards_suc (omega arith)

-- A number shifted by `s`, as its lowest seven bits and the rest.
split_low : (n k : ℕ) → n * 2 ^ k ≡ n / 128 * 2 ^ (k + 7) + n % 128 * 2 ^ k
split_low n k =
    let seven = ap (λ (power : ℕ). n / 128 * power) (pow_add_seven k) in
    omega (arith, seven, ap (λ (whole : ℕ). whole * 2 ^ k) (div-add-mod n 128))

low_lt_pow : (w s : ℕ) → w * 2 ^ s < 2 ^ 64 → w % 128 * 2 ^ s < 2 ^ 64
low_lt_pow w s h = omega (arith, split_low w s)

one_group :
    (w value shift : ℕ) (rest : List ℕ)
    → w < 128
    → shift ≤ 63
    → w * 2 ^ shift < 2 ^ 64
    → varint_loop (w ∷ rest) value shift ≡ ok (value + w * 2 ^ shift, rest)
unfolding varint_loop
one_group w value shift rest hw hs fits =
    let low : w % 128 ≡ w = omega arith in ground (arith, low, ap (λ (t : ℕ). t * 2 ^ shift) low)

more_groups :
    (g value shift : ℕ) (rest : List ℕ)
    → g < 128
    → shift ≤ 63
    → g * 2 ^ shift < 2 ^ 64
    → varint_loop ((g + 128) ∷ rest) value shift
      ≡ varint_loop rest (value + g * 2 ^ shift) (shift + 7)
unfolding varint_loop
more_groups g value shift rest hg hs fits =
    let low : (g + 128) % 128 ≡ g = omega arith in
    ground (arith, low, ap (λ (t : ℕ). t * 2 ^ shift) low)

groups_step :
    (k w : ℕ) → (w / 128 == 0) ≡ false → groups (suc k) w ≡ (w % 128 + 128) ∷ groups k (w / 128)
unfolding groups
groups_step k w h = rw h

groups_stop : (k w : ℕ) → w < 128 → groups (suc k) w ≡ w ∷ []
unfolding groups
groups_stop k w h = ground arith

varint_loop-groups :
    (k w value shift : ℕ) (rest : List ℕ)
    → w < 128 ^ suc k
    → shift + 7 * k ≤ 63
    → w * 2 ^ shift < 2 ^ 64
    → varint_loop (groups (suc k) w ++ rest) value shift ≡ ok (value + w * 2 ^ shift, rest)
varint_loop-groups zero w value shift rest hw hs fits =
    rw (groups_stop 0 w (omega arith))
      (one_group w value shift rest (omega arith) (omega arith) fits)
varint_loop-groups (suc k) w value shift rest hw hs fits = elim (Bool-cases (w / 128 == 0)) [
  | inl last ↦
      rw (groups_stop (suc k) w (ground arith))
        (one_group w value shift rest (ground arith) (omega arith) fits)
  | inr more ↦ rw (groups_step (suc k) w more) (
      more_groups (w % 128) value shift (groups (suc k) (w / 128) ++ rest) (omega arith)
        (omega arith) (low_lt_pow w shift fits)
      ∙ varint_loop-groups k (w / 128) (value + w % 128 * 2 ^ shift) (shift + 7) rest (omega arith)
          (omega arith) (omega (arith, split_low w shift))
      ∙ ap (λ (t : ℕ). ok (t, rest)) (omega (arith, split_low w shift)))
]

-- The reader gives back the uint64 that `varint` wrote, and leaves whatever follows.
pub read_varint-varint :
    (v : ℕ) (rest : List ℕ) → v < 2 ^ 64 → read_varint (varint v ++ rest) ≡ ok (v, rest)
unfolding read_varint varint
read_varint-varint v rest h =
    varint_loop-groups 9 v 0 0 rest (omega arith) (omega arith) (omega arith)
    ∙ ap (λ (t : ℕ). ok (t, rest)) (omega arith)

unzigzag-zigzag : (v : ℕ) → v < 2 ^ 64 → unzigzag (zigzag v) ≡ v
unfolding zigzag unzigzag
unzigzag-zigzag v h = ground arith

zigzag_bound : (v : ℕ) → v < 2 ^ 64 → zigzag v < 2 ^ 64
unfolding zigzag
zigzag_bound v h = ground arith

-- The reader gives back the int64 that `signed` wrote, a negative one included, and leaves whatever
-- follows.
pub read_signed-signed :
    (v : ℕ) (rest : List ℕ) → v < 2 ^ 64 → read_signed (signed v ++ rest) ≡ ok (v, rest)
unfolding read_signed signed
read_signed-signed v rest h =
    rw (read_varint-varint (zigzag v) rest (zigzag_bound v h), unzigzag-zigzag v h)

pub read_take-append : (s rest : List ℕ) → read_take (length s) (s ++ rest) ≡ ok (s, rest)
unfolding read_take
read_take-append s rest =
    ground (arith, length-append s rest, take-length-append s rest, drop-length-append s rest)

-- A string shorter than 2 ^ 64 that `binary` wrote is read back whole, whatever follows.
pub read_binary-binary :
    (s rest : List ℕ) → length s < 2 ^ 64 → read_binary (binary s ++ rest) ≡ ok (s, rest)
unfolding read_binary binary
read_binary-binary s rest h =
    rw (append_assoc, read_varint-varint (length s) (s ++ rest) h)
      (rw (fits_lem (length (s ++ rest)) (length s) (omega (arith, length-append s rest)))
        (read_take-append s rest))
  where
    fits_lem : (n m : ℕ) → m ≤ n → leb m n ≡ true
    fits_lem n m h = ground arith
