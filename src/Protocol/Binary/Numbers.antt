-- ===== src/Protocol/Binary/Numbers.antt =====
-- The big-endian integers and the strings of protocol/binary.go, read back, and what their readers
-- take of any input.
use line_go.Common.{ℕ, zero, suc, ◌+◌, ◌*◌, ◌/◌, ◌%◌, ◌^◌, ◌≤◌, ◌<◌, ◌≡◌, refl, ◌∙◌, arith}
use line_go.Common.{true, not, ◌||◌, List, [], ◌∷◌, ◌++◌, append_assoc, subst}
use line_go.Common.{length, length-append, ltb, leb}
use line_go.Protocol.Outcome.{
  ok, holds, Ensures-bind, Ensures-guard, Ensures-weaken, invalid_length, invalid_size,
}
use line_go.Protocol.Varint.{read_take}
use line_go.Protocol.Varint.RoundTrip.{read_take-append}
use line_go.Protocol.Varint.Reads.{Takes, read_take-Takes}
use line_go.Protocol.Binary.Types.{big_endian, big_endian_from, read_big_endian, is_negative}
use line_go.Protocol.Binary.{
  i16, i32, i64, string, read_number, read_bytes, read_size, max_length, max_size,
}

pub length-big_endian : (k n : ℕ) → length (big_endian k n) ≡ k
unfolding big_endian
length-big_endian zero n = refl
length-big_endian (suc k) n =
    omega
      (arith, length-append (big_endian k (n / 256)) (n % 256 ∷ []), length-big_endian k (n / 256))

big_endian_from-append :
    (acc b : ℕ) (s : List ℕ) → big_endian_from acc (s ++ b ∷ []) ≡ big_endian_from acc s * 256 + b
unfolding big_endian_from
big_endian_from-append acc b [] = refl
big_endian_from-append acc b (c ∷ s) = big_endian_from-append (acc * 256 + c) b s

read_big_endian-big_endian : (k n : ℕ) → n < 256 ^ k → read_big_endian (big_endian k n) ≡ n
unfolding read_big_endian big_endian
read_big_endian-big_endian zero n h = omega arith
read_big_endian-big_endian (suc k) n h =
    big_endian_from-append 0 (n % 256) (big_endian k (n / 256))
    ∙ omega (arith, read_big_endian-big_endian k (n / 256) (omega arith))

-- A number that is too wide is truncated.
pub read_i16 : (n : ℕ) → read_big_endian (big_endian 2 n) ≡ n % 2 ^ 16
unfolding read_big_endian big_endian
read_i16 n = omega arith

read_i32 : (n : ℕ) → read_big_endian (big_endian 4 n) ≡ n % 2 ^ 32
unfolding read_big_endian big_endian
read_i32 n = omega arith

read_number_lem :
    (k n m : ℕ) (rest : List ℕ)
    → read_big_endian (big_endian k n) ≡ m
    → read_number k (big_endian k n ++ rest) ≡ ok (m, rest)
unfolding read_number
read_number_lem k n m rest e =
    rw
      (subst (λ j. read_take j (big_endian k n ++ rest) ≡ ok (big_endian k n, rest))
        (length-big_endian k n) (read_take-append (big_endian k n) rest))
      (rw e)

pub read_number-i16 :
    (n : ℕ) (rest : List ℕ) → read_number 2 (i16 n ++ rest) ≡ ok (n % 2 ^ 16, rest)
unfolding i16
read_number-i16 n rest = read_number_lem 2 n (n % 2 ^ 16) rest (read_i16 n)

pub read_number-i32 :
    (n : ℕ) (rest : List ℕ) → read_number 4 (i32 n ++ rest) ≡ ok (n % 2 ^ 32, rest)
unfolding i32
read_number-i32 n rest = read_number_lem 4 n (n % 2 ^ 32) rest (read_i32 n)

pub read_number-i64 :
    (n : ℕ) (rest : List ℕ) → n < 2 ^ 64 → read_number 8 (i64 n ++ rest) ≡ ok (n, rest)
unfolding i64
read_number-i64 n rest h = read_number_lem 8 n n rest (read_big_endian-big_endian 8 n (omega arith))

-- A string of at most 64 MiB is read back whole, whatever follows.
pub read_bytes-string :
    (s rest : List ℕ) → length s ≤ max_length → read_bytes (string s ++ rest) ≡ ok (s, rest)
unfolding read_bytes string max_length is_negative
read_bytes-string s rest h =
    let same : length s % 2 ^ 32 ≡ length s = omega arith in
    let fits : not (leb (2 ^ 32) (2 * length s) || ltb (64 * 1024 * 1024) (length s)) ≡ true =
      ground arith in
    rw (append_assoc, read_number-i32 (length s) (s ++ rest), same, fits) (read_take-append s rest)

pub read_size-i32 :
    (n : ℕ) (rest : List ℕ) → n ≤ max_size → read_size (i32 n ++ rest) ≡ ok (n, rest)
unfolding read_size max_size is_negative
read_size-i32 n rest h =
    let same : n % 2 ^ 32 ≡ n = omega arith in
    let fits : not (leb (2 ^ 32) (2 * n) || ltb 1_000_000 n) ≡ true = ground arith in
    rw (read_number-i32 n rest, same, fits)

pub read_number-Takes : (k : ℕ) (bytes : List ℕ) → Takes k bytes (read_number k bytes)
unfolding read_number
read_number-Takes k bytes = Ensures-bind (read_take-Takes k bytes) λ r h. holds h

pub read_bytes-Takes : (bytes : List ℕ) → Takes 0 bytes (read_bytes bytes)
unfolding read_bytes
read_bytes-Takes bytes = Ensures-bind (read_number-Takes 4 bytes) λ (size, rest) h.
    Ensures-guard (not (is_negative 32 size || ltb max_length size)) (invalid_length size)
      λ _. Ensures-weaken (λ r k. omega arith) (read_take-Takes size rest)

pub read_size-Takes : (bytes : List ℕ) → Takes 0 bytes (read_size bytes)
unfolding read_size
read_size-Takes bytes = Ensures-bind (read_number-Takes 4 bytes) λ (size, rest) h.
    Ensures-guard (not (is_negative 32 size || ltb max_size size)) (invalid_size size)
      λ _. holds (omega arith)
