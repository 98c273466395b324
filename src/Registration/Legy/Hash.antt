-- ===== src/Registration/Legy/Hash.antt =====
-- The checksum of registration/legy.go: `xxhash32` and `legyMAC`. A uint32 is a number below 2 ^ 32,
-- with the wrap-around of its operations written out.
use line_go.Common.{
  ℕ, zero, suc, ◌+◌, ◌-◌, ◌*◌, ◌/◌, ◌%◌, ◌^◌, ◌≡◌, refl, List, [], ◌∷◌, ◌++◌, length, take, drop,
  leb, if◌then◌else◌,
}
use line_go.Protocol.Binary.Types.{big_endian}
use line_go.Protocol.Compact.Types.{read_little_endian}
use Prim.Native.Nat.{bit_xor}

abbrev prime1 : ℕ
prime1 = 2_654_435_761

abbrev prime2 : ℕ
prime2 = 2_246_822_519

abbrev prime3 : ℕ
prime3 = 3_266_489_917

abbrev prime4 : ℕ
prime4 = 668_265_263

abbrev prime5 : ℕ
prime5 = 374_761_393

abbrev word32 : ℕ → ℕ
word32 n = n % 2 ^ 32

unfoldable pub rotate_left : ℕ → ℕ → ℕ
rotate_left value count = word32 (value * 2 ^ count) + value / 2 ^ (32 - count)

unfoldable pub xxround : ℕ → ℕ → ℕ
unfolding rotate_left
xxround accumulator input =
    word32 (rotate_left (word32 (accumulator + input * 2_246_822_519)) 13 * 2_654_435_761)

pub record Lanes : Type 0 where
  pub v1 : ℕ
  pub v2 : ℕ
  pub v3 : ℕ
  pub v4 : ℕ

-- `binary.LittleEndian.Uint32` at a place.
unfoldable pub word_at : ℕ → List ℕ → ℕ
word_at position bytes = read_little_endian (take 4 (drop position bytes))

-- The loop over stripes of 16 bytes, as often as they fit.
unfoldable pub stripes : ℕ → Lanes → List ℕ → Lanes
unfolding xxround word_at
stripes zero lanes bytes = lanes
stripes (suc n) lanes bytes =
    stripes n
      (record {
        v1 = xxround lanes.v1 (word_at 0 bytes);
        v2 = xxround lanes.v2 (word_at 4 bytes);
        v3 = xxround lanes.v3 (word_at 8 bytes);
        v4 = xxround lanes.v4 (word_at 12 bytes);
      })
      (drop 16 bytes)

unfoldable pub hash_words : ℕ → ℕ → List ℕ → ℕ
unfolding rotate_left word_at
hash_words zero hash bytes = hash
hash_words (suc n) hash bytes =
    hash_words n (word32 (rotate_left (word32 (hash + word_at 0 bytes * prime3)) 17 * prime4))
      (drop 4 bytes)

unfoldable pub hash_bytes : ℕ → List ℕ → ℕ
unfolding rotate_left
hash_bytes hash [] = hash
hash_bytes hash (b ∷ bytes) =
    hash_bytes (word32 (rotate_left (word32 (hash + b * prime5)) 11 * prime1)) bytes

unfoldable pub avalanche : ℕ → ℕ
avalanche hash =
    let a = word32 (bit_xor hash (hash / 2 ^ 15) * prime2) in
    let b = word32 (bit_xor a (a / 2 ^ 13) * prime3) in bit_xor b (b / 2 ^ 16)

-- The lanes after every stripe that fits.
unfoldable pub last_lanes : ℕ → List ℕ → Lanes
unfolding stripes
last_lanes seed bytes =
    stripes (length bytes / 16)
      (record {
        v1 = word32 (seed + prime1 + prime2);
        v2 = word32 (seed + prime2);
        v3 = seed;
        v4 = word32 (seed + 2 ^ 32 - prime1);
      })
      bytes

unfoldable pub first_hash : ℕ → List ℕ → ℕ
unfolding last_lanes rotate_left
first_hash seed bytes =
    let lanes = last_lanes seed bytes in
    if leb 16 (length bytes)
    then word32 (
        rotate_left lanes.v1 1
        + rotate_left lanes.v2 7
        + rotate_left lanes.v3 12
        + rotate_left lanes.v4 18)
    else word32 (seed + prime5)

unfoldable pub xxhash32 : List ℕ → ℕ → ℕ
unfolding first_hash hash_words hash_bytes avalanche
xxhash32 bytes seed =
    let start = word32 (first_hash seed bytes + word32 (length bytes)) in
    let after_stripes = drop (16 * (length bytes / 16)) bytes in
    let words = length after_stripes / 4 in
    avalanche (hash_bytes (hash_words words start after_stripes) (drop (4 * words) after_stripes))

unfoldable pub masked : ℕ → List ℕ → List ℕ
masked mask [] = []
masked mask (k ∷ ks) = bit_xor mask k ∷ masked mask ks

-- `legyMAC`; the key has 16 bytes at least.
unfoldable pub legy_mac : List ℕ → List ℕ → List ℕ
unfolding xxhash32 masked
legy_mac key bytes =
    let inner = xxhash32 (masked 0x36 (take 16 key) ++ bytes) 0 in
    big_endian 4 (xxhash32 (masked 0x5c (take 16 key) ++ big_endian 4 inner) 0)

-- The published values of the hash.
hash_empty : xxhash32 [] 0 ≡ 0x02cc5d05
unfolding xxhash32 read_little_endian
hash_empty = refl

hash_abc : xxhash32 (97 ∷ 98 ∷ 99 ∷ []) 0 ≡ 0x32d153ff
unfolding xxhash32 read_little_endian
hash_abc = refl
