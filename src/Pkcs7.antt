-- ===== src/Pkcs7.antt =====
-- PKCS#7 padding to blocks of 16 bytes, as encryptCBC and decryptCBC of registration/legy.go and
-- aesCBCEncrypt and unpadPKCS7 of e2ee/manager.go write and check it.
mod Runs
use line_go.Common.{
  ℕ, zero, suc, ◌+◌, ◌-◌, ◌*◌, ◌%◌, ◌≤◌, ◌<◌, Bool, true, false, not, ◌&&◌, ◌||◌, Option, none,
  some, ◌≡◌, refl, ap, ◌∙◌, arith, List, [], ◌∷◌, ◌++◌, append_assoc, length, length-append, take,
  drop, take-length-append, drop-length-append, ltb, leb, ◌==◌, if◌then◌else◌,
}

unfoldable pub fill : ℕ → ℕ → List ℕ
fill zero value = []
fill (suc n) value = value ∷ fill n value

unfoldable pub padding_of : List ℕ → ℕ
padding_of plaintext = 16 - length plaintext % 16

unfoldable pub pad : List ℕ → List ℕ
unfolding fill padding_of
pad plaintext = plaintext ++ fill (padding_of plaintext) (padding_of plaintext)

unfoldable pub all_are : ℕ → List ℕ → Bool
all_are value [] = true
all_are value (x ∷ xs) = (x == value) && all_are value xs

-- The last byte; 0 where there is none.
unfoldable pub last_or_zero : List ℕ → ℕ
last_or_zero [] = 0
last_or_zero (x ∷ []) = x
last_or_zero (x ∷ y ∷ ys) = last_or_zero (y ∷ ys)

unfoldable pub unpad : List ℕ → Option (List ℕ)
unfolding all_are last_or_zero
unpad value =
    let padding = last_or_zero value in
    if padding == 0 || ltb 16 padding || ltb (length value) padding
    then none
    else if not (all_are padding (drop (length value - padding) value))
    then none
    else some (take (length value - padding) value)

length-fill : (n value : ℕ) → length (fill n value) ≡ n
unfolding fill
length-fill zero value = refl
length-fill (suc n) value = omega (arith, length-fill n value)

all_are-fill : (n value : ℕ) → all_are value (fill n value) ≡ true
unfolding all_are fill
all_are-fill zero value = refl
all_are-fill (suc n) value = ground (arith, all_are-fill n value)

last-fill : (n value : ℕ) → last_or_zero (fill (suc n) value) ≡ value
unfolding last_or_zero fill
last-fill zero value = refl
last-fill (suc n) value = last-fill n value

last-append :
    (xs : List ℕ) (y : ℕ) (ys : List ℕ) → last_or_zero (xs ++ y ∷ ys) ≡ last_or_zero (y ∷ ys)
unfolding last_or_zero
last-append [] y ys = refl
last-append (x ∷ []) y ys = refl
last-append (x ∷ x' ∷ xs) y ys = last-append (x' ∷ xs) y ys

last-append-fill : (xs : List ℕ) (n value : ℕ) → 0 < n → last_or_zero (xs ++ fill n value) ≡ value
last-append-fill xs zero value h = absurd (omega arith)
last-append-fill xs (suc n) value h =
    unfold fill in (last-append xs value (fill n value) ∙ last-fill n value)

-- A padded text has whole blocks, one at least.
pub length-pad : (xs : List ℕ) → (length (pad xs) % 16 ≡ 0) × (16 ≤ length (pad xs))
unfolding pad padding_of
length-pad xs = omega (
  arith,
  length-append xs (fill (padding_of xs) (padding_of xs)),
  length-fill (padding_of xs) (padding_of xs),
)

-- What was padded is found again.
pub unpad-pad : (xs : List ℕ) → unpad (pad xs) ≡ some xs
unfolding unpad pad
unpad-pad xs =
    let n = padding_of xs in
    let some_padding : (0 < n) × (n ≤ 16) = unfold padding_of in omega arith in
    let whole : length (xs ++ fill n n) - n ≡ length xs =
      omega (arith, length-append xs (fill n n), length-fill n n) in
    let test : ((n == 0) || ltb 16 n || ltb (length (xs ++ fill n n)) n) ≡ false =
      ground (arith, length-append xs (fill n n), length-fill n n, some_padding) in
    rw (last-append-fill xs n n some_padding.0) (
      rw (test, whole)
        (rw (drop-length-append xs (fill n n), all_are-fill n n)
          (rw (take-length-append xs (fill n n)))))
