-- ===== src/Registration/Legy/Headers.antt =====
-- The headers inside the envelope of registration/legy.go, written and read.
use line_go.Common.{
  ℕ, suc, ◌+◌, ◌-◌, ◌*◌, ◌≤◌, false, ◌≡◌, refl, sym, ◌∙◌, arith, List, [], ◌∷◌, ◌++◌, append_assoc,
  length, length-append, take, drop, take-length-append, drop-length-append, ltb,
}
use line_go.Protocol.Binary.Types.{big_endian, read_big_endian}
use line_go.Protocol.Binary.Numbers.{read_i16}
use line_go.Registration.Legy.{
  Result, ok, err, ◌>>=◌, Headers, two_bytes, header_entries, count_headers, encode_inner_headers,
  decode_entries, decode_inner_headers,
}

take-two_bytes : (n : ℕ) (rest : List ℕ) → take 2 (two_bytes n ++ rest) ≡ two_bytes n
unfolding two_bytes big_endian
take-two_bytes n rest = refl

drop-two_bytes : (n : ℕ) (rest : List ℕ) → drop 2 (two_bytes n ++ rest) ≡ rest
unfolding two_bytes big_endian
drop-two_bytes n rest = refl

length-two_bytes : (n : ℕ) (rest : List ℕ) → length (two_bytes n ++ rest) ≡ length rest + 2
unfolding two_bytes big_endian
length-two_bytes n rest = omega arith

read-two_bytes : (n : ℕ) → n ≤ 65_535 → read_big_endian (two_bytes n) ≡ n
unfolding two_bytes
read-two_bytes n h = omega (arith, read_i16 n)

fits : (n m : ℕ) → m ≤ n → ltb n m ≡ false
fits n m h = ground arith

-- One entry is read off the front.
decode_entry :
    (n : ℕ) (key value body : List ℕ)
    → length key ≤ 65_535
    → length value ≤ 65_535
    → decode_entries
        (suc n)
        (two_bytes (length key) ++ (key ++ (two_bytes (length value) ++ (value ++ body))))
      ≡ (decode_entries n body >>= λ rest. ok ((key, value) ∷ rest))
unfolding decode_entries
decode_entry n key value body hk hv =
    let tail₁ = value ++ body in
    let tail₂ = two_bytes (length value) ++ tail₁ in
    let tail₃ = key ++ tail₂ in
    let long₁ = fits (length tail₁) (length value) (omega (arith, length-append value body)) in
    let long₃ =
      fits (length tail₃) (length key + 2)
        (omega (arith, length-append key tail₂, length-two_bytes (length value) tail₁)) in
    let long =
      fits (length (two_bytes (length key) ++ tail₃)) 2
        (omega (arith, length-two_bytes (length key) tail₃)) in
    rw (long, take-two_bytes (length key) tail₃, drop-two_bytes (length key) tail₃)
      (rw (read-two_bytes (length key) hk) (
        rw (long₃, drop-length-append key tail₂, take-length-append key tail₂)
          (rw (take-two_bytes (length value) tail₁, drop-two_bytes (length value) tail₁)
            (rw (read-two_bytes (length value) hv)
              (rw (long₁, drop-length-append value body, take-length-append value body) refl)))))

pub >>=-eq-ok :
    {A B : Type 0} (r : Result A) (next : A → Result B) {last : B}
    → (r >>= next) ≡ ok last
    → (x : A) × (next x ≡ ok last) × (r ≡ ok x)
>>=-eq-ok (err why) next e = cc
>>=-eq-ok (ok x) next e = (x, e, refl)

abbrev entry_bytes : List ℕ → List ℕ → List ℕ → List ℕ
entry_bytes key value body =
    two_bytes (length key) ++ (key ++ (two_bytes (length value) ++ (value ++ body)))

short_entry :
    (key value : List ℕ) (rest : Headers) {bytes : List ℕ}
    → header_entries ((key, value) ∷ rest) ≡ ok bytes
    → (length key ≤ 65_535) × (length value ≤ 65_535)
unfolding header_entries
short_entry key value rest e = ground arith

header_entries-cons :
    (key value : List ℕ) (rest : Headers)
    → length key ≤ 65_535
    → length value ≤ 65_535
    → header_entries ((key, value) ∷ rest)
      ≡ (header_entries rest >>= λ body. ok (entry_bytes key value body))
unfolding header_entries
header_entries-cons key value rest hk hv =
    rw (fits 65_535 (length key) hk, fits 65_535 (length value) hv) refl

decode_entries-header_entries :
    (headers : Headers) {bytes : List ℕ}
    → header_entries headers ≡ ok bytes
    → decode_entries (count_headers headers) bytes ≡ ok headers
unfolding count_headers
decode_entries-header_entries [] e = unfold decode_entries in refl
decode_entries-header_entries ((key, value) ∷ rest) {bytes} e =
    let (hk, hv) = short_entry key value rest e in
    let (body, same, written) =
      >>=-eq-ok (header_entries rest) (λ body. ok (entry_bytes key value body))
        (sym (header_entries-cons key value rest hk hv) ∙ e) in
    let whole : entry_bytes key value body ≡ bytes = cc in
    rw (← whole) (
      decode_entry (count_headers rest) key value body hk hv
      ∙ rw (decode_entries-header_entries rest written) refl)

-- Each entry takes four bytes at least.
count_headers-le :
    (headers : Headers) {bytes : List ℕ}
    → header_entries headers ≡ ok bytes
    → 4 * count_headers headers ≤ length bytes
unfolding count_headers
count_headers-le [] e = omega arith
count_headers-le ((key, value) ∷ rest) {bytes} e =
    let (hk, hv) = short_entry key value rest e in
    let (body, same, written) =
      >>=-eq-ok (header_entries rest) (λ body. ok (entry_bytes key value body))
        (sym (header_entries-cons key value rest hk hv) ∙ e) in
    let whole : entry_bytes key value body ≡ bytes = cc in
    let tail₁ = value ++ body in
    let tail₂ = two_bytes (length value) ++ tail₁ in
    rw (← whole) (
      omega (
        arith,
        count_headers-le rest written,
        length-two_bytes (length key) (key ++ tail₂),
        length-append key tail₂,
        length-two_bytes (length value) tail₁,
        length-append value body,
      ))

drop-four :
    (a b : ℕ) (entries payload : List ℕ)
    → drop 4 (two_bytes a ++ (two_bytes b ++ (entries ++ payload))) ≡ entries ++ payload
unfolding two_bytes big_endian
drop-four a b entries payload = refl

drop-framed :
    (a b : ℕ) (entries payload : List ℕ)
    → drop (length entries + 2 + 2) (two_bytes a ++ (two_bytes b ++ (entries ++ payload))) ≡ payload
unfolding two_bytes big_endian
drop-framed a b entries payload =
    let size : length entries + 2 + 2 ≡ suc (suc (suc (suc (length entries)))) = omega arith in
    rw size (drop-length-append entries payload)

decode_framed :
    (count : ℕ) (entries payload : List ℕ) (headers : Headers)
    → length entries + 2 ≤ 65_535
    → count ≤ 65_535
    → decode_entries count entries ≡ ok headers
    → decode_inner_headers
        (two_bytes (length entries + 2) ++ (two_bytes count ++ (entries ++ payload)))
      ≡ ok (headers, payload)
unfolding decode_inner_headers
decode_framed count entries payload headers size few e =
    let tail = two_bytes count ++ (entries ++ payload) in
    let total : length (two_bytes (length entries + 2) ++ tail)
        ≡ length entries + length payload + 4 =
      omega (
        arith,
        length-two_bytes (length entries + 2) tail,
        length-two_bytes count (entries ++ payload),
        length-append entries payload,
      ) in
    let long = fits (length (two_bytes (length entries + 2) ++ tail)) 4 (omega (arith, total)) in
    let inside =
      fits (length (two_bytes (length entries + 2) ++ tail)) (length entries + 2 + 2)
        (omega (arith, total)) in
    let exact : length entries + 2 + 2 - 4 ≡ length entries = omega arith in
    rw (long, take-two_bytes (length entries + 2) tail)
      (rw (read-two_bytes (length entries + 2) size) (
        rw
          (
            inside,
            drop-two_bytes (length entries + 2) tail,
            take-two_bytes count (entries ++ payload),
          )
          (rw (read-two_bytes count few, exact)
            (rw
              (
                drop-four (length entries + 2) count entries payload,
                take-length-append entries payload,
              )
              (rw (e, drop-framed (length entries + 2) count entries payload) refl)))))

-- Headers that could be encoded are decoded again, and what follows them is handed on.
pub decode_inner_headers-encode_inner_headers :
    (headers : Headers) {bytes : List ℕ} (payload : List ℕ)
    → encode_inner_headers headers ≡ ok bytes
    → decode_inner_headers (bytes ++ payload) ≡ ok (headers, payload)
unfolding encode_inner_headers
decode_inner_headers-encode_inner_headers headers {bytes} payload e =
    let (entries, same, written) = >>=-eq-ok (header_entries headers) _ e in
    let size : length entries + 2 ≤ 65_535 = ground arith in
    let whole : (two_bytes (length entries + 2) ++ (two_bytes (count_headers headers) ++ entries))
        ≡ bytes =
      ground arith in
    let few : count_headers headers ≤ 65_535 = omega (arith, count_headers-le headers written) in
    let framed =
      decode_framed (count_headers headers) entries payload headers size few
        (decode_entries-header_entries headers written) in
    rw (← whole) (rw (append_assoc, append_assoc) framed)
