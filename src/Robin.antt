-- ===== src/Robin.antt =====
-- firmware/robin.py: the encoding of a native image for a Robin bootloader. The file checks and
-- the publication of the image around it are disk access.
use kace.Prelude.{
  ◌⊎◌, inl, inr, ◌≤◌, ℕ, zero, suc, ◌+◌, ◌*◌, ◌/◌, ◌%◌, ◌<◌, Bool, true, false, ◌&&◌, ltb, leb,
  Option, none, some, [], ◌∷◌, length, get_elem?, All, if◌then◌else◌, ◌≡◌, refl, ap, ◌∙◌, arith,
  Bytes,
}

-- The bits of `a ^ b`, from the lowest; `n` of them.
unfoldable pub xor_bits : ℕ → ℕ → ℕ → ℕ
xor_bits zero a b = 0
xor_bits (suc n) a b = (a + b) % 2 + 2 * xor_bits n (a / 2) (b / 2)

abbrev pub pattern : Bytes
pattern =
    163 ∷ 189 ∷ 173 ∷ 13 ∷ 65 ∷ 17 ∷ 187 ∷ 141 ∷ 220 ∷ 128 ∷ 45 ∷ 208 ∷ 210 ∷ 196 ∷ 155 ∷ 30 ∷ 38
    ∷ 235 ∷ 227 ∷ 51 ∷ 74 ∷ 21 ∷ 228 ∷ 10 ∷ 179 ∷ 177 ∷ 60 ∷ 147 ∷ 187 ∷ 175 ∷ 247 ∷ 62 ∷ []

abbrev pub or_zero : Option ℕ → ℕ
or_zero none = 0
or_zero (some x) = x

-- `_PATTERN[pos & 31]`.
abbrev pub pattern_at : ℕ → ℕ
pattern_at pos = or_zero (get_elem? pattern (pos % 32))

-- `range(320, min(31040, len(result)))`, of a position in the image.
abbrev pub is_encoded : ℕ → Bool
is_encoded pos = leb 320 pos && ltb pos 31040

abbrev pub encode_byte : ℕ → ℕ → ℕ
encode_byte pos x = if is_encoded pos then xor_bits 8 x (pattern_at pos) else x

unfoldable pub encode_from : ℕ → Bytes → Bytes
encode_from pos [] = []
encode_from pos (x ∷ xs) = encode_byte pos x ∷ encode_from (pos + 1) xs

unfoldable pub encode : Bytes → Bytes
encode native = encode_from 0 native

abbrev power : ℕ → ℕ
power zero = 1
power (suc n) = 2 * power n

xor_bits-xor_bits : (n a b : ℕ) → a < power n → xor_bits n (xor_bits n a b) b ≡ a
unfolding xor_bits
xor_bits-xor_bits zero a b h = omega arith
xor_bits-xor_bits (suc n) a b h =
    let half : ((a + b) % 2 + 2 * xor_bits n (a / 2) (b / 2)) / 2 ≡ xor_bits n (a / 2) (b / 2) =
      omega arith in
    let ih : xor_bits n (xor_bits n (a / 2) (b / 2)) (b / 2) ≡ a / 2 =
      xor_bits-xor_bits n (a / 2) (b / 2) (omega arith) in
    rw half (rw ih (omega arith))

encode_byte-encode_byte : (pos x : ℕ) → x < 256 → encode_byte pos (encode_byte pos x) ≡ x
encode_byte-encode_byte pos x h = go (is_encoded pos)
  where
    go :
        (b : Bool)
        → (if b
            then xor_bits 8 (if b then xor_bits 8 x (pattern_at pos) else x) (pattern_at pos)
            else (if b then xor_bits 8 x (pattern_at pos) else x))
          ≡ x
    go true = xor_bits-xor_bits 8 x (pattern_at pos) h
    go false = refl

encode_from-encode_from :
    (pos : ℕ) (xs : Bytes) → All (λ x. x < 256) xs → encode_from pos (encode_from pos xs) ≡ xs
unfolding encode_from
encode_from-encode_from pos [] h = refl
encode_from-encode_from pos (x ∷ xs) h =
    cc (encode_byte-encode_byte pos x h.0, encode_from-encode_from (pos + 1) xs h.1)

get_elem-encode_from :
    (pos i : ℕ) (xs : Bytes)
    → is_encoded (pos + i) ≡ false
    → get_elem? (encode_from pos xs) i ≡ get_elem? xs i
unfolding encode_from
get_elem-encode_from pos i [] h = refl
get_elem-encode_from pos zero (x ∷ xs) h = ground (arith, h)
get_elem-encode_from pos (suc i) (x ∷ xs) h =
    get_elem-encode_from (pos + 1) i xs (ground (arith, h))

length-encode_from : (pos : ℕ) (xs : Bytes) → length (encode_from pos xs) ≡ length xs
unfolding encode_from
length-encode_from pos [] = refl
length-encode_from pos (x ∷ xs) = omega (arith, length-encode_from (pos + 1) xs)

zero_add : (i : ℕ) → 0 + i ≡ i
zero_add i = omega arith

-- Encoding an image of bytes twice gives it back, and one encoding keeps its length.
pub encode-encode :
    (native : Bytes)
    → All (λ x. x < 256) native
    → (encode (encode native) ≡ native) × (length (encode native) ≡ length native)
unfolding encode
encode-encode native h = (encode_from-encode_from 0 native h, length-encode_from 0 native)

-- The encoding leaves every byte before position 320 and from position 31040 on.
pub get_elem-encode :
    (native : Bytes) (i : ℕ)
    → (i < 320) ⊎ (31040 ≤ i)
    → get_elem? (encode native) i ≡ get_elem? native i
unfolding encode
get_elem-encode native i (inl before) =
    get_elem-encode_from 0 i native (ap is_encoded (zero_add i) ∙ ground (arith, before))
get_elem-encode native i (inr behind) =
    get_elem-encode_from 0 i native (ap is_encoded (zero_add i) ∙ ground (arith, behind))
