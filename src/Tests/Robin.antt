-- ===== src/Tests/Robin.antt =====
-- The theorem on the Robin encoding, applied to an image that reaches into the encoded window.
use kace.Prelude.{inl, ℕ, zero, suc, ◌<◌, [], ◌∷◌, length, get_elem?, All, Bytes, ◌≡◌, arith}
use kace.Robin.{encode, encode-encode, get_elem-encode}

-- `n` bytes of 255.
abbrev full : ℕ → Bytes
full zero = []
full (suc n) = 255 ∷ full n

full-All : (n : ℕ) → All (λ x. x < 256) (full n)
full-All zero = tt
full-All (suc n) = (omega arith, full-All n)

encode-encode_example :
    (encode (encode (full 330)) ≡ full 330) × (length (encode (full 330)) ≡ length (full 330))
encode-encode_example = encode-encode (full 330) (full-All 330)

get_elem-encode_example : get_elem? (encode (full 330)) 319 ≡ get_elem? (full 330) 319
get_elem-encode_example = get_elem-encode (full 330) 319 (inl (omega arith))
