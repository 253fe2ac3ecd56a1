-- ===== src/UserOps/Packing/Bytes.antt =====
-- Numbers as bytes, and pieces of byte strings.
use native.Mathlib.Nat.{div-lt_iff_lt-mul}
use transeptor_bundler.Prelude.{
  ℕ, zero, suc, ◌+◌, ◌*◌, ◌/◌, ◌%◌, ◌^◌, ◌<◌, ◌≡◌, refl, ap, ◌∙◌, true, [], ◌∷◌, ◌++◌, length, take,
  drop, ltb, arith,
}
use transeptor_bundler.Prelude.Words.{div-packed, mod-packed}
use transeptor_bundler.Outcome.{right}
use transeptor_bundler.UserOps.Packing.{ByteString, to_bytes, read_bytes, pack_uint, unpack_uint}

-- 256 ^ k
abbrev limit : ℕ → ℕ
limit zero = 1
limit (suc k) = limit k * 256

read_bytes-to_bytes :
    (k n : ℕ) (rest : ByteString)
    → n < limit k
    → read_bytes 0 (to_bytes k n rest) ≡ read_bytes n rest
unfolding to_bytes read_bytes
read_bytes-to_bytes zero n rest h = ap (λ m. read_bytes m rest) (omega arith)
read_bytes-to_bytes (suc k) n rest h =
    read_bytes-to_bytes k (n / 256) (n % 256 ∷ rest)
      ((div-lt_iff_lt-mul {k = 256} {x = n} {y = limit k} (omega arith)).1 h)
    ∙ ap (λ m. read_bytes m rest) (omega arith)

length-to_bytes : (k n : ℕ) (rest : ByteString) → length (to_bytes k n rest) ≡ k + length rest
unfolding to_bytes
length-to_bytes zero n rest = omega arith
length-to_bytes (suc k) n rest = omega (arith, length-to_bytes k (n / 256) (n % 256 ∷ rest))

-- Two numbers of 16 bytes each are packed into 32 bytes, and read back.
pub unpack_uint-pack_uint :
    (high low : ℕ)
    → high < 2 ^ 128
    → low < 2 ^ 128
    → (bytes : ByteString) × ((pack_uint high low ≡ right bytes)
        × (length bytes ≡ 32)
        × (unpack_uint bytes ≡ (high, low)))
unfolding pack_uint unpack_uint read_bytes
unpack_uint-pack_uint high low h l =
    let n : ℕ = high * 2 ^ 128 + low in
    let fits : n < 2 ^ 256 = omega arith in
    let below : ltb n (2 ^ 256) ≡ true = ground arith in
    let again : read_bytes 0 (to_bytes 32 n []) ≡ n = read_bytes-to_bytes 32 n [] fits in
    (
      to_bytes 32 n [],
      (
        rw below refl,
        length-to_bytes 32 n [],
        rw (again, div-packed high low (2 ^ 128) l, mod-packed high low (2 ^ 128) l) refl,
      ),
    )

pub take-append : (n : ℕ) (xs ys : ByteString) → length xs ≡ n → take n (xs ++ ys) ≡ xs
take-append zero [] ys h = refl
take-append zero (x ∷ xs) ys h = absurd (omega (arith, h))
take-append (suc n) [] ys h = absurd (omega (arith, h))
take-append (suc n) (x ∷ xs) ys h = ap (λ zs. x ∷ zs) (take-append n xs ys (omega (arith, h)))

pub drop-append : (n : ℕ) (xs ys : ByteString) → length xs ≡ n → drop n (xs ++ ys) ≡ ys
drop-append zero [] ys h = refl
drop-append zero (x ∷ xs) ys h = absurd (omega (arith, h))
drop-append (suc n) [] ys h = absurd (omega (arith, h))
drop-append (suc n) (x ∷ xs) ys h = drop-append n xs ys (omega (arith, h))
