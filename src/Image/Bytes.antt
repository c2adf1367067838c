-- ===== src/Image/Bytes.antt =====
-- Bytes in little-endian order: the loops of `read`, `write` and of the ELF fields.
use native.Mathlib.Nat.{pow-suc, mod-add-div, mod-lt, add-mul-mod_self_left, mod-eq_of_lt}
use qsbit_sim.Base.{
  length, get_or, set, length-set, get_or-set_self, get_or-set_ne, ℕ, zero, suc, ◌+◌, ◌*◌, ◌/◌, ◌%◌,
  ◌^◌, ◌≤◌, ◌<◌, ◌≡◌, refl, sym, ap, ◌∙◌, ◌⊎◌, List, [], ◌∷◌, arith,
}

-- The number in the `width` bytes from index `p` on; the source joins the bytes with `|`.
unfoldable pub little_endian : List ℕ → ℕ → ℕ → ℕ
little_endian bytes p zero = 0
little_endian bytes p (suc n) = get_or bytes p 0 + 256 * little_endian bytes (p + 1) n

-- The low `width` bytes of a value, written from index `p` on.
unfoldable pub put_bytes : List ℕ → ℕ → ℕ → ℕ → List ℕ
put_bytes bytes p zero value = bytes
put_bytes bytes p (suc n) value = put_bytes (set bytes p (value % 256)) (p + 1) n (value / 256)

-- `std::copy` into the bytes from index `p` on.
unfoldable pub copy_bytes : List ℕ → ℕ → List ℕ → List ℕ
copy_bytes [] p bytes = bytes
copy_bytes (b ∷ rest) p bytes = copy_bytes rest (p + 1) (set bytes p b)

pub length-put_bytes :
    (bytes : List ℕ) (p n value : ℕ) → length (put_bytes bytes p n value) ≡ length bytes
unfolding put_bytes
length-put_bytes bytes p zero value = refl
length-put_bytes bytes p (suc n) value =
    length-put_bytes (set bytes p (value % 256)) (p + 1) n (value / 256)
    ∙ length-set bytes p (value % 256)

-- Bytes outside the written range stay.
pub put_bytes_outside :
    (bytes : List ℕ) (p n value i : ℕ)
    → (i < p) ⊎ (p + n ≤ i)
    → get_or (put_bytes bytes p n value) i 0 ≡ get_or bytes i 0
unfolding put_bytes
put_bytes_outside bytes p zero value i h = refl
put_bytes_outside bytes p (suc n) value i h =
    put_bytes_outside (set bytes p (value % 256)) (p + 1) n (value / 256) i (omega arith)
    ∙ get_or-set_ne bytes p i (value % 256) 0 (omega arith)

pow-pos : (n : ℕ) → 0 < 256 ^ n
pow-pos zero = omega arith
pow-pos (suc n) = grind (arith, pow-pos n)

-- The low byte of a number and the digits above it, for a modulus that is a multiple of 256.
split_mod : (value m : ℕ) → 0 < m → value % 256 + 256 * (value / 256 % m) ≡ value % (m * 256)
split_mod value m h =
    let q = value / 256 in
    let byte : value % 256 < 256 = omega arith in
    let low = value % 256 + 256 * (q % m) in
    let above : value ≡ low + m * 256 * (q / m) =
      grind (arith, mod-add-div value 256, mod-add-div q m) in
    let small : low < m * 256 = grind (arith, mod-lt q h, byte) in
    sym (
      ap (λ v. v % (m * 256)) above
      ∙ (add-mul-mod_self_left low (m * 256) (q / m) ∙ mod-eq_of_lt small))

-- What was written in a range inside the bytes is read back, modulo the width of the access.
pub little_endian-put_bytes :
    (bytes : List ℕ) (p n value : ℕ)
    → p + n ≤ length bytes
    → little_endian (put_bytes bytes p n value) p n ≡ value % 256 ^ n
unfolding little_endian put_bytes
little_endian-put_bytes bytes p zero value h = omega arith
little_endian-put_bytes bytes p (suc n) value h =
    let b = set bytes p (value % 256) in
    let first : get_or (put_bytes b (p + 1) n (value / 256)) p 0 ≡ value % 256 =
      put_bytes_outside b (p + 1) n (value / 256) p (omega arith)
      ∙ get_or-set_self bytes p (value % 256) 0 (omega arith) in
    let size = length-set bytes p (value % 256) in
    let rest = little_endian-put_bytes b (p + 1) n (value / 256) (omega arith) in
    rw (first, rest)
      (split_mod value (256 ^ n) (pow-pos n) ∙ ap (λ m. value % m) (sym (pow-suc 256 n)))
