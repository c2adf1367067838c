-- ===== src/Image/Access.antt =====
-- src/image.cpp: what `write` stores is what `read` returns, and accesses stay inside RAM.
use qsbit_sim.Image.{ProgramImage, offset, read, write}
use qsbit_sim.Image.Bytes.{
  little_endian, put_bytes, little_endian-put_bytes, put_bytes_outside, length-put_bytes,
}
use qsbit_sim.Base.{
  length, >>=-eq-ok, Result-cases, ok, ℕ, zero, suc, ◌+◌, ◌-◌, ◌%◌, ◌^◌, ◌≤◌, ◌≡◌, refl, ◌⊎◌, inl,
  inr, Bool, true, false, List, arith,
}

-- An access that the image accepts is aligned, and the bytes that it touches are inside RAM.
pub offset-InBounds :
    (image : ProgramImage) (address width p : ℕ) (store instruction : Bool)
    → offset image address width store instruction ≡ ok p
    → (image.base ≤ address)
      × (p ≡ address - image.base)
      × (p + width ≤ length image.bytes)
      × (address % width ≡ 0)
unfolding offset
offset-InBounds image address width p store instruction h = ground arith

-- The checks of an access see only the address, the size and the segments of an image.
offset-same :
    (image : ProgramImage) (bytes : List ℕ) (address width : ℕ) (store instruction : Bool)
    → length bytes ≡ length image.bytes
    → offset (record image { bytes = bytes }) address width store instruction
      ≡ offset image address width store instruction
unfolding offset
offset-same image bytes address width store instruction h = rw h refl

write-eq-ok :
    (image image' : ProgramImage) (address width value : ℕ)
    → write image address width value ≡ ok image'
    → (p : ℕ) × (offset image address width true false ≡ ok p)
      × (image' ≡ record image { bytes = put_bytes image.bytes p width value })
unfolding write
write-eq-ok image image' address width value h =
    let (p, e, h') = >>=-eq-ok (offset image address width true false) _ h in (p, e, ground arith)

-- Where an address can be read and written, `read` returns what `write` stored there, cut to the
-- width of the access.
pub read-write :
    (image image' : ProgramImage) (address width value old : ℕ)
    → read image address width false ≡ ok old
    → write image address width value ≡ ok image'
    → read image' address width false ≡ ok (value % 256 ^ width)
unfolding read
read-write image image' address width value old r w =
    let (p, e, changed) = write-eq-ok image image' address width value w in
    let (q, f, h) = >>=-eq-ok (offset image address width false false) _ r in
    let bounds = offset-InBounds image address width p true false e in
    let bounds' = offset-InBounds image address width q false false f in
    let bytes = put_bytes image.bytes p width value in
    let same =
      offset-same image bytes address width false false
        (length-put_bytes image.bytes p width value) in
    let place : q ≡ p = omega (arith, bounds.1, bounds'.1) in
    let stored = little_endian-put_bytes image.bytes p width value bounds.2 in
    rw (changed, same, f, place, stored) refl

outside :
    (bytes : List ℕ) (p width value q size : ℕ)
    → (q + size ≤ p) ⊎ (p + width ≤ q)
    → little_endian (put_bytes bytes p width value) q size ≡ little_endian bytes q size
unfolding little_endian
outside bytes p width value q zero h = refl
outside bytes p width value q (suc n) h =
    let first = put_bytes_outside bytes p width value q (omega arith) in
    rw (first, outside bytes p width value (q + 1) n (omega arith)) refl

-- A write changes no access outside the bytes that it writes: the same value is read, or the same
-- fault raised.
pub read-write_outside :
    (image image' : ProgramImage) (address width value other size : ℕ) (instruction : Bool)
    → write image address width value ≡ ok image'
    → (other + size ≤ address) ⊎ (address + width ≤ other)
    → read image' other size instruction ≡ read image other size instruction
unfolding read
read-write_outside image image' address width value other size instruction w apart =
    let (p, e, changed) = write-eq-ok image image' address width value w in
    let bounds = offset-InBounds image address width p true false e in
    let same =
      offset-same image (put_bytes image.bytes p width value) other size false instruction
        (length-put_bytes image.bytes p width value) in
    rw (changed, same)
      (elim (Result-cases (offset image other size false instruction)) [
        | inr (code, f) ↦ rw f refl
        | inl (q, f) ↦
            let bounds' = offset-InBounds image other size q false instruction f in
            rw
              (
                f,
                outside image.bytes p width value q size
                    (omega (arith, bounds.0, bounds.1, bounds'.0, bounds'.1)),
              )
              refl
      ])
