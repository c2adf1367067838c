-- ===== src/Image.antt =====
-- include/qsbit/image.hpp and src/image.cpp: the RAM image that a raw file or an ELF32 executable is
-- loaded into, with the permissions of its segments, and the memory accesses of the CPU.
pub mod Bytes
pub mod Access
use qsbit_sim.Image.Bytes.{little_endian, put_bytes, copy_bytes}
use qsbit_sim.Base.{
  ltb, leb, ◌==◌, if◌then◌else◌, length, get_or, take, drop, replicate, all, any, count, null,
  ◌>>=◌, ◌>>◌, require, ErrorCode, Result, instruction_misaligned, instruction_access,
  load_misaligned, store_misaligned, load_access, store_access, invalid_image, ok, ℕ, zero, suc,
  ◌+◌, ◌-◌, ◌*◌, ◌/◌, ◌%◌, ◌^◌, bit_and, Bool, true, false, not, ◌&&◌, ◌||◌, List, [], ◌∷◌, ◌++◌,
}

pub record Segment : Type 0 where
  pub address : ℕ
  pub size : ℕ
  pub readable : Bool
  pub writable : Bool
  pub executable : Bool

-- The addresses of RAM are those from `base` on, a byte for each element of `bytes`.
pub record ProgramImage : Type 0 where
  pub base : ℕ
  pub entry : ℕ
  pub bytes : List ℕ
  pub segments : List Segment

unfoldable pub init : ℕ → ℕ → Result ProgramImage
init base size = do
  require (ltb 0 size && leb (base + size) (2 ^ 32)) invalid_image
  ok (record { base = base; entry = 0; bytes = replicate size 0; segments = [] })

unfoldable pub raw : List ℕ → ℕ → ℕ → ℕ → Result ProgramImage
unfolding init
raw file address base size = do
  require (not (null file) && (length file % 4 == 0 && address % 4 == 0)) invalid_image
  require (leb base address && leb (address - base + length file) size) invalid_image
  image ← init base size
  ok (record image {
    entry = address;
    bytes = copy_bytes file (address - base) image.bytes;
    segments =
        record {
          address = address;
          size = length file;
          readable = true;
          writable = true;
          executable = true;
        }
        ∷ [];
  })

-- The anonymous `field`: a little-endian number of the file.
unfoldable pub elf_field : List ℕ → ℕ → ℕ → Result ℕ
elf_field file p width = do
  require (leb p (length file) && leb width (length file - p)) invalid_image
  ok (little_endian file p width)

abbrev pub is_apart : ℕ → ℕ → Segment → Bool
is_apart address size other =
    leb (address + size) other.address || leb (other.address + other.size) address

-- One program header: segments other than `PT_LOAD` and empty ones are skipped.
unfoldable pub load_segment : List ℕ → ℕ → ℕ → ℕ → ProgramImage → Result ProgramImage
unfolding elf_field
load_segment file base size p image = do
  type ← elf_field file p 4
  if not (type == 1) then ok image else do
    off ← elf_field file (p + 4) 4
    addr ← elf_field file (p + 8) 4
    filesz ← elf_field file (p + 16) 4
    memsz ← elf_field file (p + 20) 4
    flags ← elf_field file (p + 24) 4
    align ← elf_field file (p + 28) 4
    require
        (leb filesz memsz
          && (leb (off + filesz) (length file)
              && (leb base addr && leb (addr - base + memsz) size)))
        invalid_image
    require (leb align 1 || (bit_and align (align - 1) == 0 && addr % align == off % align))
        invalid_image
    if memsz == 0 then ok image else do
      require (all (is_apart addr memsz) image.segments) invalid_image
      ok (record image {
        segments =
            image.segments
            ++ record {
              address = addr;
              size = memsz;
              readable = not (flags / 4 % 2 == 0);
              writable = not (flags / 2 % 2 == 0);
              executable = not (flags % 2 == 0);
            }
              ∷ [];
        bytes = copy_bytes (take filesz (drop off file)) (addr - base) image.bytes;
      })

-- The headers that are left, from the one at `p` on.
unfoldable pub load_segments : ℕ → List ℕ → ℕ → ℕ → ℕ → ProgramImage → Result ProgramImage
unfolding load_segment
load_segments zero file base size p image = ok image
load_segments (suc left) file base size p image = do
  image' ← load_segment file base size p image
  load_segments left file base size (p + 32) image'

abbrev pub holds_entry : ℕ → Segment → Bool
holds_entry entry s = s.executable && (leb s.address entry && leb (entry + 4) (s.address + s.size))

unfoldable pub elf : List ℕ → ℕ → ℕ → Result ProgramImage
unfolding load_segments init
elf file base size = do
  require (leb 52 (length file)) invalid_image
  magic ← elf_field file 0 4
  require
      (magic == 0x464c457f
        && (get_or file 4 0 == 1 && (get_or file 5 0 == 1 && get_or file 6 0 == 1)))
      invalid_image
  type ← elf_field file 16 2
  machine ← elf_field file 18 2
  version ← elf_field file 20 4
  ehsize ← elf_field file 40 2
  flags ← elf_field file 36 4
  require (type == 2 && (machine == 243 && (version == 1 && (ehsize == 52 && flags == 0))))
      invalid_image
  phoff ← elf_field file 28 4
  count ← elf_field file 44 2
  phentsize ← elf_field file 42 2
  require (phentsize == 32 && (ltb 0 count && leb (phoff + count * 32) (length file))) invalid_image
  image ← init base size
  entry ← elf_field file 24 4
  loaded ← load_segments count file base size phoff (record image { entry = entry })
  require (entry % 4 == 0 && any (holds_entry entry) loaded.segments) invalid_image
  ok loaded

-- The codes of a refused access, and of a misaligned one.
abbrev pub access_code : Bool → Bool → ErrorCode
access_code store instruction =
    if instruction then instruction_access else if store then store_access else load_access

abbrev pub aligned_code : Bool → Bool → ErrorCode
aligned_code store instruction =
    if instruction
    then instruction_misaligned
    else if store
    then store_misaligned
    else load_misaligned

abbrev pub permits : Bool → Bool → Segment → Bool
permits store instruction s =
    if instruction then s.executable else if store then s.writable else s.readable

abbrev pub overlaps : ℕ → ℕ → Segment → Bool
overlaps address width s = ltb address (s.address + s.size) && ltb s.address (address + width)

-- The loop over the segments; the flag says whether the last one that overlaps is executable.
unfoldable pub check_segments : ℕ → ℕ → Bool → Bool → List Segment → Bool → Result Bool
check_segments address width store instruction [] executable = ok executable
check_segments address width store instruction (s ∷ rest) executable =
    if overlaps address width s
    then (do
      require (leb s.address address && leb (address + width) (s.address + s.size))
          (access_code store instruction)
      require (permits store instruction s) (access_code store instruction)
      check_segments address width store instruction rest s.executable)
    else check_segments address width store instruction rest executable

unfoldable pub offset : ProgramImage → ℕ → ℕ → Bool → Bool → Result ℕ
unfolding check_segments
offset image address width store instruction = do
  require (width == 1 || (width == 2 || width == 4)) (access_code store instruction)
  require (address % width == 0) (aligned_code store instruction)
  require (leb image.base address && leb (address - image.base + width) (length image.bytes))
      (access_code store instruction)
  executable ← check_segments address width store instruction image.segments false
  require (not instruction || executable) (access_code store instruction)
  ok (address - image.base)

unfoldable pub read : ProgramImage → ℕ → ℕ → Bool → Result ℕ
unfolding offset
read image address width instruction = do
  p ← offset image address width false instruction
  ok (little_endian image.bytes p width)

unfoldable pub write : ProgramImage → ℕ → ℕ → ℕ → Result ProgramImage
unfolding offset
write image address width value = do
  p ← offset image address width true false
  ok (record image { bytes = put_bytes image.bytes p width value })
