-- ===== src/DxilScan.antt =====
-- proxy/dxil_scan.cpp: the feature flags of a DXIL container.
-- Memory is a function from offsets into the container to bytes, the caller's size a number. An
-- offset and a count of parts are 32 bits wide, so that nothing computed from them wraps in the
-- 64 bits of SIZE_T.
pub mod Bounds
mod Tests
use dxr11_pascal.Base.{
  ℕ, zero, suc, ◌+◌, ◌-◌, ◌*◌, ◌/◌, ◌^◌, bit_and, Bool, true, false, ◌&&◌, ◌||◌, not, Option, none,
  some, ltb, ◌==◌, if◌then◌else◌,
}

abbrev pub Memory : Type 0
Memory = ℕ → ℕ

-- `sizeof(ContainerHeader)`, packed, and the offsets of its fields.
abbrev pub header_size : ℕ
header_size = 32

abbrev pub size_field : ℕ
size_field = 24

abbrev pub count_field : ℕ
count_field = 28

abbrev pub dxbc_magic : ℕ
dxbc_magic = 0x43425844

-- The bytes of "SFI0" as a number.
abbrev pub feature_tag : ℕ
feature_tag = 0x30494653

-- `kDxilFeatureRaytracingTier11`
abbrev pub tier11_flag : ℕ
tier11_flag = 2 ^ 20

-- A copy of `n` bytes as a number, the lowest byte first.
unfoldable pub read : Memory → ℕ → ℕ → ℕ
read m zero at = 0
read m (suc n) at = m at + 256 * read m n (at + 1)

-- One part, at the offset that the table holds: `none` to go on, or what is returned.
unfoldable pub part_flags : Memory → ℕ → ℕ → Option ℕ
part_flags m size off =
    if ltb size off || ltb (size - off) 8
    then none
    else if not (read m 4 off == feature_tag)
    then none
    else if ltb (read m 4 (off + 4)) 8 || ltb (size - off - 8) 8
    then some 0
    else some (read m 8 (off + 8))

-- The loop over the table: `left` parts from the `i`-th on.
unfoldable pub scan_from : Memory → ℕ → ℕ → ℕ → ℕ
scan_from m size zero i = 0
scan_from m size (suc left) i =
    let rest = scan_from m size left (i + 1) in
    elim (part_flags m size (read m 4 (header_size + i * 4))) [ some flags ↦ flags | none ↦ rest ]

-- `Dxr11ContainerFeatureFlags`; `none` is a null pointer.
unfoldable pub feature_flags : Option Memory → ℕ → ℕ
feature_flags none size = 0
feature_flags (some m) size =
    if ltb size header_size
    then 0
    else if not (read m 4 0 == dxbc_magic)
    then 0
    else if ltb size (read m 4 size_field)
    then 0
    else if ltb ((size - header_size) / 4) (read m 4 count_field)
    then 0
    else scan_from m size (read m 4 count_field) 0

unfoldable pub uses_ray_query : Option Memory → ℕ → Bool
uses_ray_query m size = not (bit_and (feature_flags m size) tier11_flag == 0)
