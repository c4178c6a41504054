-- ===== src/DxilScan/Bounds.antt =====
-- proxy/dxil_scan.cpp: the scan reads nothing outside the container.
use dxr11_pascal.Base.{
  ℕ, zero, suc, ◌+◌, ◌-◌, ◌*◌, ◌/◌, ◌≤◌, ◌<◌, ◌≡◌, refl, ap, ◌∙◌, inl, inr, ◌||◌, some, arith, ltb,
  ◌==◌, Bool-cases, Option-cases,
}
use dxr11_pascal.DxilScan.{
  Memory, header_size, size_field, count_field, feature_tag, read, part_flags, scan_from,
  feature_flags,
}

-- Two memories hold the same bytes below `size`.
abbrev pub Agree : ℕ → Memory → Memory → Type 0
Agree size m m' = (i : ℕ) → i < size → m i ≡ m' i

read-Agree :
    (m m' : Memory) (size n at : ℕ) → Agree size m m' → at + n ≤ size → read m n at ≡ read m' n at
unfolding read
read-Agree m m' size zero at same h = refl
read-Agree m m' size (suc n) at same h =
    omega (arith, same at (omega arith), read-Agree m m' size n (at + 1) same (omega arith))

part_flags-Agree :
    (m m' : Memory) (size off : ℕ)
    → Agree size m m'
    → part_flags m size off ≡ part_flags m' size off
unfolding part_flags
part_flags-Agree m m' size off same = elim (Bool-cases (ltb size off || ltb (size - off) 8)) [
  | inl u ↦ rw u refl
  | inr u ↦
      let tag = read-Agree m m' size 4 off same (ground arith) in
      let length = read-Agree m m' size 4 (off + 4) same (ground arith) in
      rw (u, tag, length)
        (elim (Bool-cases (ltb (size - off - 8) 8)) [
          | inl v ↦ rw v (ground arith)
          | inr v ↦ rw (read-Agree m m' size 8 (off + 8) same (ground arith)) refl
        ])
]

scan_from-Agree :
    (m m' : Memory) (size left i : ℕ)
    → Agree size m m'
    → header_size + (i + left) * 4 ≤ size
    → scan_from m size left i ≡ scan_from m' size left i
unfolding scan_from
scan_from-Agree m m' size zero i same h = refl
scan_from-Agree m m' size (suc left) i same h =
    let off = read-Agree m m' size 4 (header_size + i * 4) same (omega arith) in
    let part =
      ap (part_flags m size) off
      ∙ part_flags-Agree m m' size (read m' 4 (header_size + i * 4)) same in
    rw (part, scan_from)
      (elim (Option-cases (part_flags m' size (read m' 4 (header_size + i * 4)))) [
        | inl u ↦ rw (u, scan_from) (scan_from-Agree m m' size left (i + 1) same (omega arith))
        | inr (flags, u) ↦ rw (u, scan_from) refl
      ])

-- The flags that are found depend only on the bytes below the caller's size: memory that agrees
-- there gives the same flags, whatever the container's table and sizes say. So nothing that is
-- read past the end can change the answer.
pub feature_flags-Agree :
    (m m' : Memory) (size : ℕ)
    → Agree size m m'
    → feature_flags (some m) size ≡ feature_flags (some m') size
unfolding feature_flags
feature_flags-Agree m m' size same = elim (Bool-cases (ltb size header_size)) [
  | inl u ↦ rw u refl
  | inr u ↦
      let magic = read-Agree m m' size 4 0 same (ground arith) in
      let total = read-Agree m m' size 4 size_field same (ground arith) in
      let count = read-Agree m m' size 4 count_field same (ground arith) in
      rw (u, magic, total, count)
        (elim (Bool-cases (ltb ((size - header_size) / 4) (read m' 4 count_field))) [
          | inl v ↦ rw v (ground arith)
          | inr v ↦
              rw (scan_from-Agree m m' size (read m' 4 count_field) 0 same (ground arith)) refl
        ])
]

-- A part that holds flags: inside the container with its eight bytes, and tagged as such.
abbrev pub HasFlags : Memory → ℕ → ℕ → ℕ → Type 0
HasFlags m size off flags =
    (off + 16 ≤ size) × (read m 4 off ≡ feature_tag) × (read m 8 (off + 8) ≡ flags)

part_flags-HasFlags :
    (m : Memory) (size off flags : ℕ)
    → 0 < flags
    → part_flags m size off ≡ some flags
    → HasFlags m size off flags
unfolding part_flags
part_flags-HasFlags m size off flags pos h =
    elim (Bool-cases (ltb size off || ltb (size - off) 8)) [
      | inl u ↦ ground arith
      | inr u ↦ elim (Bool-cases (read m 4 off == feature_tag)) [
        | inl t ↦ elim (Bool-cases (ltb (read m 4 (off + 4)) 8 || ltb (size - off - 8) 8)) [
          | inl v ↦ ground arith
          | inr v ↦ (ground arith, ground arith, ground arith)
        ]
        | inr t ↦ ground arith
      ]
    ]

scan_from-HasFlags :
    (m : Memory) (size left i : ℕ)
    → 0 < scan_from m size left i
    → (k : ℕ) × (k < i + left)
      × HasFlags m size (read m 4 (header_size + k * 4)) (scan_from m size left i)
unfolding scan_from
scan_from-HasFlags m size zero i h = absurd (omega (arith, h))
scan_from-HasFlags m size (suc left) i h =
    elim (Option-cases (part_flags m size (read m 4 (header_size + i * 4)))) [
      | inl u ↦
          let (k, below, has) = scan_from-HasFlags m size left (i + 1) (ground arith) in
          (k, omega arith, rw (u, scan_from) has)
      | inr (flags, u) ↦ (
        i,
        omega arith,
        rw (u, scan_from)
            (part_flags-HasFlags m size (read m 4 (header_size + i * 4)) flags (ground arith) u),
      )
    ]

-- Flags that are reported and not zero are those of a part of the container: one of those that
-- its table counts, inside the container, and tagged as feature flags.
pub feature_flags-HasFlags :
    (m : Memory) (size : ℕ)
    → 0 < feature_flags (some m) size
    → (k : ℕ) × (k < read m 4 count_field)
      × HasFlags m size (read m 4 (header_size + k * 4)) (feature_flags (some m) size)
unfolding feature_flags
feature_flags-HasFlags m size h = ground (arith, scan_from-HasFlags m size (read m 4 count_field) 0)
