-- ===== src/AsTracker/Remember.antt =====
-- proxy/as_tracker.cpp: the builds kept of one structure, `RememberLocked`: in order, one entry each,
-- at most eight, the newest ones.
use dxr11_pascal.Base.{
  ℕ, zero, suc, ◌-◌, ◌≤◌, ◌<◌, ◌≡◌, ◌≢◌, refl, inl, inr, Bool, true, false, ◌||◌, List, [], ◌∷◌,
  some, arith, ltb, length, length-drop, drop, Bool-cases,
}
use dxr11_pascal.AsTracker.{BuildInstances}
use dxr11_pascal.AsTracker.Reads.{
  hist_size, insert_build, newest, has_build, remember_in, find_build,
}

-- Builds in increasing order, all above `n`.
abbrev pub Above : ℕ → List BuildInstances → Type 0
Above n [] = n ≡ n
Above n (e ∷ h) = (n < e.build) × Above e.build h

pub Above-weaken : (k n : ℕ) (h : List BuildInstances) → k ≤ n → Above n h → Above k h
Above-weaken k n [] le a = refl
Above-weaken k n (e ∷ h) le (lt, a) = (omega (arith, le, lt), a)

insert_build-Above :
    (n : ℕ) (e : BuildInstances) (h : List BuildInstances)
    → n < e.build
    → has_build e.build h ≡ false
    → Above n h
    → Above n (insert_build e h)
unfolding insert_build has_build
insert_build-Above n e [] lt new a = (lt, refl)
insert_build-Above n e (f ∷ h) lt new (low, a) = elim (Bool-cases (ltb e.build f.build)) [
  | inl u ↦ rw (u, insert_build) (lt, (ground arith, a))
  | inr u ↦
      rw (u, insert_build)
        (low, insert_build-Above f.build e h (ground (arith, new)) (ground (arith, new)) a)
]

length-insert_build :
    (e : BuildInstances) (h : List BuildInstances) → length (insert_build e h) ≡ suc (length h)
unfolding insert_build
length-insert_build e [] = refl
length-insert_build e (f ∷ h) = ground (arith, length-insert_build e h)

drop-Above : (n k : ℕ) (h : List BuildInstances) → Above n h → Above n (drop k h)
drop-Above n zero h a = a
drop-Above n (suc k) [] a = a
drop-Above n (suc k) (e ∷ h) (lt, a) =
    Above-weaken n e.build (drop k h) (omega (arith, lt)) (drop-Above e.build k h a)

-- At most eight builds, in increasing order, none of them 0.
pub record IsKept (h : List BuildInstances) : Type 0 where
  pub in_order : Above 0 h
  pub is_short : length h ≤ hist_size

newest-IsKept : (h : List BuildInstances) → Above 0 h → IsKept (newest h)
unfolding newest
newest-IsKept h a = elim (Bool-cases (ltb hist_size (length h))) [
  | inl u ↦
      rw (u, newest)
        (record {
          in_order = drop-Above 0 (length h - hist_size) h a;
          is_short = ground (arith, length-drop (length h - hist_size) h);
        })
  | inr u ↦ rw (u, newest) (record { in_order = a; is_short = ground arith })
]

pub remember_in-IsKept :
    (e : BuildInstances) (h : List BuildInstances)
    → e.build ≢ 0
    → IsKept h
    → IsKept (remember_in e h)
unfolding remember_in
remember_in-IsKept e h pos k = elim (Bool-cases (has_build e.build h)) [
  | inl u ↦ rw (u, remember_in) k
  | inr u ↦
      rw (u, remember_in)
        (newest-IsKept (insert_build e h)
          (insert_build-Above 0 e h (omega (arith, pos)) u k.in_order))
]

-- A build newer than all that are kept is found after it is remembered.
find_build-insert_build :
    (e : BuildInstances) (h : List BuildInstances)
    → has_build e.build h ≡ false
    → find_build e.build (insert_build e h) ≡ some e
unfolding insert_build has_build find_build
find_build-insert_build e [] new = ground arith
find_build-insert_build e (f ∷ h) new = ground (arith, find_build-insert_build e h, new)

-- Whether a build is newer than the oldest that is kept.
abbrev pub is_newer : BuildInstances → List BuildInstances → Bool
is_newer e [] = true
is_newer e (f ∷ h) = ltb f.build e.build

find_build-drop :
    (e f : BuildInstances) (h : List BuildInstances)
    → ltb f.build e.build ≡ true
    → has_build e.build (f ∷ h) ≡ false
    → find_build e.build (drop 1 (insert_build e (f ∷ h))) ≡ some e
unfolding insert_build has_build
find_build-drop e f h lt new =
    let behind : ltb e.build f.build ≡ false = ground arith in
    rw (behind, insert_build) (find_build-insert_build e h (ground (arith, new)))

find_build-drop_first :
    (e : BuildInstances) (h : List BuildInstances)
    → has_build e.build h ≡ false
    → (length h ≡ hist_size) × (is_newer e h ≡ true)
    → find_build e.build (drop 1 (insert_build e h)) ≡ some e
find_build-drop_first e [] new (eight, newer) = absurd (omega (arith, eight))
find_build-drop_first e (f ∷ h) new (eight, newer) = find_build-drop e f h newer new

find_build-newest :
    (e : BuildInstances) (h : List BuildInstances)
    → length h ≤ hist_size
    → has_build e.build h ≡ false
    → (ltb (length h) hist_size || is_newer e h) ≡ true
    → find_build e.build (newest (insert_build e h)) ≡ some e
unfolding newest
find_build-newest e h short new room =
    elim (Bool-cases (ltb hist_size (length (insert_build e h)))) [
      | inr u ↦ rw (u, newest) (find_build-insert_build e h new)
      | inl u ↦
          let count = length-insert_build e h in
          let full : length h ≡ hist_size = ground (arith, count, short, u) in
          let one : length (insert_build e h) - hist_size ≡ 1 = ground (arith, count, short) in
          rw (u, newest, one) (find_build-drop_first e h new (full, ground (arith, room, full)))
    ]

-- A build that is not kept yet is found after it is remembered, with its instances, if fewer than
-- eight are kept or it is newer than the oldest one.
remember_in-find :
    (e : BuildInstances) (h : List BuildInstances)
    → IsKept h
    → has_build e.build h ≡ false
    → (ltb (length h) hist_size || is_newer e h) ≡ true
    → find_build e.build (remember_in e h) ≡ some e
unfolding remember_in
remember_in-find e h k new room = rw (new, remember_in) (find_build-newest e h k.is_short new room)
