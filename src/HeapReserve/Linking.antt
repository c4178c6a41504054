-- ===== src/HeapReserve/Linking.antt =====
-- proxy/heap_reserve.cpp: the map from views to ranges points only at ranges that are there and
-- hold those views.
use dxr11_pascal.Base.{
  ℕ, ◌≡◌, refl, inl, inr, Bool, true, false, not, List, [], ◌∷◌, some, arith, ◌==◌, if◌then◌else◌,
  any, keep_if, length, Bool-cases, All, All-map, All-keep_if-true,
}
use dxr11_pascal.HeapReserve.{
  View, Entry, Reserve, drop_idle, insert_entry, view_eq, views_eq, erase_views, erase_all,
  entry_at,
}

view_eq_refl : (v : View) → view_eq v v ≡ true
unfolding view_eq
view_eq_refl v = ground arith

view_eq→eq : (v w : View) → view_eq v w ≡ true → v ≡ w
unfolding view_eq
view_eq→eq v w h = ground arith

views_eq_refl : (vs : List View) → views_eq vs vs ≡ true
unfolding views_eq
views_eq_refl [] = refl
views_eq_refl (v ∷ vs) = rw (view_eq_refl v) (views_eq_refl vs)

pub views_eq→eq : (vs ws : List View) → views_eq vs ws ≡ true → vs ≡ ws
unfolding views_eq
views_eq→eq [] [] h = refl
views_eq→eq [] (w ∷ ws) h = cc
views_eq→eq (v ∷ vs) [] h = cc
views_eq→eq (v ∷ vs) (w ∷ ws) h =
    cc (view_eq→eq v w (ground arith), views_eq→eq vs ws (ground arith))

-- The entry at address `k` of the reserve holds the views `vs`.
abbrev pub PointsAt : List Entry → List View × ℕ → Type 0
PointsAt es p = (e : Entry) × (entry_at p.1 es ≡ some e) × (e.views ≡ p.0) × (e.n ≡ length e.views)

abbrev pub IsLinked : Reserve → Type 0
IsLinked r = All (PointsAt r.entries) r.by_views

pub entry_at-key : (k : ℕ) (es : List Entry) (e : Entry) → entry_at k es ≡ some e → e.key ≡ k
unfolding entry_at
entry_at-key k [] e h = cc
entry_at-key k (x ∷ xs) e h = elim (Bool-cases (x.key == k)) [
  | inl hit ↦ ground arith
  | inr miss ↦ entry_at-key k xs e (ground arith)
]

pub entry_at-keep_if :
    (busy : ℕ → Bool) (k : ℕ) (es : List Entry) (e : Entry)
    → entry_at k es ≡ some e
    → busy k ≡ true
    → entry_at k (keep_if (λ x. busy x.key) es) ≡ some e
unfolding entry_at
entry_at-keep_if busy k [] e h b = cc
entry_at-keep_if busy k (x ∷ xs) e h b = elim (Bool-cases (x.key == k)) [
  | inl hit ↦
      let same : x.key ≡ k = ground arith in
      let kept : busy x.key ≡ true = rw same b in rw kept (ground arith)
  | inr miss ↦ let ih = entry_at-keep_if busy k xs e (ground arith) b in ground arith
]

idle_has :
    (busy : ℕ → Bool) (k : ℕ) (es : List Entry) (e : Entry)
    → entry_at k es ≡ some e
    → busy k ≡ false
    → any (λ x. views_eq e.views x.views) (keep_if (λ x. not (busy x.key)) es) ≡ true
unfolding entry_at
idle_has busy k [] e h b = cc
idle_has busy k (x ∷ xs) e h b = elim (Bool-cases (x.key == k)) [
  | inl hit ↦
      let same : x.key ≡ k = ground arith in
      let gone : busy x.key ≡ false = rw same b in
      let this : x ≡ e = ground arith in rw gone (rw this (ground (arith, views_eq_refl e.views)))
  | inr miss ↦ let ih = idle_has busy k xs e (ground arith) b in ground arith
]

-- What the erasing loop leaves was not the views of an erased entry.
erase_all-All :
    (P : List View × ℕ → Type 0) (idle : List Entry) (m : List (List View × ℕ))
    → All P m
    → All (λ p. P p × (any (λ x. views_eq p.0 x.views) idle ≡ false)) (erase_all idle m)
unfolding erase_all
erase_all-All P [] m h = All-map P _ (λ p k. (k, refl)) m h
erase_all-All P (e ∷ es) m h =
    All-map _ _ (λ p k. (k.0.0, rw k.0.1 k.1)) (erase_all es (erase_views e.views m))
      (erase_all-All (λ p. P p × (views_eq p.0 e.views ≡ false)) es (erase_views e.views m)
        (erased m h))
  where
    erased :
        (m : List (List View × ℕ))
        → All P m
        → All (λ p. P p × (views_eq p.0 e.views ≡ false)) (erase_views e.views m)
    erased m h = unfold erase_views in All-keep_if-true P _ _ (λ p t k. (k, ground (arith, t))) m h

pub drop_idle-IsLinked : (busy : ℕ → Bool) (r : Reserve) → IsLinked r → IsLinked (drop_idle busy r)
unfolding drop_idle
drop_idle-IsLinked busy r h =
    All-map _ _ survive _
      (erase_all-All (PointsAt r.entries) (keep_if (λ e. not (busy e.key)) r.entries) r.by_views h)
  where
    survive :
        (p : List View × ℕ)
        → PointsAt r.entries p
          × (any (λ x. views_eq p.0 x.views) (keep_if (λ e. not (busy e.key)) r.entries) ≡ false)
        → PointsAt (keep_if (λ e. busy e.key) r.entries) p
    survive (vs, k) ((e, found, same, wide), alive) = elim (Bool-cases (busy k)) [
      | inl b ↦ (e, entry_at-keep_if busy k r.entries e found b, same, wide)
      | inr b ↦
          let dead : any (λ x. views_eq e.views x.views) (keep_if (λ x. not (busy x.key)) r.entries)
              ≡ true =
            idle_has busy k r.entries e found b in
          let dead' : any (λ x. views_eq vs x.views) (keep_if (λ x. not (busy x.key)) r.entries)
              ≡ true =
            rw same at dead in
          absurd (cc)
    ]

pub entry_at-insert_entry :
    (k : ℕ) (x : Entry) (es : List Entry)
    → any (λ e. e.key == x.key) es ≡ false
    → entry_at k (insert_entry x es) ≡ (if x.key == k then some x else entry_at k es)
unfolding entry_at insert_entry
entry_at-insert_entry k x [] h = refl
entry_at-insert_entry k x (e ∷ es) h = ground (arith, entry_at-insert_entry k x es)

pub has_key :
    (k : ℕ) (es : List Entry) (e : Entry) → entry_at k es ≡ some e → any (λ x. x.key == k) es ≡ true
unfolding entry_at
has_key k [] e h = cc
has_key k (x ∷ xs) e h = ground (arith, has_key k xs e)

pub insert-IsLinked :
    (x : Entry) (es : List Entry) (m : List (List View × ℕ))
    → any (λ e. e.key == x.key) es ≡ false
    → x.n ≡ length x.views
    → All (PointsAt es) m
    → All (PointsAt (insert_entry x es)) ((x.views, x.key) ∷ m)
insert-IsLinked x es m fresh full h = (
  (x, rw (entry_at-insert_entry x.key x es fresh) (ground arith), refl, full),
  All-map _ _
      (λ p (e, found, same, wide).
        (e, rw (entry_at-insert_entry p.1 x es fresh) (keep p e found), same, wide))
      m h,
)
  where
    keep :
        (p : List View × ℕ) (e : Entry)
        → entry_at p.1 es ≡ some e
        → (if x.key == p.1 then some x else entry_at p.1 es) ≡ some e
    keep p e found = elim (Bool-cases (x.key == p.1)) [
      | inl hit ↦
          let same : x.key ≡ p.1 = ground arith in
          let there : any (λ y. y.key == x.key) es ≡ true = rw same (has_key p.1 es e found) in
          absurd (cc)
      | inr miss ↦ rw miss found
    ]
