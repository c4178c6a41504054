-- ===== src/HeapReserve/Sound.antt =====
-- proxy/heap_reserve.cpp: what a sound reserve is, and what `Place` keeps of one.
use dxr11_pascal.Base.{
  ℕ, ◌+◌, ◌*◌, ◌≤◌, ◌≡◌, ◌≢◌, ◌⊎◌, get_elem?, inl, inr, Bool, true, false, not, List, [], ◌∷◌, some,
  arith, ◌==◌, any, length, Bool-cases, Option-cases, All,
}
use dxr11_pascal.HeapReserve.{
  View, Entry, Reserve, drop_idle, place, views_eq, find_views, entry_at, first_fit, dangling,
  Placed, Outcome, ok, fail,
}
use dxr11_pascal.HeapReserve.Packing.{IsPacked, IsSmall, IsPacked-keep_if}
use dxr11_pascal.HeapReserve.Linking.{
  views_eq→eq, PointsAt, IsLinked, entry_at-keep_if, drop_idle-IsLinked,
}

pub record IsSound (r : Reserve) : Type 0 where
  pub small : IsSmall r.size
  pub packed : IsPacked r.size 0 r.entries
  pub linked : IsLinked r

-- The allocator's address for a new entry is not that of an entry in the list.
abbrev pub IsFresh : ℕ → List Entry → Type 0
IsFresh k es = any (λ e. e.key == k) es ≡ false

-- What a served range is: an entry of the reserve with the views asked for, inside it, its
-- descriptors written now, each at its own place, or a range that was there.
pub record IsServed (r r' : Reserve) (views : List View) (p : Placed) : Type 0 where
  pub held : entry_at p.entry.key r'.entries ≡ some p.entry
  pub holds_views : p.entry.views ≡ views
  pub wide : p.entry.n ≡ length views
  pub inside : p.entry.at + p.entry.n ≤ r.size
  pub handle_of_entry : p.handle ≡ r.gpu0 + (r.base + p.entry.at) * r.inc
  pub written_or_there :
      ((i : ℕ) (v : View)
        → get_elem? views i ≡ some v
        → get_elem? p.written i ≡ some (r.cpu0 + (r.base + (p.entry.at + i)) * r.inc, v))
      ⊎ ((p.written ≡ []) × (entry_at p.entry.key r.entries ≡ some p.entry))

abbrev pub Serves : Reserve → Reserve → List View → Outcome → Type 0
Serves r r' views (ok p) = IsServed r r' views p
Serves r r' views (fail f) = f ≢ dangling

pub entry-inside :
    (size lo k : ℕ) (es : List Entry) (e : Entry)
    → IsPacked size lo es
    → entry_at k es ≡ some e
    → e.at + e.n ≤ size
unfolding entry_at
entry-inside size lo k [] e p h = cc
entry-inside size lo k (x ∷ xs) e p h = elim (Bool-cases (x.key == k)) [
  | inl hit ↦ let this : x ≡ e = ground arith in rw (← this) (packed_end size (x.at + x.n) xs p.2)
  | inr miss ↦ entry-inside size (x.at + x.n) k xs e p.2 (ground arith)
]
  where
    packed_end : (size lo : ℕ) (es : List Entry) → IsPacked size lo es → lo ≤ size
    packed_end size lo [] p = p
    packed_end size lo (e ∷ es) p = omega (arith, packed_end size (e.at + e.n) es p.2)

pub find_views-linked :
    (es : List Entry) (vs : List View) (k : ℕ) (m : List (List View × ℕ))
    → All (PointsAt es) m
    → find_views vs m ≡ some k
    → PointsAt es (vs, k)
unfolding find_views
find_views-linked es vs k [] h e = cc
find_views-linked es vs k ((ws, j) ∷ m) h e = elim (Bool-cases (views_eq ws vs)) [
  | inl hit ↦
      let same : ws ≡ vs = views_eq→eq ws vs hit in
      let here : j ≡ k = ground arith in rw (← same, ← here) h.0
  | inr miss ↦ find_views-linked es vs k m h.1 (ground arith)
]

-- Dropping what is idle leaves the shape of the reserve.
pub place_shape :
    (busy : ℕ → Bool) (r : Reserve) (n : ℕ)
    → let r' = (place busy r n).0 in
      (r'.size ≡ r.size)
      × (r'.base ≡ r.base)
      × (r'.cpu0 ≡ r.cpu0)
      × (r'.gpu0 ≡ r.gpu0)
      × (r'.inc ≡ r.inc)
unfolding place drop_idle
place_shape busy r n = ground arith

pub place-IsLinked :
    (busy : ℕ → Bool) (r : Reserve) (n : ℕ) → IsLinked r → IsLinked (place busy r n).0
unfolding place
place-IsLinked busy r n h = elim (Option-cases (first_fit r.size n 0 r.entries)) [
  | inr (at, e) ↦ rw (e, place) h
  | inl e ↦ elim (Bool-cases (any (λ e. not (busy e.key)) r.entries)) [
    | inl idle ↦ rw (e, place) (rw idle (drop_idle-IsLinked busy r h))
    | inr full ↦ rw (e, place) (rw full h)
  ]
]

pub place-entries-IsPacked :
    (busy : ℕ → Bool) (r : Reserve) (n : ℕ)
    → IsPacked r.size 0 r.entries
    → IsPacked r.size 0 (place busy r n).0.entries
unfolding place drop_idle
place-entries-IsPacked busy r n h = elim (Option-cases (first_fit r.size n 0 r.entries)) [
  | inr (at, e) ↦ rw (e, place) h
  | inl e ↦ elim (Bool-cases (any (λ e. not (busy e.key)) r.entries)) [
    | inl idle ↦ rw (e, place) (rw idle (IsPacked-keep_if r.size 0 (λ x. busy x.key) r.entries h))
    | inr full ↦ rw (e, place) (rw full h)
  ]
]

-- `Place` keeps a range that is still in flight.
pub place-kept :
    (busy : ℕ → Bool) (r : Reserve) (n k : ℕ) (e : Entry)
    → entry_at k r.entries ≡ some e
    → busy k ≡ true
    → entry_at k (place busy r n).0.entries ≡ some e
unfolding place drop_idle
place-kept busy r n k x h b = elim (Option-cases (first_fit r.size n 0 r.entries)) [
  | inr (at, e) ↦ rw (e, place) h
  | inl e ↦ elim (Bool-cases (any (λ e. not (busy e.key)) r.entries)) [
    | inl idle ↦ rw (e, place) (rw idle (entry_at-keep_if busy k r.entries x h b))
    | inr full ↦ rw (e, place) (rw full h)
  ]
]
