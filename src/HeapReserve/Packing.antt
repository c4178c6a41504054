-- ===== src/HeapReserve/Packing.antt =====
-- proxy/heap_reserve.cpp: ranges lie in the reserve and do not overlap; ranges still in flight
-- stay where they are; `Place` gives up only when there is no gap.
use dxr11_pascal.Base.{
  ℕ, ◌+◌, ◌%◌, ◌≤◌, ◌<◌, ◌≡◌, refl, inl, inr, Bool, true, false, ◌&&◌, not, List, [], ◌∷◌, none,
  some, arith, ltb, leb, if◌then◌else◌, any, keep_if, Bool-cases, Option-cases, leb→le,
}
use native.Mathlib.Decide.{dec_lt}
use dxr11_pascal.HeapReserve.{word, Entry, Reserve, first_fit, drop_idle, place, insert_entry}

-- Entries of at least one descriptor, sorted and disjoint, between `lo` and `size`.
abbrev pub IsPacked : ℕ → ℕ → List Entry → Type 0
IsPacked size lo [] = lo ≤ size
IsPacked size lo (e ∷ es) = (lo ≤ e.at) × (0 < e.n) × IsPacked size (e.at + e.n) es

IsPacked-mono :
    (size lo lo' : ℕ) (es : List Entry) → lo' ≤ lo → IsPacked size lo es → IsPacked size lo' es
IsPacked-mono size lo lo' [] h p = omega arith
IsPacked-mono size lo lo' (e ∷ es) h p = (omega arith, p.1, p.2)

IsPacked-le : (size lo : ℕ) (es : List Entry) → IsPacked size lo es → lo ≤ size
IsPacked-le size lo [] p = p
IsPacked-le size lo (e ∷ es) p = omega (arith, IsPacked-le size (e.at + e.n) es p.2)

pub IsPacked-keep_if :
    (size lo : ℕ) (p : Entry → Bool) (es : List Entry)
    → IsPacked size lo es
    → IsPacked size lo (keep_if p es)
IsPacked-keep_if size lo p [] h = h
IsPacked-keep_if size lo p (e ∷ es) h = elim (Bool-cases (p e)) [
  | inl kept ↦ rw kept (h.0, h.1, IsPacked-keep_if size (e.at + e.n) p es h.2)
  | inr dropped ↦
      rw dropped
        (IsPacked-keep_if size lo p es (IsPacked-mono size (e.at + e.n) lo es (omega arith) h.2))
]

-- A size whose sums do not wrap: a reserve has at most 4096 descriptors.
abbrev pub IsSmall : ℕ → Type 0
IsSmall size = size + size < word

-- With no wrap, one step of the pass.
first_fit-step :
    (size n lo : ℕ) (y : Entry) (es : List Entry)
    → IsSmall size
    → n ≤ size
    → IsPacked size lo (y ∷ es)
    → first_fit size n lo (y ∷ es)
      ≡ (if leb (lo + n) y.at then some lo else first_fit size n (y.at + y.n) es)
unfolding first_fit
first_fit-step size n lo y es small fits p =
    let bound = IsPacked-le size (y.at + y.n) es p.2 in
    let wrap : (y.at + y.n) % word ≡ y.at + y.n = omega arith in
    let wrap_lo : (lo + n) % word ≡ lo + n = omega arith in rw (wrap, wrap_lo) refl

pub first_fit-IsPacked :
    (size n lo at : ℕ) (x : Entry) (es : List Entry)
    → IsSmall size
    → 0 < n
    → n ≤ size
    → x.n ≡ n
    → x.at ≡ at
    → IsPacked size lo es
    → first_fit size n lo es ≡ some at
    → (lo ≤ at) × (at + n ≤ size) × IsPacked size lo (insert_entry x es)
unfolding insert_entry
first_fit-IsPacked size n lo at x [] small pos fits en ea p e =
    let wrap_lo : (lo + n) % word ≡ lo + n = omega arith in unfold first_fit in ground arith
first_fit-IsPacked size n lo at x (y ∷ es) small pos fits en ea p e =
    let step = first_fit-step size n lo y es small fits p in
    let bound = IsPacked-le size (y.at + y.n) es p.2 in
    elim (Bool-cases (leb (lo + n) y.at)) [
      | inl gap ↦
          let here : lo ≡ at = ground arith in
          let before : ltb y.at x.at ≡ false = ground arith in
          rw before (
            omega (arith, leb→le (lo + n) y.at gap),
            ground arith,
            (
              omega (arith, leb→le (lo + n) y.at gap),
              omega arith,
              (omega (arith, leb→le (lo + n) y.at gap), p.1, p.2),
            ),
          )
      | inr next ↦
          let rest : first_fit size n (y.at + y.n) es ≡ some at = ground arith in
          let ih = first_fit-IsPacked size n (y.at + y.n) at x es small pos fits en ea p.2 rest in
          let behind : ltb y.at x.at ≡ true = ground arith in
          rw behind (omega arith, ih.1, (p.0, p.1, ih.2))
    ]

-- No run of `n` places between `lo` and the end is free of the entries.
abbrev pub HasNoGap : ℕ → ℕ → ℕ → List Entry → Type 0
HasNoGap size n lo es =
    (at : ℕ)
    → lo ≤ at
    → at + n ≤ size
    → any (λ e. ltb e.at (at + n) && ltb at (e.at + e.n)) es ≡ true

pub first_fit-HasNoGap :
    (size n lo : ℕ) (es : List Entry)
    → IsSmall size
    → 0 < n
    → n ≤ size
    → IsPacked size lo es
    → first_fit size n lo es ≡ none
    → HasNoGap size n lo es
first_fit-HasNoGap size n lo [] small pos fits p e at above inside =
    let wrap_lo : (lo + n) % word ≡ lo + n = omega arith in
    absurd (unfold first_fit in ground arith)
first_fit-HasNoGap size n lo (y ∷ es) small pos fits p e at above inside =
    let step = first_fit-step size n lo y es small fits p in
    let rest : first_fit size n (y.at + y.n) es ≡ none = ground arith in
    let far : leb (lo + n) y.at ≡ false = ground arith in
    elim (dec_lt at (y.at + y.n)) [
      | yes under ↦ ground arith
      | no over ↦ ground (
        arith,
        first_fit-HasNoGap size n (y.at + y.n) es small pos fits p.2 rest at (omega arith) inside,
      )
    ]

module _ (busy : ℕ → Bool) (r : Reserve) (n at : ℕ) (x : Entry) (small : IsSmall r.size)
    (pos : 0 < n) (fits : n ≤ r.size) (en : x.n ≡ n) (ea : x.at ≡ at)
    (p : IsPacked r.size 0 r.entries) where
  pub place-IsPacked :
      (place busy r n).1 ≡ some at
      → (at + n ≤ r.size) × IsPacked r.size 0 (insert_entry x (place busy r n).0.entries)
  unfolding place drop_idle
  place-IsPacked e = elim (Option-cases (first_fit r.size n 0 r.entries)) [
    | inr (first, f) ↦
        let (_, inside, packed) =
          first_fit-IsPacked r.size n 0 at x r.entries small pos fits en ea p (ground arith) in
        rw (f, place) (inside, packed)
    | inl f ↦ elim (Bool-cases (any (λ e. not (busy e.key)) r.entries)) [
      | inr full ↦ absurd (ground arith)
      | inl idle ↦
          let kept = IsPacked-keep_if r.size 0 (λ e. busy e.key) r.entries p in
          let (_, inside, packed) =
            first_fit-IsPacked r.size n 0 at x (keep_if (λ e. busy e.key) r.entries) small pos fits
              en ea kept (ground arith) in
          rw (f, place) (rw idle (inside, packed))
    ]
  ]
