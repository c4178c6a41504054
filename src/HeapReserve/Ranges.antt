-- ===== src/HeapReserve/Ranges.antt =====
-- proxy/heap_reserve.cpp: what `Range` does in one reserve, on every branch.
use dxr11_pascal.Base.{
  ℕ, zero, suc, ◌+◌, ◌*◌, get_elem?, ◌≤◌, ◌<◌, ◌≡◌, refl, ap, ◌∙◌, subst, inl, inr, Bool, true,
  false, not, List, [], ◌∷◌, none, some, arith, ltb, ◌==◌, any, keep_if, length, Bool-cases,
  Option-cases,
}
use dxr11_pascal.HeapReserve.{
  View, Entry, Reserve, drop_idle, place, find_views, entry_at, first_fit, still_in_flight, fail,
  handle_of, add_range, range_in, write_views,
}
use dxr11_pascal.HeapReserve.Packing.{
  IsPacked, IsSmall, IsPacked-keep_if, HasNoGap, first_fit-HasNoGap, place-IsPacked,
}
use dxr11_pascal.HeapReserve.Linking.{entry_at-insert_entry, has_key, insert-IsLinked, entry_at-key}
use dxr11_pascal.HeapReserve.Sound.{
  IsSound, IsFresh, Serves, entry-inside, find_views-linked, place_shape, place-IsLinked,
  place-entries-IsPacked, place-kept,
}

get_elem?-write_views :
    (r : Reserve) (at : ℕ) (views : List View) (i : ℕ) (v : View)
    → get_elem? views i ≡ some v
    → get_elem? (write_views r at views) i ≡ some (r.cpu0 + (r.base + (at + i)) * r.inc, v)
unfolding write_views
get_elem?-write_views r at [] i v e = absurd cc
get_elem?-write_views r at (x ∷ xs) zero v e =
    let same : x ≡ v = cc in let here : at + 0 ≡ at = omega arith in rw (same, here) refl
get_elem?-write_views r at (x ∷ xs) (suc i) v e =
    let next : at + 1 + i ≡ at + suc i = omega arith in
    rw (← next) (get_elem?-write_views r (at + 1) xs i v e)

module _ (busy : ℕ → Bool) (fresh : ℕ) (r : Reserve) (views : List View) (s : IsSound r)
    (new : IsFresh fresh (place busy r (length views)).0.entries)
    (some_views : 0 < length views) where
  placed_entry : ℕ → Entry
  placed_entry at = record { key = fresh; at = at; n = length views; views = views }

  add_range_lem :
      let res = add_range busy fresh r views in IsSound res.0 × Serves r res.0 views res.1
  unfolding add_range placed_entry
  add_range_lem =
      let n = length views in
      let mid = (place busy r n).0 in
      let (size_eq, base_eq, cpu_eq, gpu_eq, inc_eq) = place_shape busy r n in
      let small : IsSmall mid.size = rw size_eq s.small in
      let linked = place-IsLinked busy r n s.linked in
      let fresh_mid = new in
      elim (Bool-cases (ltb r.size n)) [
        | inl big ↦ rw big (s, λ e. cc)
        | inr fits ↦ rw fits (elim (Option-cases (place busy r n).1) [
          | inl e ↦ rw e (
            record {
              small = small;
              packed = rw size_eq (place-entries-IsPacked busy r n s.packed);
              linked = linked;
            },
            λ e. cc,
          )
          | inr (at, e) ↦
              let (inside, packed) =
                place-IsPacked busy r n at (placed_entry at) s.small some_views (ground arith) refl
                  refl s.packed e in
              rw e (
                record {
                  small = small;
                  packed = rw size_eq packed;
                  linked =
                      insert-IsLinked (placed_entry at) mid.entries mid.by_views fresh_mid refl
                        linked;
                },
                record {
                  held =
                      rw (entry_at-insert_entry fresh (placed_entry at) mid.entries fresh_mid)
                        (ground arith);
                  holds_views = refl;
                  wide = refl;
                  inside = inside;
                  handle_of_entry = unfold handle_of in rw (gpu_eq, base_eq, inc_eq) refl;
                  written_or_there = inl (λ i v there.
                      get_elem?-write_views mid at views i v there
                      ∙ rw (cpu_eq, base_eq, inc_eq) refl);
                },
              )
        ])
      ]

  -- `Range` in one reserve keeps the reserve sound: its ranges lie inside it, do not overlap, and
  -- the map from views to ranges points only at ranges that are there. A success is a range of
  -- the reserve made for the views asked for, whole inside it, at the GPU handle of its place; and
  -- either each of the views is written to the descriptor of its own place in the range, or nothing
  -- is written and the range was in the reserve already. No failure is a dangling pointer.
  -- Conditions: a sound reserve, at least one view, and a new entry's address that no entry has which
  -- `Place` leaves.
  pub range_in-Serves :
      let res = range_in busy fresh r views in IsSound res.0 × Serves r res.0 views res.1
  unfolding range_in
  range_in-Serves = elim (Option-cases (find_views views r.by_views)) [
    | inl e ↦ rw (e, range_in) add_range_lem
    | inr (k, e) ↦
        let (x, found, same, wide) = find_views-linked r.entries views k r.by_views s.linked e in
        rw (e, range_in, found)
          (
            s,
            record {
              held = rw (entry_at-key k r.entries x found) found;
              holds_views = same;
              wide = wide ∙ ap length same;
              inside = entry-inside r.size 0 k r.entries x s.packed found;
              handle_of_entry = unfold handle_of in refl;
              written_or_there = inr (refl, rw (entry_at-key k r.entries x found) found);
            },
          )
  ]

add_range-kept :
    (busy : ℕ → Bool) (fresh : ℕ) (r : Reserve) (views : List View) (k : ℕ) (e : Entry)
    → IsFresh fresh (place busy r (length views)).0.entries
    → entry_at k r.entries ≡ some e
    → busy k ≡ true
    → entry_at k (add_range busy fresh r views).0.entries ≡ some e
unfolding add_range
add_range-kept busy fresh r views k x new h b =
    let n = length views in
    let kept = place-kept busy r n k x h b in
    elim (Bool-cases (ltb r.size n)) [
      | inl big ↦ rw big h
      | inr fits ↦ rw fits (elim (Option-cases (place busy r n).1) [
        | inl e ↦ rw e kept
        | inr (at, e) ↦
            let old = has_key k (place busy r n).0.entries x kept in
            rw e (
              rw
                (entry_at-insert_entry k (record { key = fresh; at = at; n = n; views = views })
                  (place busy r n).0.entries new)
                (elim (Bool-cases (fresh == k)) [
                  | inr other ↦ rw other kept
                  | inl same ↦
                      let eq : fresh ≡ k = ground arith in
                      let clash : any (λ e. e.key == k) (place busy r n).0.entries ≡ false =
                        subst (λ j. IsFresh j (place busy r n).0.entries) eq new in
                      absurd (cc)
                ]))
      ])
    ]

-- A range that work in flight may still read is never dropped or moved by `Range`, if the new
-- entry's address is none of those entries' that `Place` leaves.
pub range_in-kept :
    (busy : ℕ → Bool) (fresh : ℕ) (r : Reserve) (views : List View) (k : ℕ) (e : Entry)
    → IsFresh fresh (place busy r (length views)).0.entries
    → entry_at k r.entries ≡ some e
    → busy k ≡ true
    → entry_at k (range_in busy fresh r views).0.entries ≡ some e
unfolding range_in
range_in-kept busy fresh r views k x new h b = elim (Option-cases (find_views views r.by_views)) [
  | inl e ↦ rw (e, range_in) (add_range-kept busy fresh r views k x new h b)
  | inr (j, e) ↦ rw (e, range_in) h
]

keep_if-all :
    (busy : ℕ → Bool) (es : List Entry)
    → any (λ e. not (busy e.key)) es ≡ false
    → keep_if (λ e. busy e.key) es ≡ es
keep_if-all busy [] h = refl
keep_if-all busy (e ∷ es) h =
    let ih = keep_if-all busy es (ground arith) in
    let here : busy e.key ≡ true = ground arith in rw here (rw ih refl)

place-full :
    (busy : ℕ → Bool) (r : Reserve) (n : ℕ)
    → IsSmall r.size
    → 0 < n
    → n ≤ r.size
    → IsPacked r.size 0 r.entries
    → (place busy r n).1 ≡ none
    → HasNoGap r.size n 0 (keep_if (λ e. busy e.key) r.entries)
unfolding place drop_idle
place-full busy r n small pos fits p e = elim (Option-cases (first_fit r.size n 0 r.entries)) [
  | inr (at, f) ↦ absurd (ground arith)
  | inl f ↦ elim (Bool-cases (any (λ e. not (busy e.key)) r.entries)) [
    | inl idle ↦
        first_fit-HasNoGap r.size n 0 (keep_if (λ x. busy x.key) r.entries) small pos fits
          (IsPacked-keep_if r.size 0 (λ x. busy x.key) r.entries p) (ground arith)
    | inr full ↦
        rw (keep_if-all busy r.entries full)
          (first_fit-HasNoGap r.size n 0 r.entries small pos fits p f)
  ]
]

-- `Range` reports that the reserve is full of ranges in flight only when it is: every run of as
-- many descriptors as were asked for meets a range that work may still read. Conditions: a sound
-- reserve and at least one view.
pub range_in-full :
    (busy : ℕ → Bool) (fresh : ℕ) (r : Reserve) (views : List View)
    → IsSound r
    → 0 < length views
    → (range_in busy fresh r views).1 ≡ fail still_in_flight
    → HasNoGap r.size (length views) 0 (keep_if (λ e. busy e.key) r.entries)
unfolding range_in add_range
range_in-full busy fresh r views s pos e =
    let n = length views in
    elim (Option-cases (find_views views r.by_views)) [
      | inr (k, f) ↦ elim (Option-cases (entry_at k r.entries)) [
        | inl g ↦ absurd (ground arith)
        | inr (x, g) ↦ absurd (ground arith)
      ]
      | inl f ↦ elim (Bool-cases (ltb r.size n)) [
        | inl big ↦ absurd (ground arith)
        | inr fits ↦
            place-full busy r n s.small pos (ground arith) s.packed
              (elim (Option-cases (place busy r n).1) [
                | inl g ↦ g
                | inr (at, g) ↦ absurd (ground arith)
              ])
      ]
    ]
