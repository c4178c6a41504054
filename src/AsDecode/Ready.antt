-- ===== src/AsDecode/Ready.antt =====
-- proxy/as_decode.cpp: where the answers of the size queries lie.
use dxr11_pascal.Base.{
  ℕ, ◌+◌, ◌*◌, ◌≡◌, subst, inl, inr, true, false, not, ltb, ◌&&◌, ◌||◌, List, [], ◌∷◌, ◌++◌, Option,
  none, some, arith, ◌==◌, All, All-append, All-map, Bool-cases, Option-cases,
}
use dxr11_pascal.AsTracker.{Deserialized}
use dxr11_pascal.AsDecode.{Chunk, Query, State, needs_chunk, chunk_for, add_query, note}

-- A query's answer lies in the chunk's buffers, below what is used of the current chunk.
abbrev IsPlaced : Option Chunk → Query → Type 0
IsPlaced none q = q.offset ≡ q.offset
IsPlaced (some c) q = (not (q.chunk == c.buffers) || ltb q.offset (8 * c.used)) ≡ true

-- Queries whose answers lie apart.
abbrev pub AreApart : List Query → Type 0
AreApart [] = Unit
AreApart (q ∷ qs) = All (λ x. (x.chunk == q.chunk && x.offset == q.offset) ≡ false) qs × AreApart qs

AreApart-append :
    (qs : List Query) (q : Query)
    → AreApart qs
    → All (λ x. (q.chunk == x.chunk && q.offset == x.offset) ≡ false) qs
    → AreApart (qs ++ q ∷ [])
AreApart-append [] q a h = (tt, tt)
AreApart-append (x ∷ qs) q (o, a) (u, h) =
    (All-append _ qs (q ∷ []) o (u, tt), AreApart-append qs q a h)

-- Each query's answer lies in its own place, and those of the current chunk below what is used of it.
pub record IsSound (s : State) : Type 0 where
  pub placed : All (IsPlaced s.chunk) s.queries
  pub apart : AreApart s.queries

-- New buffers are no query's.
abbrev pub AreNew : Option ℕ → List Query → Type 0
AreNew none qs = Unit
AreNew (some b) qs = All (λ q. (q.chunk == b) ≡ false) qs

-- The place of a query in the chunk given, where those before it are placed.
IsPlaced-next :
    (c : Chunk) (q : Query)
    → IsPlaced (some c) q
    → IsPlaced (some (record c { used = c.used + 1 })) q
IsPlaced-next c q h = ground (arith, h)

IsPlaced-apart :
    (c : Chunk) (q : Query)
    → IsPlaced (some c) q
    → (c.buffers == q.chunk && 8 * c.used == q.offset) ≡ false
IsPlaced-apart c q h = ground (arith, h)

add_query-IsSound :
    (dst : ℕ) (at : Deserialized) (owner segment : ℕ) (c : Chunk) (s : State)
    → All (IsPlaced (some c)) s.queries
    → AreApart s.queries
    → IsSound (add_query dst at owner segment c s)
unfolding add_query
add_query-IsSound dst at owner segment c s placed apart = record {
  placed =
      All-append _ s.queries _ (All-map _ _ (IsPlaced-next c) s.queries placed) (ground arith, tt);
  apart = AreApart-append s.queries _ apart (All-map _ _ (IsPlaced-apart c) s.queries placed);
}

IsPlaced-new : (c : Chunk) (q : Query) → (q.chunk == c.buffers) ≡ false → IsPlaced (some c) q
IsPlaced-new c q h = ground (arith, h)

chunk_for-IsPlaced :
    (s : State) (dev : ℕ) (made : Option ℕ) (c : Chunk)
    → All (IsPlaced s.chunk) s.queries
    → AreNew made s.queries
    → chunk_for s.chunk dev made ≡ some c
    → All (IsPlaced (some c)) s.queries
unfolding chunk_for
chunk_for-IsPlaced s dev made c placed new = elim (Bool-cases (needs_chunk s.chunk dev)) [
  | inr u ↦ rw (u, chunk_for) (λ e. subst (λ o. All (IsPlaced o) s.queries) e placed)
  | inl u ↦ elim (Option-cases made) [
    | inl f ↦ rw (u, f, chunk_for) (λ e. absurd cc)
    | inr (b, f) ↦
        rw (u, f, chunk_for)
          (λ e.
            let start : Chunk = record { buffers = b; device = dev; used = 0 } in
            let same : start ≡ c = cc in
            let theirs = subst (λ o. AreNew o s.queries) f new in
            subst (λ x. All (IsPlaced (some x)) s.queries) same
              (All-map _ _ (IsPlaced-new start) s.queries theirs))
  ]
]

-- `Note` gives every query a place of its own: no two of the queries that wait have their answers in
-- one place, when new buffers are no waiting query's.
pub note-IsSound :
    (cl dev dst owner segment : ℕ) (found : Option Deserialized) (made : Option ℕ) (s : State)
    → AreNew made s.queries
    → IsSound s
    → IsSound (note cl dev dst owner segment found made s)
unfolding note
note-IsSound cl dev dst owner segment found made s new h =
    elim (Bool-cases (cl == 0 || (dev == 0 || dst == 0))) [
      | inl u ↦ rw (u, note) h
      | inr u ↦ elim (Option-cases found) [
        | inl e ↦ rw (u, e, note) h
        | inr (at, e) ↦ elim (Option-cases (chunk_for s.chunk dev made)) [
          | inl f ↦ rw (u, e, f, note) h
          | inr (c, f) ↦
              rw (u, e, f, note)
                (add_query-IsSound dst at owner segment c s
                  (chunk_for-IsPlaced s dev made c h.placed new f) h.apart)
        ]
      ]
    ]
