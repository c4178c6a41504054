-- ===== src/AsTracker/Pairing.antt =====
-- proxy/as_tracker.cpp: pairs that `PairClasses` puts into one class reach the same records.
use dxr11_pascal.Base.{
  ℕ, zero, suc, ◌+◌, ◌-◌, ◌*◌, ◌%◌, ◌≤◌, ◌<◌, ◌≡◌, refl, sym, ap, ◌∙◌, ◌⊎◌, subst, inl, inr, Bool,
  true, ltb, ◌==◌, if◌then◌else◌, Listed, ◌||◌, List, [], ◌∷◌, ◌++◌, some, arith, length, get_elem?,
  Bool-cases, Option-cases,
}
use dxr11_pascal.AsTracker.{word, TlasInfo, State}
use dxr11_pascal.AsTracker.Queries.{any_read}
use dxr11_pascal.AsTracker.Classes.{
  traced, classes_of, signature, reaches, same_list, id_of, class_of, seen_after, pair_ids,
  pair_classes, is_traced, record_of, signature_class,
}
use dxr11_pascal.AsTracker.Labels.{Listed-classes_of, Listed-traced}

same_list-≡ : (xs ys : List ℕ) → same_list xs ys ≡ true → xs ≡ ys
unfolding same_list
same_list-≡ [] [] e = refl
same_list-≡ [] (y ∷ ys) e = absurd cc
same_list-≡ (x ∷ xs) [] e = absurd cc
same_list-≡ (x ∷ xs) (y ∷ ys) e =
    let head : x ≡ y = ground arith in let rest : xs ≡ ys = same_list-≡ xs ys (ground arith) in cc

-- The number that a signature was given is its place.
id_of-place :
    (i : ℕ) (sig : List ℕ) (ids : List (List ℕ)) (a : ℕ)
    → id_of i sig ids ≡ some a
    → (j : ℕ) × (a ≡ i + j) × (get_elem? ids j ≡ some sig)
unfolding id_of
id_of-place i sig [] a = λ e. absurd cc
id_of-place i sig (x ∷ ids) a = elim (Bool-cases (same_list x sig)) [
  | inl u ↦
      rw (u, id_of)
        (λ q. let here : i ≡ a = cc in (0, omega (arith, here), ap some (same_list-≡ x sig u)))
  | inr u ↦
      rw (u, id_of)
        (λ q. let (j, f, g) = id_of-place (i + 1) sig ids a q in (suc j, omega (arith, f), g))
]

get_elem?-append :
    {V : Type 0} (xs ys : List V) (k : ℕ) (v : V)
    → get_elem? xs k ≡ some v
    → get_elem? (xs ++ ys) k ≡ some v
get_elem?-append [] ys k v e = absurd cc
get_elem?-append (x ∷ xs) ys zero v e = e
get_elem?-append (x ∷ xs) ys (suc k) v e = get_elem?-append xs ys k v e

get_elem?-append_last :
    {V : Type 0} (xs : List V) (v : V) → get_elem? (xs ++ v ∷ []) (length xs) ≡ some v
get_elem?-append_last [] v = refl
get_elem?-append_last (x ∷ xs) v = get_elem?-append_last xs v

seen_after-stay :
    (records : ℕ) (cs : List (ℕ × ℕ)) (p : ℕ × ℕ) (ids : List (List ℕ)) (k : ℕ) (sig : List ℕ)
    → get_elem? ids k ≡ some sig
    → get_elem? (seen_after records cs p ids) k ≡ some sig
unfolding seen_after
seen_after-stay records cs p ids k sig e = elim (Bool-cases (reaches records p cs)) [
  | inr u ↦ rw (u, seen_after) e
  | inl u ↦ elim (Option-cases (id_of 0 (signature records p cs) ids)) [
    | inr (i, f) ↦ rw (u, f, seen_after) e
    | inl f ↦ rw (u, f, seen_after) (get_elem?-append ids _ k sig e)
  ]
]

-- A pair's class is the place of its signature among those seen.
class_of-place :
    (records : ℕ) (cs : List (ℕ × ℕ)) (p : ℕ × ℕ) (ids : List (List ℕ)) (a : ℕ)
    → class_of records cs p ids ≡ some a
    → get_elem? (seen_after records cs p ids) a ≡ some (signature records p cs)
unfolding class_of seen_after
class_of-place records cs p ids a = elim (Bool-cases (reaches records p cs)) [
  | inr u ↦ rw (u, class_of) (λ q. absurd cc)
  | inl u ↦ elim (Option-cases (id_of 0 (signature records p cs) ids)) [
    | inr (i, f) ↦
        rw (u, f, class_of, seen_after)
          (λ q.
            let (j, g, h) = id_of-place 0 (signature records p cs) ids i f in
            let first : i ≡ a = cc in
            let same : j ≡ a = omega (arith, g, first) in
            subst (λ k. get_elem? ids k ≡ some (signature records p cs)) same h)
    | inl f ↦
        rw (u, f, class_of, seen_after)
          (λ q.
            let same : length ids ≡ a = cc in
            subst
              (λ k.
                get_elem? (ids ++ signature records p cs ∷ []) k ≡ some (signature records p cs))
              same (get_elem?-append_last ids (signature records p cs)))
  ]
]

-- The signatures seen in the end.
abbrev all_seen : ℕ → List (ℕ × ℕ) → List (ℕ × ℕ) → List (List ℕ) → List (List ℕ)
all_seen records cs [] ids = ids
all_seen records cs (p ∷ ps) ids = all_seen records cs ps (seen_after records cs p ids)

all_seen-stay :
    (records : ℕ) (cs ps : List (ℕ × ℕ)) (ids : List (List ℕ)) (k : ℕ) (sig : List ℕ)
    → get_elem? ids k ≡ some sig
    → get_elem? (all_seen records cs ps ids) k ≡ some sig
all_seen-stay records cs [] ids k sig e = e
all_seen-stay records cs (p ∷ ps) ids k sig e =
    all_seen-stay records cs ps (seen_after records cs p ids) k sig
      (seen_after-stay records cs p ids k sig e)

pair_ids-place :
    (records : ℕ) (cs ps : List (ℕ × ℕ)) (ids : List (List ℕ)) (i a : ℕ) (p : ℕ × ℕ)
    → get_elem? ps i ≡ some p
    → get_elem? (pair_ids records cs ps ids) i ≡ some (some a)
    → get_elem? (all_seen records cs ps ids) a ≡ some (signature records p cs)
unfolding pair_ids
pair_ids-place records cs [] ids i a p e f = absurd cc
pair_ids-place records cs (x ∷ ps) ids zero a p e f =
    let same : x ≡ p = cc in
    let got : class_of records cs x ids ≡ some a = cc in
    subst
      (λ y.
        get_elem? (all_seen records cs ps (seen_after records cs x ids)) a
        ≡ some (signature records y cs))
      same
      (all_seen-stay records cs ps (seen_after records cs x ids) a (signature records x cs)
        (class_of-place records cs x ids a got))
pair_ids-place records cs (x ∷ ps) ids (suc i) a p e f =
    pair_ids-place records cs ps (seen_after records cs x ids) i a p e f

-- Two hits that reach one record, or both a record outside the table.
abbrev pub AgreeOn : ℕ → ℕ → ℕ → Type 0
AgreeOn records x y = (x ≡ y) ⊎ ((records ≤ x) × (records ≤ y))

-- A signature says which record of the table is reached.
agree_entry :
    (records x y : ℕ)
    → records < word
    → (if ltb x records then x else word - 1) ≡ (if ltb y records then y else word - 1)
    → AgreeOn records x y
agree_entry records x y small e = elim (Bool-cases (ltb x records)) [
  | inl u ↦ inl (ground (arith, u, e, small))
  | inr u ↦ inr (ground (arith, u, e, small))
]

signature_class-AgreeOn :
    (records : ℕ) (p q : ℕ × ℕ) (c gi left k : ℕ)
    → records < word
    → gi ≤ k
    → k < gi + left
    → signature_class records p c gi left ≡ signature_class records q c gi left
    → AgreeOn records (record_of p k c) (record_of q k c)
unfolding signature_class
signature_class-AgreeOn records p q c gi zero k small low high e = absurd (omega arith)
signature_class-AgreeOn records p q c gi (suc left) k small low high e =
    let (here, rest) = cons_inj e in
    elim (Bool-cases (gi == k)) [
      | inl u ↦
          let same : gi ≡ k = ground arith in
          subst (λ g. AgreeOn records (record_of p g c) (record_of q g c)) same
            (agree_entry records (record_of p gi c) (record_of q gi c) small here)
      | inr u ↦
          signature_class-AgreeOn records p q c (gi + 1) left k small (ground arith) (omega arith)
            rest
    ]
  where
    cons_inj : {x y : ℕ} {xs ys : List ℕ} → x ∷ xs ≡ y ∷ ys → (x ≡ y) × (xs ≡ ys)
    cons_inj e = (cc, cc)

length-signature_class :
    (records : ℕ) (p : ℕ × ℕ) (c gi left : ℕ) → length (signature_class records p c gi left) ≡ left
unfolding signature_class
length-signature_class records p c gi zero = refl
length-signature_class records p c gi (suc left) =
    ap suc (length-signature_class records p c (gi + 1) left)

append-inj :
    (xs ys us vs : List ℕ) → length xs ≡ length ys → xs ++ us ≡ ys ++ vs → (xs ≡ ys) × (us ≡ vs)
append-inj [] [] us vs n e = (refl, e)
append-inj [] (y ∷ ys) us vs n e = absurd (omega (arith, n))
append-inj (x ∷ xs) [] us vs n e = absurd (omega (arith, n))
append-inj (x ∷ xs) (y ∷ ys) us vs n e =
    let head : x ≡ y = cc in
    let later : xs ++ us ≡ ys ++ vs = cc in
    let (front, back) = append-inj xs ys us vs (omega (arith, n)) later in (cc, back)

signature-AgreeOn :
    (records : ℕ) (p q : ℕ × ℕ) (cs : List (ℕ × ℕ)) (c n k : ℕ)
    → records < word
    → Listed (c, n) cs
    → k < n
    → signature records p cs ≡ signature records q cs
    → AgreeOn records (record_of p k c) (record_of q k c)
unfolding signature
signature-AgreeOn records p q [] c n k small (i, e) low same = absurd cc
signature-AgreeOn records p q ((d, m) ∷ cs) c n k small there low same =
    let long : length (signature_class records p d 0 m) ≡ length (signature_class records q d 0 m) =
      length-signature_class records p d 0 m ∙ sym (length-signature_class records q d 0 m) in
    let (front, back) =
      append-inj _ _ (signature records p cs) (signature records q cs) long same in
    elim (Listed-cases (c, n) (d, m) cs there) [
      | inr later ↦ signature-AgreeOn records p q cs c n k small later low back
      | inl here ↦
          subst (λ x. k < x.1 → AgreeOn records (record_of p k x.0) (record_of q k x.0)) here
            (λ high.
              signature_class-AgreeOn records p q d 0 m k small (omega arith) (omega (arith, high))
                front)
            low
    ]
  where
    Listed-cases : (x y : ℕ × ℕ) (ys : List (ℕ × ℕ)) → Listed x (y ∷ ys) → (y ≡ x) ⊎ Listed x ys
    Listed-cases x y ys (zero, e) = inl cc
    Listed-cases x y ys (suc i, e) = inr (i, e)

-- Two pairs (offset, multiplier) with one class reach the same records: for each geometry `k` of each
-- class of a structure that the dispatch may trace, the record that DXR has a hit on it reach is the
-- same for both, or both are outside the table. The table has fewer than 2^32 records.
pub pair_classes-AgreeOn :
    (s : State) (pairs : List (ℕ × ℕ)) (records : ℕ) (bound : List ℕ) (exact : Bool) (i j a : ℕ)
    (offset multiplier offset' multiplier' at : ℕ) (t : TlasInfo) (c n k : ℕ)
    → records < word
    → get_elem? pairs i ≡ some (offset, multiplier)
    → get_elem? pairs j ≡ some (offset', multiplier')
    → get_elem? (pair_classes s pairs records bound exact) i ≡ some (some a)
    → get_elem? (pair_classes s pairs records bound exact) j ≡ some (some a)
    → Listed (at, t) s.tlas
    → is_traced s bound (exact || any_read s bound) (at, t) ≡ true
    → Listed (c, n) t.classes
    → k < n
    → AgreeOn records
        (offset % 16 + multiplier % 16 * k + c)
        (offset' % 16 + multiplier' % 16 * k + c)
unfolding pair_classes record_of
pair_classes-AgreeOn s pairs records bound exact i j a r m r' m' at t c n k small e f g h there on
      class low =
    let chosen = traced s bound (exact || any_read s bound) s.tlas in
    let cs = classes_of chosen in
    let one = pair_ids-place records cs pairs [] i a (r, m) e g in
    let two = pair_ids-place records cs pairs [] j a (r', m') f h in
    let same : signature records (r, m) cs ≡ signature records (r', m') cs = cc in
    signature-AgreeOn records (r, m) (r', m') cs c n k small
      (Listed-classes_of chosen at t (c, n) (Listed-traced s bound _ s.tlas (at, t) there on) class)
      low same
