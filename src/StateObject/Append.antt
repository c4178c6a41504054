-- ===== src/StateObject/Append.antt =====
-- proxy/state_object_cache.cpp: what `Append` copies, and what `StripAdditionsFlag` leaves.
use mathlib.Core.List.{append-nil, append_assoc}
use dxr11_pascal.Base.{
  ℕ, zero, suc, ◌+◌, ◌≡◌, refl, sym, ap, subst, get_elem?, ◌∙◌, ◌⊎◌, inl, inr, Bool, true, false,
  ◌&&◌, List, [], ◌∷◌, ◌++◌, Option, none, some, arith, ltb, any, length, length-append, Bool-cases,
  Option-cases,
}
use dxr11_pascal.StateObject.{
  Kind, kind_code, kind_eq, state_object_config, global_root_signature, local_root_signature,
  node_mask, dxil_library, existing_collection, dxil_to_exports_association, shader_config,
  pipeline_config, pipeline_config1, hit_group, to_exports_association, is_singleton, Desc, config,
  association, opaque, Subobject, Store, has_kind, is_supported, fixup_of, other_type, append_one,
  append_from, append, has_flag, clear_flag, desc_flag, has_additions_flag, strip_desc, strip_all,
  strip_additions_flag,
}
use dxr11_pascal.StateObject.Shape.{kind_eq_lem}

-- A subobject of a type in a list.
abbrev pub HasOne : Kind → List Subobject → Type 0
HasOne k xs =
    (n : ℕ) × (z : Subobject) × (get_elem? xs n ≡ some z) × (kind_code z.kind ≡ kind_code k)

-- A copy of a caller's subobject after those of `before`: the same type, and the same description,
-- or a placeholder where singletons are dropped, it is one, and one of its type stands before.
abbrev pub IsCopy : Bool → List Subobject → Subobject → Subobject → Type 0
IsCopy drop before x y =
    (y.kind ≡ x.kind)
    × (((y.desc ≡ x.desc) × (((drop && is_singleton x.kind) ≡ false) ⊎ (¬ HasOne x.kind before)))
        ⊎ ((y.desc ≡ none) × (drop ≡ true) × (is_singleton x.kind ≡ true) × HasOne x.kind before))

abbrev pub AreCopies : Bool → List Subobject → List Subobject → List Subobject → Type 0
AreCopies drop before [] [] = Unit
AreCopies drop before (x ∷ xs) (y ∷ ys) =
    IsCopy drop before x y × AreCopies drop (before ++ y ∷ []) xs ys
AreCopies drop before _ _ = ⊥

has_kind-HasOne : (k : Kind) (xs : List Subobject) → has_kind k xs ≡ true → HasOne k xs
unfolding has_kind
has_kind-HasOne k [] e = absurd cc
has_kind-HasOne k (x ∷ xs) e = elim (Bool-cases (kind_eq x.kind k)) [
  | inl u ↦ (0, x, refl, kind_eq_lem x.kind k u)
  | inr u ↦
      let (n, z, at, same) = has_kind-HasOne k xs (ground (arith, u, e)) in (suc n, z, at, same)
]

HasOne-has_kind : (k : Kind) (xs : List Subobject) → has_kind k xs ≡ false → ¬ HasOne k xs
unfolding has_kind kind_eq
HasOne-has_kind k [] e (n, z, at, same) = absurd cc
HasOne-has_kind k (x ∷ xs) e (zero, z, at, same) =
    let here : x ≡ z = cc in
    let code : kind_code x.kind ≡ kind_code k = ap (λ w. kind_code w.kind) here ∙ same in
    absurd (ground (arith, code, e))
HasOne-has_kind k (x ∷ xs) e (suc n, z, at, same) =
    HasOne-has_kind k xs (ground (arith, e)) (n, z, at, same)

-- Why a round keeps the description.
not_repeated :
    (drop : Bool) (k : Kind) (xs : List Subobject)
    → (drop && (is_singleton k && has_kind k xs)) ≡ false
    → ((drop && is_singleton k) ≡ false) ⊎ (¬ HasOne k xs)
not_repeated drop k xs e = elim (Bool-cases (has_kind k xs)) [
  | inr u ↦ inr (HasOne-has_kind k xs u)
  | inl u ↦ inl (ground (arith, u, e))
]

-- The fixup that an association at index `here` asks for, the caller's array being at `base`.
unfoldable pub wanted : ℕ → ℕ → Kind → Option Desc → List (ℕ × ℕ)
wanted base here to_exports_association (some (association (some i) exports)) =
    (here, base + i) ∷ []
wanted base here k d = []

-- The fixups that the associations of a list ask for, its first being at index `here`.
unfoldable pub wanted_all : ℕ → ℕ → List Subobject → List (ℕ × ℕ)
wanted_all base here [] = []
wanted_all base here (x ∷ xs) = wanted base here x.kind x.desc ++ wanted_all base (suc here) xs

wanted-singleton :
    (base here : ℕ) (k : Kind) (d : Option Desc) → is_singleton k ≡ true → wanted base here k d ≡ []
unfolding wanted is_singleton
wanted-singleton base here state_object_config d e = refl
wanted-singleton base here global_root_signature d e = refl
wanted-singleton base here local_root_signature d e = refl
wanted-singleton base here node_mask d e = refl
wanted-singleton base here dxil_library d e = refl
wanted-singleton base here existing_collection d e = refl
wanted-singleton base here to_exports_association d e = grind arith
wanted-singleton base here dxil_to_exports_association d e = refl
wanted-singleton base here shader_config d e = refl
wanted-singleton base here pipeline_config d e = refl
wanted-singleton base here pipeline_config1 d e = refl
wanted-singleton base here hit_group d e = refl
wanted-singleton base here (other_type n) d e = refl

fixup_of_lem :
    (base count here : ℕ) (k : Kind) (d : Desc)
    → (fixup_of base count here k d ≡ none)
      ⊎ (fixup_of base count here k d ≡ some (wanted base here k (some d)))
unfolding wanted fixup_of
fixup_of_lem base count here state_object_config d = inr refl
fixup_of_lem base count here global_root_signature d = inr refl
fixup_of_lem base count here local_root_signature d = inr refl
fixup_of_lem base count here node_mask d = inr refl
fixup_of_lem base count here dxil_library d = inr refl
fixup_of_lem base count here existing_collection d = inr refl
fixup_of_lem base count here to_exports_association (config f) = inr refl
fixup_of_lem base count here to_exports_association (opaque f) = inr refl
fixup_of_lem base count here to_exports_association (association none x) = inr refl
fixup_of_lem base count here to_exports_association (association (some i) x) =
    elim (Bool-cases (ltb i count)) [ inl e ↦ inr (rw e refl) | inr e ↦ inl (rw e refl) ]
fixup_of_lem base count here dxil_to_exports_association d = inr refl
fixup_of_lem base count here shader_config d = inr refl
fixup_of_lem base count here pipeline_config d = inr refl
fixup_of_lem base count here pipeline_config1 d = inr refl
fixup_of_lem base count here hit_group d = inr refl
fixup_of_lem base count here (other_type n) d = inr refl

-- What one round leaves when it does not refuse.
and-true : (a b c : Bool) → (a && (b && c)) ≡ true → (a ≡ true) × (b ≡ true) × (c ≡ true)
and-true a b c e = ground arith

append_one_lem :
    (drop : Bool) (base count : ℕ) (s : Store) (k : Kind) (d : Desc)
    → (append_one drop base count s k d).1 ≡ none
    → (y : Subobject) × ((append_one drop base count s k d).0.subs ≡ s.subs ++ y ∷ [])
      × IsCopy drop s.subs (record { kind = k; desc = some d }) y
      × ((append_one drop base count s k d).0.fixups
          ≡ s.fixups ++ wanted base (length s.subs) k (some d))
unfolding append_one
append_one_lem drop base count s k d =
    elim (Bool-cases (drop && (is_singleton k && has_kind k s.subs))) [
      | inl t ↦
          let (on, single, seen) = and-true drop (is_singleton k) (has_kind k s.subs) t in
          rw t λ e. (
            record { kind = k; desc = none },
            refl,
            (refl, inr (refl, on, single, has_kind-HasOne k s.subs seen)),
            sym (append-nil s.fixups)
                ∙ sym (
                    ap (λ fs. s.fixups ++ fs)
                      (wanted-singleton base (length s.subs) k (some d) single)),
          )
      | inr t ↦ rw t (elim (Bool-cases (is_supported k)) [
        | inl u ↦ rw u (elim (fixup_of_lem base count (length s.subs) k d) [
          | inl v ↦ rw v λ e. ground arith
          | inr v ↦ rw v λ e. (
            record { kind = k; desc = some d },
            refl,
            (refl, inl (refl, not_repeated drop k s.subs t)),
            refl,
          )
        ])
        | inr u ↦ rw u λ e. ground arith
      ])
    ]

one_more : (n : ℕ) → n + 1 ≡ suc n
one_more n = omega arith

append_from_lem :
    (drop : Bool) (base count : ℕ) (s : Store) (xs : List Subobject)
    → (append_from drop base count s xs).1 ≡ none
    → (ys : List Subobject) × ((append_from drop base count s xs).0.subs ≡ s.subs ++ ys)
      × AreCopies drop s.subs xs ys
      × ((append_from drop base count s xs).0.fixups
          ≡ s.fixups ++ wanted_all base (length s.subs) xs)
unfolding append_from wanted_all
append_from_lem drop base count s [] =
    λ e. ([], sym (append-nil s.subs), tt, sym (append-nil s.fixups))
append_from_lem drop base count s (x ∷ xs) = elim (Option-cases x.desc) [
  | inl w ↦ rw w λ e. ground arith
  | inr (d, w) ↦ rw w (elim (Option-cases (append_one drop base count s x.kind d).1) [
    | inl u ↦
        rw (u, append_from)
          λ e.
            let (y, here, copy, fix) = append_one_lem drop base count s x.kind d u in
            let (ys, there, copies, fixes) =
              append_from_lem drop base count (append_one drop base count s x.kind d).0 xs e in
            let next = ap length here ∙ length-append s.subs (y ∷ []) ∙ one_more (length s.subs) in
            (
              y ∷ ys,
              there ∙ ap (λ l. l ++ ys) here ∙ append_assoc s.subs (y ∷ []) ys,
              (copy, subst (λ l. AreCopies drop l xs ys) here copies),
              fixes
                  ∙ ap
                      (λ n.
                        (append_one drop base count s x.kind d).0.fixups ++ wanted_all base n xs)
                      next
                  ∙ ap (λ l. l ++ wanted_all base (suc (length s.subs)) xs) fix
                  ∙ append_assoc s.fixups (wanted base (length s.subs) x.kind (some d))
                      (wanted_all base (suc (length s.subs)) xs),
            )
    | inr (why, u) ↦ rw (u, append_from) λ e. ground arith
  ])
]

-- When `Append` returns true, the working array is the old one followed by a copy of each of the
-- caller's subobjects, at the index it has for the caller (with the type kept, and the description
-- too, but for a singleton that has one of its type before it, which is a placeholder exactly when
-- those are dropped), so that each fixup added, one for
-- each association that points at something, names the copies of the association and of its
-- target.
pub append-AreCopies :
    (drop : Bool) (s : Store) (xs : List Subobject)
    → (append drop s xs).1 ≡ none
    → (ys : List Subobject) × ((append drop s xs).0.subs ≡ s.subs ++ ys)
      × AreCopies drop s.subs xs ys
      × ((append drop s xs).0.fixups ≡ s.fixups ++ wanted_all (length s.subs) (length s.subs) xs)
unfolding append
append-AreCopies drop s xs e = append_from_lem drop (length s.subs) (length xs) s xs e

-- clearing the flag of a config
clear_flag_lem : (f : ℕ) → has_flag (clear_flag f) ≡ false
unfolding clear_flag has_flag
clear_flag_lem f = ground arith

strip_desc_lem : (d : Option Desc) → desc_flag (strip_desc d) ≡ false
unfolding strip_desc desc_flag
strip_desc_lem none = refl
strip_desc_lem (some (config f)) = clear_flag_lem f
strip_desc_lem (some (association i x)) = refl
strip_desc_lem (some (opaque n)) = refl

strip_all_lem : (xs : List Subobject) → any (λ x. desc_flag x.desc) (strip_all xs) ≡ false
unfolding strip_all
strip_all_lem [] = refl
strip_all_lem (x ∷ xs) = rw (strip_desc_lem x.desc) (strip_all_lem xs)

clear_flag-clear_flag : (f : ℕ) → clear_flag (clear_flag f) ≡ clear_flag f
unfolding clear_flag has_flag
clear_flag-clear_flag f = ground arith

strip_desc-strip_desc : (d : Option Desc) → strip_desc (strip_desc d) ≡ strip_desc d
unfolding strip_desc
strip_desc-strip_desc none = refl
strip_desc-strip_desc (some (config f)) = ap (λ g. some (config g)) (clear_flag-clear_flag f)
strip_desc-strip_desc (some (association i x)) = refl
strip_desc-strip_desc (some (opaque n)) = refl

strip_all-strip_all : (xs : List Subobject) → strip_all (strip_all xs) ≡ strip_all xs
unfolding strip_all
strip_all-strip_all [] = refl
strip_all-strip_all (x ∷ xs) = rw (strip_desc-strip_desc x.desc, strip_all-strip_all xs) refl

-- After `StripAdditionsFlag` no config has the flag, stripping once more changes nothing, and the
-- fixups are as they were.
pub strip-has_additions_flag :
    (s : Store)
    → (has_additions_flag (strip_additions_flag s) ≡ false)
      × (strip_additions_flag (strip_additions_flag s) ≡ strip_additions_flag s)
      × ((strip_additions_flag s).fixups ≡ s.fixups)
unfolding has_additions_flag strip_additions_flag
strip-has_additions_flag s =
    (strip_all_lem s.subs, ap (λ xs. record s { subs = xs }) (strip_all-strip_all s.subs), refl)
