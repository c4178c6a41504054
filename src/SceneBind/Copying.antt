-- ===== src/SceneBind/Copying.antt =====
-- proxy/scene_bind.cpp: descriptors that are copied, `NoteCopy`.
use dxr11_pascal.Base.{
  ℕ, zero, suc, ◌+◌, ◌-◌, ◌*◌, Bool, true, false, ◌||◌, not, List, [], ◌∷◌, ◌++◌, Option, none,
  some, leb, if◌then◌else◌, length, min, insert,
}
use dxr11_pascal.SceneBind.{Structures, State, each_in, erase_locked}

-- Descriptors of one copy that lie together at either end.
pub record Run : Type 0 where
  pub source : ℕ
  pub target : ℕ
  pub count : ℕ

-- Ranges of descriptors, a handle and a size each; without sizes, of one descriptor.
unfoldable pub ranges : List ℕ → Option (List ℕ) → List (ℕ × ℕ)
ranges [] sizes = []
ranges (h ∷ hs) none = (h, 1) ∷ ranges hs none
ranges (h ∷ hs) (some []) = []
ranges (h ∷ hs) (some (n ∷ ns)) = (h, n) ∷ ranges hs (some ns)

unfoldable pub push_run : Run → Option (List Run) → Option (List Run)
push_run r none = none
push_run r (some rs) = some (r ∷ rs)

-- The loop over both lists, with the offsets in the first range of each; `none` is a loop that did
-- not end in `fuel` rounds.
unfoldable pub pair_runs : ℕ → ℕ → List (ℕ × ℕ) → List (ℕ × ℕ) → ℕ → ℕ → Option (List Run)
pair_runs zero inc dst src doff soff = none
pair_runs (suc fuel) inc [] src doff soff = some []
pair_runs (suc fuel) inc (d ∷ dst) [] doff soff = some []
pair_runs (suc fuel) inc ((d, dn) ∷ dst) ((s, sn) ∷ src) doff soff = elim (leb dn doff) [
  | true ↦ pair_runs fuel inc dst ((s, sn) ∷ src) 0 soff
  | false ↦ elim (leb sn soff) [
    | true ↦ pair_runs fuel inc ((d, dn) ∷ dst) src doff 0
    | false ↦
        let n = min (dn - doff) (sn - soff) in
        push_run (record { source = s + soff * inc; target = d + doff * inc; count = n })
          (pair_runs fuel inc ((d, dn) ∷ dst) ((s, sn) ∷ src) (doff + n) (soff + n))
  ]
]

-- What the runs carry: the handles written, with their structures.
unfoldable pub carried_by : ℕ → Run → List (ℕ × ℕ) → List (ℕ × ℕ)
carried_by inc r [] = []
carried_by inc r ((i, a) ∷ ps) = (r.target + i * inc, a) ∷ carried_by inc r ps

unfoldable pub carried : ℕ → Structures → List Run → List (ℕ × ℕ)
carried inc t [] = []
carried inc t (r ∷ rs) = carried_by inc r (each_in r.source r.count inc t) ++ carried inc t rs

unfoldable pub erase_runs : ℕ → List Run → Structures → Structures
erase_runs inc [] t = t
erase_runs inc (r ∷ rs) t = erase_runs inc rs (erase_locked r.target r.count inc t)

unfoldable pub write_all : List (ℕ × ℕ) → Structures → Structures
write_all [] t = t
write_all ((k, a) ∷ ps) t = write_all ps (insert k a t)

unfoldable pub copy_runs : ℕ → List Run → State → State
copy_runs inc rs s = record s {
  structures = write_all (carried inc s.structures rs) (erase_runs inc rs s.structures);
}

abbrev pub rounds : List (ℕ × ℕ) → List (ℕ × ℕ) → ℕ
rounds dst src = suc (2 * (length dst + length src))

-- `NoteCopy`; the first argument is whether the heaps' type is that of views.
unfoldable pub note_copy : Bool → ℕ → List (ℕ × ℕ) → List (ℕ × ℕ) → State → State
note_copy is_view inc dst src s =
    if not is_view || not s.any_recorded
    then s
    else elim (pair_runs (rounds dst src) inc dst src 0 0) [
      | none ↦ s
      | some rs ↦ copy_runs inc rs s
    ]
