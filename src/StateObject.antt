-- ===== src/StateObject.antt =====
-- proxy/state_object_cache.h and proxy/state_object_cache.cpp: the owning copy of a state
-- object's subobjects that AddToStateObject is emulated with.
-- A subobject's type-specific description is one of the constructors of `Desc`; what the copy does
-- not look into (root signatures, bytecode, exports, names, configs) is an opaque number. The
-- deep copy of those (`Intern`, `CopyExports`, `CopyNames`, the blobs) keeps their values and is
-- not modelled: a copied description is equal to the original, but for an association's pointer.
-- That pointer, into the caller's array, is given by the index that the code computes from it;
-- `other_type` stands for the subobject types that the code does not know.
pub mod Append
pub mod Shape
pub mod Compaction
mod Tests
use dxr11_pascal.Base.{
  ℕ, zero, suc, ◌+◌, ◌-◌, ◌/◌, ◌%◌, Bool, true, false, ◌&&◌, ◌||◌, not, List, [], ◌∷◌, ◌++◌, Option,
  none, some, ltb, leb, ◌==◌, if◌then◌else◌, any, length, get_elem?,
}

pub data Kind : Type 0 where
  state_object_config global_root_signature local_root_signature node_mask : Kind
  dxil_library existing_collection to_exports_association dxil_to_exports_association : Kind
  shader_config pipeline_config pipeline_config1 hit_group : Kind
  other_type : ℕ → Kind

unfoldable pub kind_code : Kind → ℕ
kind_code state_object_config = 0
kind_code global_root_signature = 1
kind_code local_root_signature = 2
kind_code node_mask = 3
kind_code dxil_library = 5
kind_code existing_collection = 6
kind_code to_exports_association = 7
kind_code dxil_to_exports_association = 8
kind_code shader_config = 9
kind_code pipeline_config = 10
kind_code hit_group = 11
kind_code pipeline_config1 = 12
kind_code (other_type n) = 13 + n

unfoldable pub kind_eq : Kind → Kind → Bool
kind_eq a b = kind_code a == kind_code b

unfoldable pub is_singleton : Kind → Bool
is_singleton state_object_config = true
is_singleton global_root_signature = true
is_singleton node_mask = true
is_singleton shader_config = true
is_singleton pipeline_config = true
is_singleton pipeline_config1 = true
is_singleton _ = false

-- What a subobject's `pDesc` points at: the flags of a config, what an association points at
-- (an index into the caller's array, which may lie outside it, or nothing) with its exports,
-- and any other description.
pub data Desc : Type 0 where
  config : ℕ → Desc
  association : Option ℕ → ℕ → Desc
  opaque : ℕ → Desc

-- A caller's subobject; `none` is a null `pDesc`.
pub record Subobject : Type 0 where
  pub kind : Kind
  pub desc : Option Desc

-- The working array, the fixups (index of the association, index of its target), and the configs'
-- flags, which are read and changed apart from the array (`m_cfg`).
pub record Store : Type 0 where
  pub subs : List Subobject
  pub fixups : List (ℕ × ℕ)

abbrev pub empty_store : Store
empty_store = record { subs = []; fixups = [] }

pub data Refusal : Type 0 where
  null_desc outside_array : Refusal
  unsupported : Kind → Refusal

unfoldable pub has_kind : Kind → List Subobject → Bool
has_kind k = any λ s. kind_eq s.kind k

unfoldable pub is_supported : Kind → Bool
is_supported (other_type n) = false
is_supported _ = true

-- A fixup for an association that points at something, unless it points outside the array.
unfoldable pub fixup_of : ℕ → ℕ → ℕ → Kind → Desc → Option (List (ℕ × ℕ))
fixup_of base count here to_exports_association (association (some i) exports) =
    if ltb i count then some ((here, base + i) ∷ []) else none
fixup_of base count here k d = some []

-- One round of the loop of `Append`, past the null test: `base` is the size before the call and
-- `count` the number of the caller's subobjects.
unfoldable pub append_one : Bool → ℕ → ℕ → Store → Kind → Desc → Store × Option Refusal
append_one drop base count s k d =
    if drop && (is_singleton k && has_kind k s.subs)
    then (record s { subs = s.subs ++ record { kind = k; desc = none } ∷ [] }, none)
    else if is_supported k
    then elim (fixup_of base count (length s.subs) k d) [
      | none ↦ (s, some outside_array)
      | some fs ↦ (
        record {
          subs = s.subs ++ record { kind = k; desc = some d } ∷ [];
          fixups = s.fixups ++ fs;
        },
        none,
      )
    ]
    else (s, some (unsupported k))

unfoldable pub append_from : Bool → ℕ → ℕ → Store → List Subobject → Store × Option Refusal
append_from drop base count s [] = (s, none)
append_from drop base count s (x ∷ xs) = elim x.desc [
  | none ↦ (s, some null_desc)
  | some d ↦
      let (s', refused) = append_one drop base count s x.kind d in
      let rest = append_from drop base count s' xs in
      elim refused [ some why ↦ (s', some why) | none ↦ rest ]
]

-- `Append`: the store as it leaves it, and why it stopped (`none`: it returned true).
unfoldable pub append : Bool → Store → List Subobject → Store × Option Refusal
append drop s xs = append_from drop (length s.subs) (length xs) s xs

-- The flags of the configs: `ALLOW_STATE_OBJECT_ADDITIONS` is 0x4.
unfoldable pub has_flag : ℕ → Bool
has_flag f = not (f / 4 % 2 == 0)

unfoldable pub clear_flag : ℕ → ℕ
clear_flag f = if has_flag f then f - 4 else f

unfoldable pub desc_flag : Option Desc → Bool
desc_flag (some (config f)) = has_flag f
desc_flag _ = false

unfoldable pub has_additions_flag : Store → Bool
has_additions_flag s = any (λ x. desc_flag x.desc) s.subs

unfoldable pub strip_desc : Option Desc → Option Desc
strip_desc (some (config f)) = some (config (clear_flag f))
strip_desc d = d

unfoldable pub strip_all : List Subobject → List Subobject
strip_all [] = []
strip_all (x ∷ xs) = record x { desc = strip_desc x.desc } ∷ strip_all xs

unfoldable pub strip_additions_flag : Store → Store
strip_additions_flag s = record s { subs = strip_all s.subs }

-- What the pointer of a copied association points at: nothing, a place of the caller's array (as
-- the copy has it until `Desc` changes it), or a place of the final array.
pub data Target : Type 0 where
  nothing : Target
  in_caller : ℕ → Target
  in_final : ℕ → Target

unfoldable pub target_of : Desc → Target
target_of (association (some i) exports) = in_caller i
target_of _ = nothing

-- A final subobject, with what its association's pointer is.
pub record Final : Type 0 where
  pub kind : Kind
  pub desc : Desc
  pub target : Target

-- The final array, and the map from working to final indices (`none`: dropped).
unfoldable pub compact : ℕ → List Subobject → List Final × List (Option ℕ)
compact next [] = ([], [])
compact next (x ∷ xs) = elim x.desc [
  | none ↦ let (fs, m) = compact next xs in (fs, none ∷ m)
  | some d ↦
      let (fs, m) = compact (suc next) xs in
      (record { kind = x.kind; desc = d; target = target_of d } ∷ fs, some next ∷ m)
]

-- The first final subobject of a type.
unfoldable pub first_of_kind : Kind → ℕ → List Final → Option ℕ
first_of_kind k i [] = none
first_of_kind k i (f ∷ fs) = if kind_eq f.kind k then some i else first_of_kind k (suc i) fs

unfoldable pub set_target : ℕ → ℕ → List Final → List Final
set_target i t [] = []
set_target zero t (f ∷ fs) = record f { target = in_final t } ∷ fs
set_target (suc i) t (f ∷ fs) = f ∷ set_target i t fs

-- Where a fixup's target went: its own final index, or that of the surviving subobject of its type.
unfoldable pub target_index : List Subobject → List (Option ℕ) → List Final → ℕ → Option ℕ
target_index subs m fs j = elim (get_elem? m j) [
  | none ↦ none
  | some (some t) ↦ some t
  | some none ↦ elim (get_elem? subs j) [ none ↦ none | some x ↦ first_of_kind x.kind 0 fs ]
]

unfoldable pub apply_fixup : List Subobject → List (Option ℕ) → List Final → ℕ × ℕ → List Final
apply_fixup subs m fs (i, j) = elim (get_elem? m i) [
  | some (some a) ↦ elim (target_index subs m fs j) [ none ↦ fs | some t ↦ set_target a t fs ]
  | _ ↦ fs
]

unfoldable pub apply_fixups :
    List Subobject → List (Option ℕ) → List Final → List (ℕ × ℕ) → List Final
apply_fixups subs m fs [] = fs
apply_fixups subs m fs (x ∷ xs) = apply_fixups subs m (apply_fixup subs m fs x) xs

-- `Desc`: the array that D3D12 sees.
unfoldable pub desc_of : Store → List Final
desc_of s = let (fs, m) = compact 0 s.subs in apply_fixups s.subs m fs s.fixups
