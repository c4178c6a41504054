-- ===== src/StateObject/Tests.antt =====
-- proxy/state_object_cache.cpp at a concrete merge: a collection with a config, a library and an
-- association, and an addition that repeats the config and associates it.
use dxr11_pascal.Base.{ℕ, get_elem?, ◌≡◌, refl, true, false, List, [], ◌∷◌, ◌++◌, none, some}
use dxr11_pascal.StateObject.{
  state_object_config, shader_config, to_exports_association, kind_code, kind_eq, is_singleton,
  config, association, opaque, Subobject, Store, has_kind, is_supported, fixup_of, append_one,
  append_from, append, has_flag, clear_flag, desc_flag, has_additions_flag, strip_desc, strip_all,
  strip_additions_flag, Final, in_final, in_caller, target_of, compact, first_of_kind, set_target,
  target_index, apply_fixup, apply_fixups, desc_of,
}
use dxr11_pascal.StateObject.Append.{
  AreCopies, wanted, wanted_all, append-AreCopies, strip-has_additions_flag,
}
use dxr11_pascal.StateObject.Shape.{bare_all, kept}
use dxr11_pascal.StateObject.Compaction.{IsFixup, IsApplied, desc_of-kept, desc_of-targets}

-- Runs every function of the module.
evaluates : ℕ
unfolding kind_code kind_eq is_singleton has_kind is_supported fixup_of append_one append_from
    append has_flag clear_flag desc_flag has_additions_flag strip_desc strip_all
    strip_additions_flag target_of compact first_of_kind set_target target_index apply_fixup
    apply_fixups desc_of wanted wanted_all kept
evaluates = 0

abbrev base_store : Store
base_store = record {
  subs =
      record { kind = shader_config; desc = some (opaque 7) }
      ∷ record { kind = state_object_config; desc = some (config 5) }
      ∷ [];
  fixups = [];
}

abbrev addition : List Subobject
addition =
    record { kind = shader_config; desc = some (opaque 7) }
    ∷ record { kind = to_exports_association; desc = some (association (some 0) 9) }
    ∷ []

abbrev merged : Store
merged = record {
  subs =
      record { kind = shader_config; desc = some (opaque 7) }
      ∷ record { kind = state_object_config; desc = some (config 5) }
      ∷ record { kind = shader_config; desc = none }
      ∷ record { kind = to_exports_association; desc = some (association (some 0) 9) }
      ∷ [];
  fixups = (3, 2) ∷ [];
}

append-merged : append true base_store addition ≡ (merged, none)
unfolding evaluates
append-merged = refl

append-AreCopies_example :
    (ys : List Subobject) × ((append true base_store addition).0.subs ≡ base_store.subs ++ ys)
    × AreCopies true base_store.subs addition ys
    × ((append true base_store addition).0.fixups ≡ base_store.fixups ++ wanted_all 2 2 addition)
unfolding evaluates
append-AreCopies_example = append-AreCopies true base_store addition refl

strip-has_additions_flag_example :
    (has_additions_flag (strip_additions_flag merged) ≡ false)
    × (strip_additions_flag (strip_additions_flag merged) ≡ strip_additions_flag merged)
    × ((strip_additions_flag merged).fixups ≡ merged.fixups)
strip-has_additions_flag_example = strip-has_additions_flag merged

desc_of-kept_example : bare_all (desc_of merged) ≡ kept merged.subs
desc_of-kept_example = desc_of-kept merged

desc_of-targets_example :
    (a : ℕ) × (t : ℕ) × (f : Final) × (get_elem? (compact 0 merged.subs).1 3 ≡ some (some a))
    × (get_elem? (desc_of merged) a ≡ some f)
    × (f.target ≡ in_final t)
    × ((p : ℕ × ℕ) × IsFixup merged p × IsApplied merged a t p)
unfolding evaluates
desc_of-targets_example =
    desc_of-targets merged 0 3 2
      (record { kind = to_exports_association; desc = some (association (some 0) 9) })
      (record { kind = shader_config; desc = none }) (association (some 0) 9) refl refl refl refl
      (0, (shader_config, opaque 7), refl, refl)

-- With no subobject of its target's type left, an association keeps the caller's pointer.
target_vanished :
    get_elem?
      (desc_of (record {
        subs =
            record { kind = shader_config; desc = none }
            ∷ record { kind = to_exports_association; desc = some (association (some 0) 9) }
            ∷ [];
        fixups = (1, 0) ∷ [];
      }))
      0
    ≡ some (record {
      kind = to_exports_association;
      desc = association (some 0) 9;
      target = in_caller 0;
    })
unfolding evaluates
target_vanished = refl
