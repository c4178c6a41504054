-- ===== src/AsTracker/Tests.antt =====
-- proxy/as_tracker.cpp at a scene of two instances on one structure of two geometries.
use dxr11_pascal.Base.{
  ℕ, ◌+◌, ◌*◌, ◌%◌, ◌<◌, ◌≡◌, refl, true, false, List, [], ◌∷◌, none, some, arith, get_elem?,
  Listed, lookup, set_key, insert, erase,
}
use dxr11_pascal.ResTracker.{find, last_from}
use dxr11_pascal.TraceArgs.{insert_pair, pair_ltb}
use dxr11_pascal.AsTracker.{TlasInfo, Instance, PendingRead, State, key_or, touch, has_key}
use dxr11_pascal.AsTracker.Parse.{
  Known, build_before, blas_at, geometries_of, greatest_contribution, records_end, kind_reach,
  is_unknown, same_constants, set_constants, add_reach, fill_slots, add_row, note_unknown,
  note_known, add_instance, add_instances, sort_classes, record_count_of, parse_start, parse,
  as_of_or_now, parse_into, parse_locked,
}
use dxr11_pascal.AsTracker.Builds.{
  Geometry, top_level, bottom_level, emplace, is_current, supersedes, is_live, counts, ago, advance,
  is_resolved, note_top_level, saw, kind_of, info_of, floor_pending, floor_built, floor_of,
  keep_from, trim, count_kind, count_blas, note_bottom_level, note_build, is_flagged, set_flag,
  all_flagged, set_flags, no_duplicate_any_hit, lookup_blas, max_geometry_from, max_geometry_count,
}
use dxr11_pascal.AsTracker.Reads.{
  Gpu, insert_build, newest, has_build, remember_in, remember, find_build, remember_copy, rows_of,
  take_read, note_instances, note_empty, instance_snapshot, drop_snapshot, note_pending,
  drop_unsubmitted, is_submitted, to_stamp, stamp_reads, set_fence, stamp_pending, is_done,
  parse_read, finish_read, finish_reads, after_submit,
}
use dxr11_pascal.AsTracker.Queries.{
  pending_of, drop_pending, bring_pending, take_alias, alias_of, is_read, bring_to_build,
  latest_build, serial_now, all_current, live_current_from, live_current, wants, want_instances,
  instances_at, lookup_tlas, any_read, known_rows,
}
use dxr11_pascal.AsTracker.Copies.{
  clone, deserialize, is_same, last_info, last_info_at, put_blas, forget_read, drop_contents,
  note_deserialize, copied_info, copy_blas, copy_instances, copy_snapshot, copy_alias, copy_serial,
  copy_source, copy_tlas, copy_structure, note_copy,
}
use dxr11_pascal.AsTracker.Decodes.{
  Sizes, Decode, top_decoded, top, deserialized_now, is_open, meets_deserialized, build_awaits,
  read_awaits, scene_awaits, awaits_decode, geometries_at, decoded_info, replace_build, ends_at,
  erase_tlas, has_build_of, unmake_tlas, is_unsettled, reread_build, reread_builds, reread_all,
  reread, apply_bottom, drop_build, instances_of, apply_top, settle, apply_level, apply_decoded,
}
use dxr11_pascal.AsTracker.Records.{
  one_tlas, is_bound, meets_unknown, unknown_blas, same_record, clash, pick, push_merged, merge,
  layout_refusal, mixed_at, procedural_refusal, table_would_be_wrong, put_constants,
  constants_table, record_constants_table, put_kinds, kinds_table, record_kinds, get_summary,
}
use dxr11_pascal.AsTracker.Classes.{
  geometry, is_traced, traced, record_of, relabel, label_at, label_pairs, label_class,
  label_classes, classes_of, geometry_labels, signature_class, signature, reaches_class, reaches,
  same_list, id_of, class_of, seen_after, pair_ids, pair_classes,
}
use dxr11_pascal.AsTracker.Steps.{instances, submit, copy, step, run, start}
use dxr11_pascal.AsTracker.Slots.{answer}
use dxr11_pascal.AsTracker.Answers.{IsKnown}
use dxr11_pascal.AsTracker.Table.{Counted, table-answers}
use dxr11_pascal.AsTracker.History.{pending_read, note_bottom_level-parse_into}
use dxr11_pascal.AsTracker.Freshness.{ReadSince}
use dxr11_pascal.AsTracker.Taken.{Moves, none_past, after_submit-takes, after_submit-newer}
use dxr11_pascal.AsTracker.Waits.{after_submit-waits}
use dxr11_pascal.AsTracker.Cloned.{copy_structure-IsCopied}
use dxr11_pascal.AsTracker.Labels.{TellsAt, geometry_labels-TellsAt}
use dxr11_pascal.AsTracker.Pairing.{AgreeOn, pair_classes-AgreeOn}
use dxr11_pascal.AsTracker.Kept.{Kept}
use dxr11_pascal.AsTracker.Steps.{run-Kept}

-- Runs every function of the module.
evaluates : ℕ
unfolding key_or touch has_key build_before blas_at geometries_of greatest_contribution records_end
    kind_reach is_unknown same_constants set_constants add_reach fill_slots add_row note_unknown
    note_known add_instance add_instances sort_classes record_count_of parse_start parse
    as_of_or_now parse_into parse_locked emplace is_current supersedes is_live counts ago advance
    is_resolved note_top_level saw kind_of info_of floor_pending floor_built floor_of keep_from trim
    count_kind count_blas note_bottom_level note_build is_flagged set_flag all_flagged set_flags
    no_duplicate_any_hit lookup_blas max_geometry_from max_geometry_count insert_build newest
    has_build remember_in remember find_build remember_copy rows_of take_read note_instances
    note_empty instance_snapshot drop_snapshot note_pending drop_unsubmitted is_submitted to_stamp
    stamp_reads set_fence stamp_pending is_done parse_read finish_read finish_reads after_submit
    pending_of drop_pending bring_pending take_alias alias_of is_read bring_to_build latest_build
    serial_now all_current live_current_from live_current wants want_instances instances_at
    lookup_tlas any_read known_rows is_same last_info last_info_at put_blas forget_read
    drop_contents note_deserialize copied_info copy_blas copy_instances copy_snapshot copy_alias
    copy_serial copy_source copy_tlas copy_structure note_copy deserialized_now is_open
    meets_deserialized build_awaits read_awaits scene_awaits awaits_decode geometries_at
    decoded_info replace_build ends_at erase_tlas has_build_of unmake_tlas is_unsettled reread_build
    reread_builds reread_all reread apply_bottom drop_build instances_of apply_top settle
    apply_level apply_decoded is_bound meets_unknown unknown_blas same_record clash pick push_merged
    merge layout_refusal mixed_at procedural_refusal table_would_be_wrong put_constants
    constants_table record_constants_table put_kinds kinds_table record_kinds get_summary is_traced
    traced record_of relabel label_at label_pairs label_class label_classes classes_of
    geometry_labels signature_class signature reaches_class reaches same_list id_of class_of
    seen_after pair_ids pair_classes step run start lookup set_key insert erase find last_from
    insert_pair pair_ltb
evaluates = 0

abbrev two_triangles : Geometry
two_triangles = record { is_procedural = false; flags = 0 }

abbrev two_instances : List Instance
two_instances =
    record { structure = 16; contribution = 0 } ∷ record { structure = 16; contribution = 2 } ∷ []

-- The bottom-level structure 16, then the top-level structure 32.
abbrev built : State
built =
    note_build [] (some (32, top_level 2 64))
      (note_build [] (some (16, bottom_level (some two_triangles ∷ some two_triangles ∷ []))) start)

abbrev scene : State
scene = note_instances 32 two_instances built

abbrev as_built : Known
as_built at = blas_at built at 2

abbrev parsed : TlasInfo
parsed = parse as_built two_instances

scene_table :
    record_constants_table scene none ≡ answer 0 0 ∷ answer 1 0 ∷ answer 0 2 ∷ answer 1 2 ∷ []
unfolding evaluates
scene_table = refl

-- Contributions 0 and 1 put two geometries on one record.
abbrev clashing : List Instance
clashing =
    record { structure = 16; contribution = 0 } ∷ record { structure = 16; contribution = 1 } ∷ []

clash_refused :
    table_would_be_wrong (note_instances 32 clashing built) false none ≡ some (one_tlas 1)
unfolding evaluates
clash_refused = refl

scene-Counted : Counted scene none 32 parsed
unfolding evaluates
scene-Counted = record { is_valid = refl; is_counted = refl }

table-answers_example :
    IsKnown as_built (record { structure = 16; contribution = 2 })
    × ((gi : ℕ)
        → gi < geometries_of (as_built 16)
        → get_elem? (record_constants_table scene none) (2 + gi) ≡ some (answer gi 2))
unfolding evaluates
table-answers_example =
    table-answers scene false none as_built two_instances 32 0
      (record { structure = 16; contribution = 2 }) 1 refl scene-Counted refl refl (omega arith)
      (omega arith)

-- A read of the first build of 32, submitted to queue 5 with fence value 3.
abbrev first_read : PendingRead
first_read = record {
  tlas = 32;
  readback = 900;
  count = 2;
  build = 1;
  as_of = 2;
  owner = 7;
  queue = 5;
  fence_value = 3;
}

abbrev waiting : State
waiting = record built {
  pending = first_read ∷ [];
  fences = λ q. record { created = true; value = 3 };
}

abbrev gpu : ℕ → Gpu
gpu reached = record {
  completed = λ q. reached;
  can_create = λ q. true;
  can_signal = λ q. true;
  mapped = λ r. some two_instances;
}

note_bottom_level-parse_into_example :
    parse_into (note_bottom_level 16 (some two_triangles ∷ []) waiting) two_instances 2
    ≡ parse_into waiting two_instances 2
unfolding evaluates
note_bottom_level-parse_into_example =
    note_bottom_level-parse_into 16 (some two_triangles ∷ []) waiting two_instances 2 (omega arith)
      (omega arith) (pending_read 0 first_read refl refl)

after_submit-waits_example :
    Listed first_read (after_submit (λ l. l) (gpu 2) 5 (8 ∷ []) waiting).pending
unfolding evaluates
after_submit-waits_example =
    after_submit-waits (λ l. l) (gpu 2) 5 (8 ∷ []) first_read waiting (omega arith) (omega arith)
      (0, refl)

after_submit-takes_example :
    let s' = after_submit (λ l. l) (gpu 3) 5 (8 ∷ []) waiting in
    ReadSince 1 32 s'
    × Moves (gpu 3) (stamp_pending (λ l. l) (gpu 3) 5 (8 ∷ []) waiting).pending 32 waiting s'
    × (none_past (gpu 3) s' s'.pending ≡ true)
unfolding evaluates
after_submit-takes_example =
    after_submit-takes (λ l. l) (gpu 3) 5 (8 ∷ []) first_read two_instances waiting (omega arith)
      (omega arith) refl (omega arith) refl (0, refl)

-- The structure 32 again, its second build read already when the first one's read ends.
abbrev ahead : State
ahead = note_instances 32 two_instances (note_build [] (some (32, top_level 2 64)) waiting)

ahead-ReadSince : ReadSince 2 32 ahead
unfolding evaluates
ahead-ReadSince = record { build = 2; is_of = refl; is_since = omega arith }

after_submit-newer_example :
    ReadSince 2 32 (after_submit (λ l. l) (gpu 3) 5 (8 ∷ []) ahead)
    × Moves
        (gpu 3)
        (stamp_pending (λ l. l) (gpu 3) 5 (8 ∷ []) ahead).pending
        32
        ahead
        (after_submit (λ l. l) (gpu 3) 5 (8 ∷ []) ahead)
unfolding evaluates
after_submit-newer_example =
    after_submit-newer (λ l. l) (gpu 3) 5 (8 ∷ []) 2 32 ahead ahead-ReadSince

-- A copy of a read structure, and one of a structure whose read still waits.
copy_structure-IsCopied_example :
    (lookup_tlas (copy_structure clone 48 32 scene) 48 ≡ lookup_tlas scene 32)
    × (is_current (copy_structure clone 48 32 scene) 48 ≡ true)
unfolding evaluates
copy_structure-IsCopied_example = copy_structure-IsCopied clone 48 32 scene refl (omega arith) refl

-- The sizes of the API's descriptions on a 64-bit system.
abbrev sizes : Sizes
sizes = record { header_size = 8; geometry_size = 56; instance_size = 64 }

abbrev one_instance : Decode
one_instance = record {
  size = 72;
  level = top;
  desc_count = 1;
  procedural_at = λ at. false;
  instance_at = λ i. record { structure = 16; contribution = 4 };
}

decoded_top :
    let s = note_copy 64 0 deserialize built in
    let (s', o) =
      apply_decoded sizes 64
        (record { blas_serial = 3; tlas_serial = 2; was_tlas = false })
        (some one_instance)
        s in
    (o ≡ top_decoded 1) × (is_current s' 64 ≡ true) × (deserialized_now s' 64 ≡ none)
unfolding evaluates
decoded_top = (refl, refl, refl)

abbrev pairs_1_1 : List (ℕ × ℕ)
pairs_1_1 = (0, 1) ∷ (16, 17) ∷ (1, 1) ∷ []

scene_labels :
    (geometry_labels scene ((0, 1) ∷ []) 4 [] false).labels
    ≡ geometry 0 ∷ geometry 1 ∷ geometry 0 ∷ geometry 1 ∷ []
unfolding evaluates
scene_labels = refl

geometry_labels-TellsAt_example :
    TellsAt 3 1 (geometry_labels scene ((0, 1) ∷ []) 4 [] false).labels
unfolding evaluates
geometry_labels-TellsAt_example =
    geometry_labels-TellsAt scene ((0, 1) ∷ []) 4 [] false 32 parsed 0 1 2 2 1 (0, refl) refl
      (0, refl) (1, refl) (omega arith) (omega arith)

scene_classes : pair_classes scene pairs_1_1 4 [] false ≡ some 0 ∷ some 0 ∷ some 1 ∷ []
unfolding evaluates
scene_classes = refl

pair_classes-AgreeOn_example : AgreeOn 4 (0 % 16 + 1 % 16 * 1 + 2) (16 % 16 + 17 % 16 * 1 + 2)
unfolding evaluates
pair_classes-AgreeOn_example =
    pair_classes-AgreeOn scene pairs_1_1 4 [] false 0 1 0 0 1 16 17 32 parsed 2 2 1 (omega arith)
      refl refl refl refl (0, refl) refl (1, refl) (omega arith)

run-Kept_example : Kept (
    run
      (instances 32 two_instances ∷ copy 48 32 clone ∷ submit (λ l. l) (gpu 3) 5 (8 ∷ []) ∷ [])
      start)
unfolding evaluates
run-Kept_example =
    run-Kept
      (instances 32 two_instances ∷ copy 48 32 clone ∷ submit (λ l. l) (gpu 3) 5 (8 ∷ []) ∷ [])
