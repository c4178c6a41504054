-- ===== src/TraceArgs/Tests.antt =====
-- proxy/trace_args.cpp at concrete graphs: `R = cbuffer dword & 3`, `M = 1`.
use dxr11_pascal.Base.{ℕ, ◌≤◌, ◌≡◌, ◌↔◌, refl, true, ◌||◌, [], ◌∷◌, none, some, arith, length, ◌%◌}
use dxr11_pascal.TraceArgs.{
  Leaf, and_op, konst, leaf, bin, Args, LeafValue, insert_sorted, sort_unique, norm, popcount_from,
  popcount, submasks_from, submasks, apply, append_known, cross_row, cross, below, all_submasks,
  greatest_divisor, least_shift, is_zero_only, eval_half, eval_bin, gather, eval_node, eval, low4,
  literal_index, literal, shift_node, shift_site, merge, pair_ltb, insert_pair, insert_row,
  insert_rows, pairs_from, pairs,
}
use dxr11_pascal.TraceArgs.Submasks.{mem, submasks_iff}
use dxr11_pascal.TraceArgs.Words.{ands}
use dxr11_pascal.TraceArgs.Dispatch.{
  Gives, gives_leaf, gives_konst, gives_bin, mem_pair, pairs_sound,
}
use dxr11_pascal.TraceArgs.Merging.{IsClosed, pairs-merge}
use dxr11_pascal.TraceArgs.Order.{IsRow, pairs-IsRow, pairs-literal}
use dxr11_pascal.TraceArgs.Bits.{IsSubmask}

abbrev dword : Leaf
dword = record { space = 0; reg = 2; offset = 16 }

abbrev masked : Args
masked = record {
  nodes = leaf dword ∷ konst 3 ∷ bin and_op (0 ∷ 1 ∷ []) ∷ konst 1 ∷ [];
  sites = record { r = 2; m = 3; kind = 7 } ∷ [];
}

abbrev plain : Args
plain = record { nodes = konst 4 ∷ konst 17 ∷ []; sites = record { r = 0; m = 1; kind = 11 } ∷ [] }

abbrev nothing_bound : LeafValue
nothing_bound l kind = none

abbrev six_bound : LeafValue
six_bound l kind = some 6

-- Runs every function of the module.
evaluates : ℕ
unfolding insert_sorted sort_unique norm popcount_from popcount submasks_from submasks apply
    append_known cross_row cross below all_submasks greatest_divisor least_shift is_zero_only
    eval_half eval_bin gather eval_node eval low4 literal_index literal shift_node shift_site merge
    pair_ltb insert_pair insert_row insert_rows pairs_from pairs
evaluates = 0

masked_at_creation : pairs masked nothing_bound ≡ (0, 1) ∷ (1, 1) ∷ (2, 1) ∷ (3, 1) ∷ []
unfolding evaluates
masked_at_creation = refl

masked_at_dispatch : pairs masked six_bound ≡ (2, 1) ∷ []
unfolding evaluates
masked_at_dispatch = refl

submasks_of_five : submasks 5 ≡ 5 ∷ 4 ∷ 1 ∷ 0 ∷ []
unfolding evaluates
submasks_of_five = refl

merged_pairs : pairs (merge plain masked) six_bound ≡ (2, 1) ∷ (4, 1) ∷ []
unfolding evaluates
merged_pairs = refl

bound : Leaf → ℕ
bound l = 6

masked-Gives : Gives masked.nodes bound 2 2
unfolding bound evaluates
masked-Gives =
    gives_bin and_op 0 1 6 3 refl (gives_leaf dword refl refl (omega arith))
      (gives_konst 3 refl refl (omega arith)) (ands refl)

pairs_sound_example : mem_pair (2 % 16) (1 % 16) (pairs masked nothing_bound) ≡ true
pairs_sound_example =
    pairs_sound masked nothing_bound bound 0 (record { r = 2; m = 3; kind = 7 }) 2 1 (λ l x e. cc)
      refl masked-Gives (gives_konst 1 refl refl (omega arith))

masked-IsClosed : IsClosed masked
masked-IsClosed = record {
  nodes_in = (tt, (tt, ((omega arith, (omega arith, tt)), (tt, tt))));
  sites_in = ((omega arith, omega arith), tt);
}

pairs-merge_example :
    mem_pair 4 1 (pairs (merge plain masked) six_bound)
    ≡ (mem_pair 4 1 (pairs masked six_bound) || mem_pair 4 1 (pairs plain six_bound))
pairs-merge_example = pairs-merge plain masked six_bound 4 1 masked-IsClosed

pairs-IsRow_example : IsRow 0 (pairs masked six_bound) × (length (pairs masked six_bound) ≤ 256)
pairs-IsRow_example = pairs-IsRow masked six_bound

pairs-literal_example : pairs plain nothing_bound ≡ pairs plain six_bound
unfolding evaluates
pairs-literal_example = pairs-literal plain nothing_bound six_bound refl

submasks_iff_example : (mem 4 (submasks 5) ≡ true) ↔ IsSubmask 4 5
submasks_iff_example = submasks_iff 5 4
