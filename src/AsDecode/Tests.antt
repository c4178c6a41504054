-- ===== src/AsDecode/Tests.antt =====
-- proxy/as_decode.cpp at one deserialized structure.
use dxr11_pascal.Base.{ℕ, ◌≡◌, refl, inl, inr, true, false, [], ◌∷◌, none, some, arith}
use dxr11_pascal.AsTracker.{Deserialized}
use dxr11_pascal.AsTracker.Reads.{is_submitted, set_fence}
use dxr11_pascal.AsTracker.Copies.{deserialize, note_copy}
use dxr11_pascal.AsTracker.Decodes.{Sizes, Decode, bottom}
use dxr11_pascal.AsTracker.Steps.{start}
use dxr11_pascal.AsDecode.{
  Query, State, needs_chunk, chunk_for, add_query, note, is_pending, to_stamp, stamp_queries,
  after_submit, drop_unsubmitted, Driver, is_ready, is_job, is_applied, apply_jobs, bring,
}
use dxr11_pascal.AsDecode.Settling.{waits_for, bring-over}
use dxr11_pascal.AsDecode.Ready.{IsSound, note-IsSound}

-- Runs every function of the module.
evaluates : ℕ
unfolding needs_chunk chunk_for add_query note is_pending to_stamp stamp_queries after_submit
    drop_unsubmitted is_ready is_job is_applied apply_jobs bring is_submitted set_fence
evaluates = 0

abbrev nothing : State
nothing = record { chunk = none; queries = []; fences = λ q. record { created = false; value = 0 } }

abbrev serials : Deserialized
serials = record { blas_serial = 1; tlas_serial = 1; was_tlas = false }

-- List 7 deserializes into 64 in its segment 2, with new buffers 500.
abbrev asked : State
asked = note 3 4 64 7 2 (some serials) (some 500) nothing

abbrev first_query : Query
first_query = record {
  dst = 64;
  at = serials;
  chunk = 500;
  offset = 0;
  owner = 7;
  segment = 2;
  queue = 0;
  fence_value = 0;
}

asked_first : asked.queries ≡ first_query ∷ []
unfolding evaluates
asked_first = refl

abbrev sizes : Sizes
sizes = record { header_size = 8; geometry_size = 56; instance_size = 64 }

abbrev triangle : Decode
triangle = record {
  size = 64;
  level = bottom;
  desc_count = 1;
  procedural_at = λ at. false;
  instance_at = λ i. record { structure = 0; contribution = 0 };
}

abbrev answering : Driver
answering = record {
  completed = λ q. 0;
  has_device = true;
  has_list = true;
  closes = true;
  signals = true;
  size_of = λ q. 64;
  has_buffers = λ q. true;
  decode_of = λ q. some triangle;
}

nothing-IsSound : IsSound nothing
nothing-IsSound = record { placed = tt; apart = tt }

note-IsSound_example : IsSound asked
note-IsSound_example = note-IsSound 3 4 64 7 2 (some serials) (some 500) nothing tt nothing-IsSound

-- The list is submitted to queue 5, and the GPU is past it.
abbrev sent : dxr11_pascal.AsDecode.State
sent = after_submit (λ l. l) true true 5 (7 ∷ []) asked

abbrev sent_query : Query
sent_query = record first_query { queue = 5; fence_value = 1 }

abbrev past : Driver
past = record answering { completed = λ q. 1 }

bring-over_example :
    waits_for 64 1 (bring sizes past 5 6 9 0 sent (note_copy 64 0 deserialize start)).1.0 ≡ false
unfolding evaluates
bring-over_example =
    bring-over sizes past 5 6 9 0 sent (note_copy 64 0 deserialize start) sent_query triangle
      (omega arith) (omega arith) (0, refl) (inr (omega arith, refl, omega arith)) refl refl refl
      refl

-- At the split of its own list, after its segment, it has run as well.
at_the_split :
    waits_for 64 1 (bring sizes answering 5 6 7 2 asked (note_copy 64 0 deserialize start)).1.0
    ≡ false
unfolding evaluates
at_the_split =
    bring-over sizes answering 5 6 7 2 asked (note_copy 64 0 deserialize start) first_query triangle
      (omega arith) (omega arith) (0, refl) (inl (refl, refl, omega arith)) refl refl refl refl

-- At the split after segment 1 it has not run, and waits on.
too_early :
    (bring sizes answering 5 6 7 1 asked (note_copy 64 0 deserialize start)).0.queries
    ≡ first_query ∷ []
unfolding evaluates
too_early = refl
