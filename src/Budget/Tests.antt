-- ===== src/Budget/Tests.antt =====
-- Three frames of evidence, and small profiles.
use nes2snes.Common.{ℕ, ◌≡◌, refl, false, [], ◌∷◌, ok, err, nat, bytes_eq}
use nes2snes.Budget.{
  FrameFields, not_contiguous, missing, unbalanced, summarize, Profile, validate_profile,
}

abbrev seen : ℕ → ℕ → FrameFields
seen tag host = record { game_frame = nat tag; display_frame = nat host }

measured :
    summarize (seen 5 10 ∷ seen 6 11 ∷ seen 7 14 ∷ []) (([], nat 5, nat 7) ∷ [])
    ≡ ok (
        record {
          name = [];
          start_tag = 5;
          end_tag = 7;
          tagged_game_frames = 2;
          display_frames = 4;
          display_frames_per_tag = (4, 2);
          one_to_one_cadence = false;
          extra_display_frames = 2;
          max_display_spacing = 3;
          spacing_histogram = (1, 1) ∷ (3, 1) ∷ [];
          required_time_reduction_fraction = (2, 4);
          required_throughput_increase_fraction = (2, 2);
        }
        ∷ [])
unfolding summarize
measured = refl

refused :
    (summarize (seen 5 10 ∷ seen 7 11 ∷ []) [] ≡ err not_contiguous)
    × (summarize (seen 5 10 ∷ []) (([], nat 5, nat 7) ∷ []) ≡ err missing)
unfolding summarize
refused = (refl, refl)

abbrev profile : ℕ → Profile
profile residual = record {
  rom_sha256 = [];
  elapsed_master_clocks = nat 100;
  regions = (0 ∷ [], nat 60) ∷ (1 ∷ [], nat 30) ∷ [];
  unattributed_master_clocks = nat residual;
  overlapping_starts = false;
  completed_master_clocks = nat 50;
}

balanced :
    (validate_profile (profile 10) [] ≡ ok tt) × (validate_profile (profile 11) [] ≡ err unbalanced)
unfolding validate_profile bytes_eq
balanced = (refl, refl)
