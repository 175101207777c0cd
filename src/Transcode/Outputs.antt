-- ===== src/Transcode/Outputs.antt =====
-- What app/transcode/engine.py, _process_sync, delivers.
use media_engine.Prelude.{
  ℕ, String, Bool, true, false, some, List, [], ◌∷◌, ◌++◌, ◌≡◌, ◌≤◌, ◌%◌, refl, inl, inr, arith,
  ◌=ₛ◌, ◌&&◌, Bool-cases, Result-cases, Result, ok, raised,
}
use media_engine.JobQueue.Records.{QualityTarget, CodecPreference}
use media_engine.Transcode.Profiles.{QualityProfile, profile_of}
use media_engine.Transcode.Engine.{
  Action, Engine, compute_scaled_dimensions, cpu_action, rkmpp_action, output_matches_profile,
}
use media_engine.Transcode.Process.{
  TranscodeResult, Run, is_runtime_error, last_action, after_hardware, transcode_with,
}

-- For a known profile, the dimensions that a frame is scaled to are even, at least 16, and at most
-- the profile's, whatever the rounding gives.
pub compute_scaled_dimensions-bounds :
    (engine : Engine) (width height : ℕ) (quality : QualityTarget) {profile : QualityProfile}
    → profile_of quality ≡ ok profile
    → let scaled = compute_scaled_dimensions engine width height profile in
      (16 ≤ scaled.0)
      × (scaled.0 ≤ profile.width)
      × (scaled.0 % 2 ≡ 0)
      × (16 ≤ scaled.1)
      × (scaled.1 ≤ profile.height)
      × (scaled.1 % 2 ≡ 0)
unfolding compute_scaled_dimensions
compute_scaled_dimensions-bounds engine width height QualityTarget.uhd_2160p e = ground arith
compute_scaled_dimensions-bounds engine width height QualityTarget.fhd_1080p e = ground arith
compute_scaled_dimensions-bounds engine width height QualityTarget.hd_720p e = ground arith
compute_scaled_dimensions-bounds engine width height QualityTarget.sd_480p e = ground arith
compute_scaled_dimensions-bounds engine width height QualityTarget.auto e = cc
compute_scaled_dimensions-bounds engine width height QualityTarget.audio_only e = cc

module _ (engine : Engine) (size : ℕ × ℕ) (profile : QualityProfile)
    (target : CodecPreference) where
  -- A run whose output is of the profile: made by the software's command for it, or by the
  -- hardware's, when the dimensions that were measured of its output are within the profile's.
  pub data IsMade (run : Run) : Type 0 where
    by_software :
        (before : List Action)
        → run.actions ≡ before ++ cpu_action engine size.0 size.1 profile target ∷ []
        → engine.run (cpu_action engine size.0 size.1 profile target) ≡ ok tt
        → IsMade run
    by_hardware :
        (decoder encoder : String)
        → run.actions ≡ rkmpp_action engine size.0 size.1 profile decoder encoder ∷ []
        → engine.run (rkmpp_action engine size.0 size.1 profile decoder encoder) ≡ ok tt
        → output_matches_profile engine
            (rkmpp_action engine size.0 size.1 profile decoder encoder)
            profile
          ≡ true
        → IsMade run

  abbrev produced : TranscodeResult
  produced = record { remuxed = false; profile = some profile; codec = target }

  last-IsMade :
      (before : List Action) {result : TranscodeResult}
      → (last_action engine before
          (cpu_action engine size.0 size.1 profile target)
          produced).outcome
        ≡ ok result
      → (result ≡ produced)
        × IsMade
            (last_action engine before (cpu_action engine size.0 size.1 profile target) produced)
  last-IsMade before h =
      elim (Result-cases (engine.run (cpu_action engine size.0 size.1 profile target))) [
        | inl (u, e) ↦ (ground arith, by_software before refl (ground arith))
        | inr (x, e) ↦ ground arith
      ]

  after_hardware-IsMade :
      (allow : Bool) (call : Result (Unit {0})) (matches : Bool) (decoder encoder : String)
      {result : TranscodeResult}
      → let hardware = rkmpp_action engine size.0 size.1 profile decoder encoder in
        let software = cpu_action engine size.0 size.1 profile target in
        engine.run hardware ≡ call
        → output_matches_profile engine hardware profile ≡ matches
        → (after_hardware engine allow call matches hardware software produced).outcome ≡ ok result
        → (result ≡ produced)
          × IsMade (after_hardware engine allow call matches hardware software produced)
  unfolding after_hardware
  after_hardware-IsMade allow (ok u) true decoder encoder e f h =
      (ground arith, by_hardware decoder encoder refl e f)
  after_hardware-IsMade true (ok u) false decoder encoder e f h =
      last-IsMade (rkmpp_action engine size.0 size.1 profile decoder encoder ∷ []) h
  after_hardware-IsMade false (ok u) false decoder encoder e f h = cc
  after_hardware-IsMade allow (raised x) matches decoder encoder e f h =
      elim (Bool-cases (is_runtime_error x && allow)) [
        | inl again ↦ rw again (
            last-IsMade (rkmpp_action engine size.0 size.1 profile decoder encoder ∷ [])
              (rw again at h))
        | inr surfaces ↦ ground arith
      ]

  pub transcode_with-IsMade :
      (decoder encoder : String) {result : TranscodeResult}
      → (transcode_with engine size profile target (decoder, encoder)).outcome ≡ ok result
      → (result ≡ produced) × IsMade (transcode_with engine size profile target (decoder, encoder))
  unfolding transcode_with
  transcode_with-IsMade decoder encoder h = elim (Bool-cases (encoder =ₛ "")) [
    | inl soft ↦ rw (transcode_with, soft) (last-IsMade [] (rw (transcode_with, soft) at h))
    | inr hard ↦
        rw (transcode_with, hard)
          (after_hardware-IsMade engine.allow_cpu_fallback _ _ decoder encoder refl refl
            (rw (transcode_with, hard) at h))
  ]
