-- ===== src/Transcode/Fallback.antt =====
-- The CPU fallback of app/transcode/engine.py, _process_sync.
use media_engine.Prelude.{
  ℕ, String, Bool, true, false, [], ◌∷◌, ◌≡◌, refl, arith, ◌=ₛ◌, inl, inr, Bool-cases, Exception,
  Result, ok, raised,
}
use media_engine.JobQueue.Records.{CodecPreference}
use media_engine.Transcode.Profiles.{QualityProfile}
use media_engine.Transcode.Engine.{Action, Engine, cpu_action, rkmpp_action, output_matches_profile}
use media_engine.Transcode.Process.{
  TranscodeResult, is_runtime_error, answer, after_hardware, transcode_with,
}

answer-raised :
    (call : Result (Unit {0})) (made : TranscodeResult) {e : Exception}
    → answer call made ≡ raised e
    → call ≡ raised e
answer-raised (ok u) made h = cc
answer-raised (raised x) made h = ground arith

module _ (engine : Engine) (allowed : engine.allow_cpu_fallback ≡ true) where
  after_hardware-raised :
      (allow : Bool) (call : Result (Unit {0})) (matches : Bool) (hardware software : Action)
      (made : TranscodeResult) {e : Exception}
      → allow ≡ true
      → ((x : Exception) → call ≡ raised x → is_runtime_error x ≡ true)
      → (after_hardware engine allow call matches hardware software made).outcome ≡ raised e
      → engine.run software ≡ raised e
  unfolding after_hardware
  after_hardware-raised allow (ok u) true hardware software made on known h = cc
  after_hardware-raised allow (ok u) false hardware software made on known h =
      answer-raised (engine.run software) made (ground arith)
  after_hardware-raised allow (raised x) matches hardware software made on known h =
      answer-raised (engine.run software) made (ground (arith, known x refl))

  again :
      (allow : Bool) (call : Result (Unit {0})) (matches : Bool) (hardware software : Action)
      (made : TranscodeResult)
      → allow ≡ true
      → call ≡ raised Exception.transcode_cancelled
      → (after_hardware engine allow call matches hardware software made).actions
        ≡ hardware ∷ software ∷ []
  unfolding after_hardware
  again allow (ok u) matches hardware software made on h = cc
  again allow (raised x) matches hardware software made on h = ground arith

  module _ (size : ℕ × ℕ) (profile : QualityProfile) (target : CodecPreference)
      (decoder encoder : String) where
    -- Where the CPU fallback is allowed and ffmpeg's calls raise RuntimeErrors at most, a transcode
    -- raises what the CPU's command raises, and nothing else, whatever becomes of the hardware's.
    pub transcode_with-fallback :
        {e : Exception}
        → ((action : Action) (x : Exception)
            → engine.run action ≡ raised x
            → is_runtime_error x ≡ true)
        → (transcode_with engine size profile target (decoder, encoder)).outcome ≡ raised e
        → engine.run (cpu_action engine size.0 size.1 profile target) ≡ raised e
    unfolding transcode_with
    transcode_with-fallback {e} known h = elim (Bool-cases (encoder =ₛ "")) [
      | inl soft ↦
          answer-raised (engine.run (cpu_action engine size.0 size.1 profile target)) _
            (rw (transcode_with, soft) at h)
      | inr hard ↦
          after_hardware-raised engine.allow_cpu_fallback
            (engine.run (rkmpp_action engine size.0 size.1 profile decoder encoder))
            (output_matches_profile engine
              (rkmpp_action engine size.0 size.1 profile decoder encoder) profile)
            (rkmpp_action engine size.0 size.1 profile decoder encoder)
            (cpu_action engine size.0 size.1 profile target) _ allowed (known _)
            (rw (transcode_with, hard) at h)
    ]

    -- Where the CPU fallback is allowed, a transcode that is cancelled while the hardware is at work
    -- begins the CPU's command.
    pub cancelled_begins_again :
        (encoder =ₛ "") ≡ false
        → engine.run (rkmpp_action engine size.0 size.1 profile decoder encoder)
          ≡ raised Exception.transcode_cancelled
        → (transcode_with engine size profile target (decoder, encoder)).actions
          ≡ rkmpp_action engine size.0 size.1 profile decoder encoder
            ∷ cpu_action engine size.0 size.1 profile target
            ∷ []
    unfolding transcode_with
    cancelled_begins_again hard cancelled =
        rw (transcode_with, hard) (again engine.allow_cpu_fallback _ _ _ _ _ allowed cancelled)
