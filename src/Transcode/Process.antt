-- ===== src/Transcode/Process.antt =====
-- app/transcode/engine.py, _process_sync: the actions that an engine takes on a file, in their order,
-- and how it ends.
use media_engine.Prelude.{
  ℕ, String, Bool, true, false, Option, none, some, List, [], ◌∷◌, ◌++◌, ◌=ₛ◌, ◌&&◌, if◌then◌else◌,
  Exception, Result, ok, raised,
}
use media_engine.JobQueue.Records.{QualityTarget, CodecPreference, TranscodeRequest}
use media_engine.Transcode.Profiles.{QualityProfile}
use media_engine.Transcode.Engine.{
  MediaInfo, Action, Engine, select_profile, resolve_codec, should_remux, select_rkmpp_codecs,
  cpu_action, rkmpp_action, output_matches_profile,
}

pub record TranscodeResult : Type 0 where
  pub remuxed : Bool
  pub profile : Option QualityProfile
  pub codec : CodecPreference

-- The actions that were begun, and what a call of the engine returns or raises.
pub record Run : Type 0 where
  pub actions : List Action
  pub outcome : Result TranscodeResult

-- `RuntimeError` and its subclasses, of the exceptions that ffmpeg's run raises.
abbrev pub is_runtime_error : Exception → Bool
is_runtime_error Exception.runtime_error = true
is_runtime_error Exception.transcode_cancelled = true
is_runtime_error _ = false

abbrev pub answer : Result (Unit {0}) → TranscodeResult → Result TranscodeResult
answer (ok _) result = ok result
answer (raised e) result = raised e

module _ (engine : Engine) where
  -- A last action, after others.
  abbrev pub last_action : List Action → Action → TranscodeResult → Run
  last_action before action result = record {
    actions = before ++ action ∷ [];
    outcome = answer (engine.run action) result;
  }

  -- After the hardware's call: the fallback, where it is allowed. `matches` is whether the output
  -- matches the profile.
  unfoldable pub after_hardware :
      Bool → Result (Unit {0}) → Bool → Action → Action → TranscodeResult → Run
  after_hardware allow_cpu_fallback (raised e) matches hardware software result =
      if is_runtime_error e && allow_cpu_fallback
      then last_action (hardware ∷ []) software result
      else record { actions = hardware ∷ []; outcome = raised e }
  after_hardware allow_cpu_fallback (ok _) true hardware software result = record {
    actions = hardware ∷ [];
    outcome = ok result;
  }
  after_hardware allow_cpu_fallback (ok _) false hardware software result =
      if allow_cpu_fallback
      then last_action (hardware ∷ []) software result
      else record { actions = hardware ∷ []; outcome = raised Exception.runtime_error }

  -- The part that is not a remux, with the names of the decoder and the encoder.
  unfoldable pub transcode_with : ℕ × ℕ → QualityProfile → CodecPreference → String × String → Run
  transcode_with (width, height) profile target (decoder, encoder) =
      let software = cpu_action engine width height profile target in
      let hardware = rkmpp_action engine width height profile decoder encoder in
      let result : TranscodeResult = record {
        remuxed = false;
        profile = some profile;
        codec = target;
      } in
      if encoder =ₛ ""
      then last_action [] software result
      else after_hardware engine.allow_cpu_fallback (engine.run hardware)
          (output_matches_profile engine hardware profile) hardware software result

  unfoldable pub transcode : MediaInfo → ℕ × ℕ → QualityProfile → CodecPreference → Run
  unfolding transcode_with
  transcode info size profile target =
      transcode_with size profile target (select_rkmpp_codecs engine info target)

  -- `_process_audio_only`
  unfoldable pub process_audio_only : MediaInfo → Run
  process_audio_only info =
      if info.has_audio
      then last_action [] Action.extract_audio
          (record { remuxed = false; profile = none; codec = CodecPreference.auto })
      else record { actions = []; outcome = raised Exception.runtime_error }

  -- The part for a file with a profile.
  unfoldable pub process_video :
      MediaInfo → CodecPreference → Result ((ℕ × ℕ) × QualityProfile) → Run
  process_video info codec (raised e) = record { actions = []; outcome = raised e }
  process_video info codec (ok (size, profile)) =
      let target = resolve_codec engine info profile codec in
      if should_remux engine info profile target
      then last_action [] Action.remux
          (record { remuxed = true; profile = some profile; codec = target })
      else transcode info size profile target

  unfoldable pub process_quality : MediaInfo → CodecPreference → QualityTarget → Run
  process_quality info codec QualityTarget.audio_only = process_audio_only info
  process_quality info codec quality = process_video info codec (select_profile engine info quality)

  -- `_process_sync` on what the probe of the source reports, or the probe's exception.
  unfoldable pub process : Result MediaInfo → TranscodeRequest → Run
  unfolding process_quality
  process (raised e) request = record { actions = []; outcome = raised e }
  process (ok info) request = process_quality info request.codec request.quality
