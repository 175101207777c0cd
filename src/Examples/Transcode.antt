-- ===== src/Examples/Transcode.antt =====
-- The theorems on the transcoder, at a 4K source that is asked for in 1080p.
use media_engine.Prelude.{
  ℕ, true, false, none, some, [], ◌∷◌, ◌≡◌, ◌≤◌, ◌%◌, refl, arith, Exception, Result, ok, raised,
}
use media_engine.JobQueue.Records.{QualityTarget, CodecPreference, TranscodeRequest}
use media_engine.Transcode.Profiles.{fhd_profile, choose_profile}
use media_engine.Transcode.Engine.{
  MediaInfo, Action, Engine, cpu_action, rkmpp_action, compute_scaled_dimensions, select_profile,
  resolve_codec, should_remux, select_rkmpp_codecs, output_matches_profile,
}
use media_engine.Transcode.Process.{
  TranscodeResult, process, process_video, transcode, transcode_with, after_hardware,
}
use media_engine.Transcode.Outputs.{compute_scaled_dimensions-bounds}
use media_engine.Transcode.Delivery.{Delivers, process-Delivers}
use media_engine.Transcode.Fallback.{transcode_with-fallback, cancelled_begins_again}

abbrev source : MediaInfo
source = record {
  container = some "matroska,webm";
  video = some (record { codec_name = some "hevc"; width = some 3840; height = some 2160 });
  has_audio = true;
}

abbrev encoded : MediaInfo
encoded = record {
  container = some "mov,mp4,m4a";
  video = some (record { codec_name = some "h264"; width = some 1920; height = some 1080 });
  has_audio = true;
}

abbrev engine_with : (Action → Result (Unit {0})) → Engine
engine_with run = record {
  lower = λ text. text;
  ffmpeg_decoders = "hevc_rkmpp" ∷ [];
  ffmpeg_encoders = "h264_rkmpp" ∷ [];
  allow_cpu_fallback = true;
  run = run;
  probe_output = λ action. some encoded;
  halves = λ width height profile. (960, 540);
}

abbrev engine : Engine
engine = engine_with (λ action. ok tt)

abbrev cancelling : Engine
cancelling = engine_with (λ action. raised Exception.transcode_cancelled)

abbrev request : TranscodeRequest
request = record {
  quality = QualityTarget.fhd_1080p;
  codec = CodecPreference.h264;
  callback_url = none;
}

compute_scaled_dimensions-bounds_example :
    (16 ≤ 1920)
    × (1920 ≤ 1920)
    × (◌≡◌ {A = ℕ} (1920 % 2) 0)
    × (16 ≤ 1080)
    × (1080 ≤ 1080)
    × (◌≡◌ {A = ℕ} (1080 % 2) 0)
unfolding compute_scaled_dimensions
compute_scaled_dimensions-bounds_example =
    compute_scaled_dimensions-bounds engine 3840 2160 QualityTarget.fhd_1080p
      {profile = fhd_profile} refl

abbrev result : TranscodeResult
result = record { remuxed = false; profile = some fhd_profile; codec = CodecPreference.h264 }

process-Delivers_example :
    Delivers engine source request (process engine (ok source) request) result
unfolding process process_video select_profile choose_profile resolve_codec should_remux transcode
    select_rkmpp_codecs after_hardware output_matches_profile
process-Delivers_example = process-Delivers engine source request {result = result} refl

transcode_with-fallback_example :
    cancelling.run (cpu_action cancelling 3840 2160 fhd_profile CodecPreference.h264)
    ≡ raised Exception.transcode_cancelled
unfolding transcode_with after_hardware
transcode_with-fallback_example =
    transcode_with-fallback cancelling refl (3840, 2160) fhd_profile CodecPreference.h264
      "hevc_rkmpp" "h264_rkmpp" {e = Exception.transcode_cancelled} (λ action x e. ground arith)
      refl

cancelled_begins_again_example :
    (transcode_with cancelling
      (3840, 2160)
      fhd_profile
      CodecPreference.h264
      ("hevc_rkmpp", "h264_rkmpp")).actions
    ≡ rkmpp_action cancelling 3840 2160 fhd_profile "hevc_rkmpp" "h264_rkmpp"
      ∷ cpu_action cancelling 3840 2160 fhd_profile CodecPreference.h264
      ∷ []
cancelled_begins_again_example =
    cancelled_begins_again cancelling refl (3840, 2160) fhd_profile CodecPreference.h264
      "hevc_rkmpp" "h264_rkmpp" refl refl
