-- ===== src/Transcode/Engine.antt =====
-- app/transcode/engine.py: how a file is remuxed or transcoded. What ffmpeg and ffprobe come to, the
-- rounding of dimensions in floating point and `str.lower` are the fields of an engine.
use media_engine.Prelude.{
  ℕ, String, Bool, true, false, Option, none, some, List, [], ◌∷◌, ◌&&◌, ◌||◌, not, ◌==◌, ◌=ₛ◌, ◌*◌,
  leb, ltb, max, min, if◌then◌else◌, contains, Exception, Result, ok, is_none, or_raise, ◌>>=◌,
}
use text.Mathlib.Text.{find?}
use media_engine.JobQueue.Records.{QualityTarget, CodecPreference}
use media_engine.Transcode.Profiles.{QualityProfile, choose_profile}

-- A video stream as probe_media reports it; whether there is an audio stream.
pub record VideoStream : Type 0 where
  pub codec_name : Option String
  pub width : Option ℕ
  pub height : Option ℕ

pub record MediaInfo : Type 0 where
  pub container : Option String
  pub video : Option VideoStream
  pub has_audio : Bool

-- A call of ffmpeg, by what its command says.
pub data Action : Type 0 where
  remux extract_audio : Action
  cpu : (video_codec : String) (bitrate : ℕ) (scaled padded : ℕ × ℕ) → Action
  rkmpp :
      (decoder encoder : String) (rates : List String) (bitrate : ℕ) (scaled target : ℕ × ℕ)
      → Action

-- `run` is `_run_ffmpeg` up to its return or exception, and `probe_output` the probe of the file
-- that an action wrote. `halves` is `round(src * ratio / 2)` for the width and the height.
pub record Engine : Type 0 where
  pub lower : String → String
  pub ffmpeg_decoders : List String
  pub ffmpeg_encoders : List String
  pub allow_cpu_fallback : Bool
  pub run : Action → Result (Unit {0})
  pub probe_output : Action → Option MediaInfo
  pub halves : ℕ → ℕ → QualityProfile → ℕ × ℕ

abbrev pub same_codec : CodecPreference → CodecPreference → Bool
same_codec CodecPreference.auto CodecPreference.auto = true
same_codec CodecPreference.h264 CodecPreference.h264 = true
same_codec CodecPreference.h265 CodecPreference.h265 = true
same_codec _ _ = false

module _ (engine : Engine) where
  -- `_map_codec_name`
  unfoldable pub map_codec_name : Option String → Option CodecPreference
  unfolding contains
  map_codec_name none = none
  map_codec_name (some codec) =
      if codec =ₛ ""
      then none
      else let value = engine.lower codec in
        if contains value ("h264" ∷ "avc1" ∷ "avc" ∷ [])
        then some CodecPreference.h264
        else if contains value ("h265" ∷ "hevc" ∷ "hvc1" ∷ [])
        then some CodecPreference.h265
        else none

  abbrev pub codec_name_of : Option VideoStream → Option String
  codec_name_of none = none
  codec_name_of (some video) = video.codec_name

  abbrev pub positive : Option ℕ → Option ℕ
  positive none = none
  positive (some n) = if n == 0 then none else some n

  -- The dimensions of a stream that has both, neither being 0.
  abbrev pub dimensions : Option VideoStream → Option (ℕ × ℕ)
  dimensions none = none
  dimensions (some video) = elim (positive video.width) [
    | none ↦ none
    | some width ↦ elim (positive video.height) [ none ↦ none | some height ↦ some (width, height) ]
  ]

  -- `_select_profile`, with the dimensions that it read.
  unfoldable pub select_profile : MediaInfo → QualityTarget → Result ((ℕ × ℕ) × QualityProfile)
  select_profile info quality = or_raise (dimensions info.video) Exception.runtime_error >>= λ size.
      choose_profile size.0 size.1 quality >>= λ profile. ok (size, profile)

  -- `_resolve_codec`; the codec of a source is h264 or h265 where it has one.
  unfoldable pub resolve_codec : MediaInfo → QualityProfile → CodecPreference → CodecPreference
  unfolding map_codec_name
  resolve_codec info profile CodecPreference.auto =
      elim (map_codec_name (codec_name_of info.video)) [
        | some CodecPreference.h264 ↦ CodecPreference.h264
        | some CodecPreference.h265 ↦ CodecPreference.h265
        | _ ↦
            if same_codec profile.codec CodecPreference.auto
            then CodecPreference.h264
            else profile.codec
      ]
  resolve_codec info profile codec = codec

  abbrev pub is_mp4 : Option String → Bool
  is_mp4 none = false
  is_mp4 (some container) =
      not (container =ₛ "") && not (is_none (find? (engine.lower container) "mp4"))

  abbrev pub is_codec : Option CodecPreference → CodecPreference → Bool
  is_codec none target = false
  is_codec (some source) target = same_codec source target

  abbrev pub or_h264 : Option CodecPreference → CodecPreference
  or_h264 none = CodecPreference.h264
  or_h264 (some codec) = codec

  abbrev pub effective_target : CodecPreference → Option CodecPreference → CodecPreference
  effective_target CodecPreference.auto source = or_h264 source
  effective_target target source = target

  -- `_should_remux`
  unfoldable pub should_remux : MediaInfo → QualityProfile → CodecPreference → Bool
  unfolding map_codec_name
  should_remux info profile target = elim (dimensions info.video) [
    | none ↦ false
    | some (width, height) ↦
        let source = map_codec_name (codec_name_of info.video) in
        is_codec source (effective_target target source)
        && is_mp4 info.container
        && not (ltb profile.width width || ltb profile.height height)
  ]

  -- `_rkmpp_decoder_name`
  unfoldable pub rkmpp_decoder_name : String → Option String
  unfolding contains
  rkmpp_decoder_name codec_name =
      let codec = engine.lower codec_name in
      if codec =ₛ "av1"
      then some "av1_rkmpp"
      else if codec =ₛ "vp9"
      then some "vp9_rkmpp"
      else if codec =ₛ "vp8"
      then some "vp8_rkmpp"
      else if contains codec ("h264" ∷ "avc1" ∷ "avc" ∷ [])
      then some "h264_rkmpp"
      else if contains codec ("h265" ∷ "hevc" ∷ [])
      then some "hevc_rkmpp"
      else none

  -- `_rkmpp_encoder_name`
  abbrev pub rkmpp_encoder_name : CodecPreference → String
  rkmpp_encoder_name CodecPreference.h265 = "hevc_rkmpp"
  rkmpp_encoder_name _ = "h264_rkmpp"

  -- A name that ffmpeg lists, or "".
  abbrev pub offered : List String → Option String → String
  offered names none = ""
  offered names (some name) = if contains (engine.lower name) names then name else ""

  abbrev pub decoder_for : Option String → Option String
  decoder_for none = none
  decoder_for (some codec_name) = if codec_name =ₛ "" then none else rkmpp_decoder_name codec_name

  -- `_select_rkmpp_codecs`: the names of the decoder and the encoder; the hardware is used if the
  -- second is not empty.
  unfoldable pub select_rkmpp_codecs : MediaInfo → CodecPreference → String × String
  unfolding rkmpp_decoder_name contains
  select_rkmpp_codecs info target = (
    offered engine.ffmpeg_decoders (decoder_for (codec_name_of info.video)),
    offered engine.ffmpeg_encoders (some (rkmpp_encoder_name target)),
  )

  -- `_compute_scaled_dimensions` for dimensions that are not 0.
  unfoldable pub compute_scaled_dimensions : ℕ → ℕ → QualityProfile → ℕ × ℕ
  compute_scaled_dimensions width height profile =
      let rounded = engine.halves width height profile in
      (min (max 16 (rounded.0 * 2)) profile.width, min (max 16 (rounded.1 * 2)) profile.height)

  -- `_hevc_rate_control`
  abbrev pub hevc_rate_control : ℕ → List String
  hevc_rate_control width =
      if leb 3800 width
      then "8M" ∷ "12M" ∷ "18M" ∷ []
      else if leb 2500 width
      then "5M" ∷ "8M" ∷ "12M" ∷ []
      else "3M" ∷ "5M" ∷ "8M" ∷ []

  -- The command of `_transcode_cpu`.
  unfoldable pub cpu_action : ℕ → ℕ → QualityProfile → CodecPreference → Action
  unfolding compute_scaled_dimensions
  cpu_action width height profile codec =
      cpu (if same_codec codec CodecPreference.h265 then "libx265" else "libx264")
        profile.video_bitrate (compute_scaled_dimensions width height profile)
        (profile.width, profile.height)

  -- The command of `_transcode_rkmpp`, whose list of filters has one element.
  unfoldable pub rkmpp_action : ℕ → ℕ → QualityProfile → String → String → Action
  unfolding compute_scaled_dimensions
  rkmpp_action width height profile decoder encoder =
      rkmpp decoder encoder
        (if encoder =ₛ "hevc_rkmpp" then hevc_rate_control profile.width else [])
        profile.video_bitrate (compute_scaled_dimensions width height profile)
        (profile.width, profile.height)

  abbrev pub is_within : QualityProfile → Option VideoStream → Bool
  is_within profile none = false
  is_within profile (some video) = elim video.width [
    | none ↦ false
    | some width ↦ elim video.height [
      | none ↦ false
      | some height ↦ leb width profile.width && leb height profile.height
    ]
  ]

  -- `_output_matches_profile`
  unfoldable pub output_matches_profile : Action → QualityProfile → Bool
  output_matches_profile action profile = elim (engine.probe_output action) [
    | none ↦ false
    | some info ↦ is_within profile info.video
  ]
