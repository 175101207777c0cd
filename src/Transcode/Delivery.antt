-- ===== src/Transcode/Delivery.antt =====
-- How app/transcode/engine.py, _process_sync, ends on a file.
use media_engine.Prelude.{
  ℕ, String, true, none, some, [], ◌∷◌, ◌≡◌, ◌≤◌, refl, sym, ap, subst, inl, inr, arith, Bool-cases,
  Option-cases, Result-cases, ok-injective, subst⁻¹, Result, ok, raised,
}
use media_engine.JobQueue.Records.{QualityTarget, CodecPreference, TranscodeRequest}
use media_engine.Transcode.Profiles.{
  QualityProfile, IsChosen, choose_profile, choose_profile-IsChosen,
}
use media_engine.Transcode.Engine.{
  MediaInfo, Action, Engine, codec_name_of, dimensions, select_profile, resolve_codec, is_codec,
  is_mp4, map_codec_name, should_remux, select_rkmpp_codecs, effective_target,
}
use media_engine.Transcode.Process.{
  TranscodeResult, Run, last_action, answer, transcode_with, transcode, process_audio_only,
  process_video, process_quality, process,
}
use media_engine.Transcode.Outputs.{IsMade, transcode_with-IsMade}

-- A remux of a source that has the target codec, in an MP4 container, within the profile.
pub record IsRemuxed (engine : Engine) (info : MediaInfo) (size : ℕ × ℕ) (profile : QualityProfile)
    (target : CodecPreference) (run : Run) : Type 0 where
  pub actions : run.actions ≡ Action.remux ∷ []
  pub copied : engine.run Action.remux ≡ ok tt
  pub narrow : size.0 ≤ profile.width
  pub low : size.1 ≤ profile.height
  pub codec :
      is_codec engine
        (map_codec_name engine (codec_name_of engine info.video))
        (effective_target engine target (map_codec_name engine (codec_name_of engine info.video)))
      ≡ true
  pub container : is_mp4 engine info.container ≡ true

should_remux-IsRemuxed :
    (engine : Engine) (info : MediaInfo) (size : ℕ × ℕ) (profile : QualityProfile)
    (target : CodecPreference) (run : Run)
    → dimensions engine info.video ≡ some size
    → should_remux engine info profile target ≡ true
    → run.actions ≡ Action.remux ∷ []
    → engine.run Action.remux ≡ ok tt
    → IsRemuxed engine info size profile target run
unfolding should_remux
should_remux-IsRemuxed engine info (width, height) profile target run d h a e =
    let tests = rw (should_remux, d) at h in
    record {
      actions = a;
      copied = e;
      narrow = ground (arith, tests);
      low = ground (arith, tests);
      codec = ground (arith, tests);
      container = ground (arith, tests);
    }

-- What a run that returns has made of a source: of its audio, or a video of the chosen profile.
pub data Delivers (engine : Engine) (info : MediaInfo) (request : TranscodeRequest) (run : Run)
    (result : TranscodeResult) : Type 0 where
  audio :
      request.quality ≡ QualityTarget.audio_only
      → run.actions ≡ Action.extract_audio ∷ []
      → engine.run Action.extract_audio ≡ ok tt
      → result.profile ≡ none
      → Delivers engine info request run result
  remuxed :
      (size : ℕ × ℕ) (profile : QualityProfile)
      → dimensions engine info.video ≡ some size
      → IsChosen size.0 size.1 request.quality profile
      → result.profile ≡ some profile
      → IsRemuxed engine info size profile result.codec run
      → Delivers engine info request run result
  transcoded :
      (size : ℕ × ℕ) (profile : QualityProfile)
      → dimensions engine info.video ≡ some size
      → IsChosen size.0 size.1 request.quality profile
      → result.profile ≡ some profile
      → IsMade engine size profile result.codec run
      → Delivers engine info request run result

select_profile-IsChosen :
    (engine : Engine) (info : MediaInfo) (quality : QualityTarget) {size : ℕ × ℕ}
    {profile : QualityProfile}
    → select_profile engine info quality ≡ ok (size, profile)
    → (dimensions engine info.video ≡ some size) × IsChosen size.0 size.1 quality profile
unfolding select_profile
select_profile-IsChosen engine info quality h = elim (Option-cases (dimensions engine info.video)) [
  | inl n ↦ ground arith
  | inr (found, d) ↦ elim (Result-cases (choose_profile found.0 found.1 quality)) [
    | inr (x, e) ↦ ground arith
    | inl (chosen, e) ↦
        subst (λ z. (dimensions engine info.video ≡ some z.0) × IsChosen z.0.0 z.0.1 quality z.1)
          (ok-injective (rw (select_profile, d, e) at h))
          (d, choose_profile-IsChosen found.0 found.1 quality e)
  ]
]

answer-ok :
    (call : Result (Unit {0})) (made : TranscodeResult) {result : TranscodeResult}
    → answer call made ≡ ok result
    → (call ≡ ok tt) × (made ≡ result)
answer-ok (ok u) made h = (refl, ok-injective h)
answer-ok (raised e) made h = cc

module _ (engine : Engine) (info : MediaInfo) (request : TranscodeRequest) where
  audio-Delivers :
      {result : TranscodeResult}
      → request.quality ≡ QualityTarget.audio_only
      → (process_audio_only engine info).outcome ≡ ok result
      → Delivers engine info request (process_audio_only engine info) result
  unfolding process_audio_only
  audio-Delivers q h = elim (Bool-cases info.has_audio) [
    | inr silent ↦ ground arith
    | inl heard ↦
        let (done, made) =
          answer-ok (engine.run Action.extract_audio) _ (rw (process_audio_only, heard) at h) in
        rw (process_audio_only, heard)
          (Delivers.audio q refl done (sym (ap (λ (r : TranscodeResult). r.profile) made)))
  ]

  module _ (size : ℕ × ℕ) (profile : QualityProfile) (target : CodecPreference)
      (d : dimensions engine info.video ≡ some size)
      (chosen : IsChosen size.0 size.1 request.quality profile) where
    remuxed-Delivers :
        {result : TranscodeResult}
        → should_remux engine info profile target ≡ true
        → (last_action engine [] Action.remux
            (record { remuxed = true; profile = some profile; codec = target })).outcome
          ≡ ok result
        → Delivers engine info request
            (last_action engine [] Action.remux
              (record { remuxed = true; profile = some profile; codec = target }))
            result
    remuxed-Delivers copies h =
        let made : TranscodeResult = record {
          remuxed = true;
          profile = some profile;
          codec = target;
        } in
        let run = last_action engine [] Action.remux made in
        let (done, made_is) = answer-ok (engine.run Action.remux) made h in
        subst (Delivers engine info request run) made_is (
          Delivers.remuxed size profile d chosen refl
            (should_remux-IsRemuxed engine info size profile target run d copies refl done))

    transcoded-Delivers :
        (codecs : String × String) {result : TranscodeResult}
        → (transcode_with engine size profile target codecs).outcome ≡ ok result
        → Delivers engine info request (transcode_with engine size profile target codecs) result
    transcoded-Delivers codecs h =
        let (made_is, made) =
          transcode_with-IsMade engine size profile target codecs.0 codecs.1 h in
        subst⁻¹ (Delivers engine info request (transcode_with engine size profile target codecs))
          made_is (Delivers.transcoded size profile d chosen refl made)

  video-Delivers :
      (selected : Result ((ℕ × ℕ) × QualityProfile)) {result : TranscodeResult}
      → select_profile engine info request.quality ≡ selected
      → (process_video engine info request.codec selected).outcome ≡ ok result
      → Delivers engine info request (process_video engine info request.codec selected) result
  unfolding process_video transcode
  video-Delivers (raised x) e h = cc
  video-Delivers (ok (size, profile)) e h =
      let target = resolve_codec engine info profile request.codec in
      let (d, chosen) = select_profile-IsChosen engine info request.quality e in
      elim (Bool-cases (should_remux engine info profile target)) [
        | inl copies ↦
            rw (process_video, copies)
              (remuxed-Delivers size profile target d chosen copies
                (rw (process_video, copies) at h))
        | inr encodes ↦
            rw (process_video, encodes)
              (transcoded-Delivers size profile target d chosen
                (select_rkmpp_codecs engine info target) (rw (process_video, encodes) at h))
      ]

  quality-Delivers :
      (quality : QualityTarget) {result : TranscodeResult}
      → request.quality ≡ quality
      → (process_quality engine info request.codec quality).outcome ≡ ok result
      → Delivers engine info request (process_quality engine info request.codec quality) result
  unfolding process_quality
  quality-Delivers QualityTarget.audio_only q h = audio-Delivers q h
  quality-Delivers QualityTarget.auto q h = video-Delivers _ (ap (select_profile engine info) q) h
  quality-Delivers QualityTarget.uhd_2160p q h =
      video-Delivers _ (ap (select_profile engine info) q) h
  quality-Delivers QualityTarget.fhd_1080p q h =
      video-Delivers _ (ap (select_profile engine info) q) h
  quality-Delivers QualityTarget.hd_720p q h =
      video-Delivers _ (ap (select_profile engine info) q) h
  quality-Delivers QualityTarget.sd_480p q h =
      video-Delivers _ (ap (select_profile engine info) q) h

  -- A call of the engine that returns has done one of three things. It has extracted the audio of a
  -- request for audio only. Or it has chosen the profile for the source's dimensions, and the
  -- source was remuxed, being within the profile, in the target codec and in MP4; or it was
  -- transcoded for the profile, by the CPU's command as the last one or by the hardware's alone, and
  -- then the dimensions that were measured of its output are within the profile's.
  pub process-Delivers :
      {result : TranscodeResult}
      → (process engine (ok info) request).outcome ≡ ok result
      → Delivers engine info request (process engine (ok info) request) result
  unfolding process
  process-Delivers h = quality-Delivers request.quality refl h
