-- ===== src/Transcode/Profiles.antt =====
-- app/transcode/profiles.py: the quality profiles and the choice among them.
use media_engine.Prelude.{
  ℕ, Bool, none, some, List, [], ◌∷◌, ◌||◌, ◌≡◌, ◌≤◌, arith, leb, ltb, if◌then◌else◌, find,
  order_by, Exception, Result, ok, raised, All, ◌⊎◌,
}
use media_engine.JobQueue.Records.{QualityTarget, CodecPreference}

pub record QualityProfile : Type 0 where
  pub name : QualityTarget
  pub width : ℕ
  pub height : ℕ
  pub video_bitrate : ℕ
  pub codec : CodecPreference

abbrev pub uhd_profile : QualityProfile
uhd_profile = record {
  name = QualityTarget.uhd_2160p;
  width = 3840;
  height = 2160;
  video_bitrate = 8000000;
  codec = CodecPreference.h265;
}

abbrev pub fhd_profile : QualityProfile
fhd_profile = record {
  name = QualityTarget.fhd_1080p;
  width = 1920;
  height = 1080;
  video_bitrate = 8000000;
  codec = CodecPreference.h264;
}

abbrev pub hd_profile : QualityProfile
hd_profile = record {
  name = QualityTarget.hd_720p;
  width = 1280;
  height = 720;
  video_bitrate = 4000000;
  codec = CodecPreference.h264;
}

abbrev pub sd_profile : QualityProfile
sd_profile = record {
  name = QualityTarget.sd_480p;
  width = 848;
  height = 480;
  video_bitrate = 2500000;
  codec = CodecPreference.h264;
}

-- `PROFILES.values()`
abbrev pub profiles : List QualityProfile
profiles = uhd_profile ∷ fhd_profile ∷ hd_profile ∷ sd_profile ∷ []

-- `PROFILES[quality]`
abbrev pub profile_of : QualityTarget → Result QualityProfile
profile_of QualityTarget.uhd_2160p = ok uhd_profile
profile_of QualityTarget.fhd_1080p = ok fhd_profile
profile_of QualityTarget.hd_720p = ok hd_profile
profile_of QualityTarget.sd_480p = ok sd_profile
profile_of QualityTarget.auto = raised Exception.key_error
profile_of QualityTarget.audio_only = raised Exception.key_error

abbrev pub is_reached : ℕ → ℕ → QualityProfile → Bool
is_reached source_width source_height profile =
    leb profile.height source_height || leb profile.width source_width

-- `_best_fit_profile`
unfoldable pub best_fit_profile : ℕ → ℕ → QualityProfile
unfolding find order_by
best_fit_profile source_width source_height =
    elim (find (is_reached source_width source_height)
      (order_by (λ p q. ltb q.height p.height) profiles)) [
        | none ↦ sd_profile
        | some profile ↦ profile
      ]

unfoldable pub choose_profile : ℕ → ℕ → QualityTarget → Result QualityProfile
unfolding best_fit_profile
choose_profile source_width source_height QualityTarget.audio_only = raised Exception.value_error
choose_profile source_width source_height QualityTarget.auto =
    ok (best_fit_profile source_width source_height)
choose_profile source_width source_height request = elim (profile_of request) [
  | raised e ↦ raised e
  | ok desired ↦
      if is_reached source_width source_height desired
      then ok desired
      else ok (best_fit_profile source_width source_height)
]

-- The height that a request allows.
abbrev pub ceiling : QualityTarget → ℕ
ceiling QualityTarget.fhd_1080p = 1080
ceiling QualityTarget.hd_720p = 720
ceiling QualityTarget.sd_480p = 480
ceiling _ = 2160

-- The highest of the profiles that the source reaches, in height or in width, and that the request
-- allows; the lowest of all where there is none.
pub record IsChosen (source_width source_height : ℕ) (request : QualityTarget)
    (profile : QualityProfile) : Type 0 where
  pub known : profile_of profile.name ≡ ok profile
  pub allowed : profile.height ≤ ceiling request
  pub reached :
      (profile.height ≤ source_height) ⊎ (profile.width ≤ source_width) ⊎ (profile ≡ sd_profile)
  pub highest :
      All
        (λ p.
          (p.height ≤ source_height) ⊎ (p.width ≤ source_width)
          → p.height ≤ ceiling request
          → p.height ≤ profile.height)
        profiles

best_fit_profile-lem :
    (w h : ℕ)
    → best_fit_profile w h ≡ (
        if is_reached w h uhd_profile
        then uhd_profile
        else if is_reached w h fhd_profile
        then fhd_profile
        else if is_reached w h hd_profile
        then hd_profile
        else sd_profile)
unfolding best_fit_profile
best_fit_profile-lem w h = ground arith

pub choose_profile-IsChosen :
    (w h : ℕ) (request : QualityTarget) {profile : QualityProfile}
    → choose_profile w h request ≡ ok profile
    → IsChosen w h request profile
unfolding choose_profile
choose_profile-IsChosen w h QualityTarget.auto e = ground (arith, best_fit_profile-lem w h)
choose_profile-IsChosen w h QualityTarget.audio_only e = cc
choose_profile-IsChosen w h QualityTarget.uhd_2160p e = ground (arith, best_fit_profile-lem w h)
choose_profile-IsChosen w h QualityTarget.fhd_1080p e = ground (arith, best_fit_profile-lem w h)
choose_profile-IsChosen w h QualityTarget.hd_720p e = ground (arith, best_fit_profile-lem w h)
choose_profile-IsChosen w h QualityTarget.sd_480p e = ground (arith, best_fit_profile-lem w h)
