-- ===== src/Capture/Open.antt =====
-- src/capture.rs: the requests that are tried when a camera is opened, in their order. The camera
-- library is an argument: its formats, its `Camera::new`, its stream and its errors.
use camera_man.Base.{
  ℕ, ◌<◌, ◌≡◌, refl, arith, max, Option, none, some, Result, ok, err, List, [], ◌∷◌, ◌++◌, map,
  length, length-append, subst, sym, All,
}
use camera_man.Error.{CameraManError, Checked}
use camera_man.Media.Formats.{VideoFormat}

-- The requests of `camera_request_candidates`; `Closest` carries width, height, format and rate.
pub data Request (Format : Type 0) : Type 0 where
  closest : (width height : ℕ) → Format → (fps : ℕ) → Request Format
  highest_frame_rate : (fps : ℕ) → Request Format
  absolute_highest_resolution : Request Format

unfoldable pub camera_request_candidates :
    {Format : Type 0} → (formats : List Format) → (target : VideoFormat) → List (Request Format)
camera_request_candidates formats target =
    map (λ format. closest (max target.width 1) (max target.height 1) format (max target.fps 1))
      formats
    ++ (highest_frame_rate (max target.fps 1) ∷ absolute_highest_resolution ∷ [])

module _ {Format Camera Failure : Type 0}
    (open_device : Request Format → Result Failure Camera) where
  -- The loop over the requests: the first camera that opens, or the last failure.
  unfoldable pub try_candidates :
      (last_error : Option Failure) → List (Request Format) → Result (Option Failure) Camera
  try_candidates last_error [] = err last_error
  try_candidates last_error (request ∷ rest) = elim (open_device request) [
    | ok camera ↦ ok camera
    | err e ↦ try_candidates (some e) rest
  ]

  module _ (start_stream : Camera → Checked Camera) (failed : Option Failure → CameraManError) where
    -- The texts of the contexts are part of `failed` and of `start_stream`.
    unfoldable pub open_camera_index :
        (formats : List Format) → (target : VideoFormat) → Checked Camera
    unfolding try_candidates camera_request_candidates
    open_camera_index formats target =
        elim (try_candidates none (camera_request_candidates formats target)) [
          | err e ↦ err (failed e)
          | ok camera ↦ start_stream camera
        ]

  -- A request that the camera library refuses.
  abbrev Fails : Request Format → Type 0
  Fails request = (e : Failure) × (open_device request ≡ err e)

  try_candidates-first :
      (last_error : Option Failure) (before : List (Request Format)) (request : Request Format)
      (after : List (Request Format)) (camera : Camera)
      → All Fails before
      → open_device request ≡ ok camera
      → try_candidates last_error (before ++ (request ∷ after)) ≡ ok camera
  unfolding try_candidates
  try_candidates-first last_error [] request after camera h e = rw (e, try_candidates) refl
  try_candidates-first last_error (r ∷ before) request after camera ((x, refused), h) e =
      rw (refused, try_candidates) (try_candidates-first (some x) before request after camera h e)

  try_candidates-none :
      (last_error : Option Failure) (requests : List (Request Format))
      → All Fails requests
      → 0 < length requests
      → (e : Failure) × (try_candidates last_error requests ≡ err (some e))
  unfolding try_candidates
  try_candidates-none last_error [] h p = absurd (omega arith)
  try_candidates-none last_error (r ∷ []) ((x, refused), h) p =
      (x, rw (refused, try_candidates) refl)
  try_candidates-none last_error (r ∷ s ∷ rest) ((x, refused), h) p =
      let (e, failed) = try_candidates-none (some x) (s ∷ rest) h (omega arith) in
      (e, rw (refused, try_candidates) failed)

  some_request :
      (formats : List Format) (target : VideoFormat)
      → 0 < length (camera_request_candidates formats target)
  unfolding camera_request_candidates
  some_request formats target = omega (
    arith,
    length-append
        (map
          (λ format. closest (max target.width 1) (max target.height 1) format (max target.fps 1))
          formats)
        (highest_frame_rate (max target.fps 1) ∷ absolute_highest_resolution ∷ []),
  )

  -- The camera is opened with the first request that succeeds, the closest formats before the others; if none does,
  -- the failure that is reported is one of the camera library's.
  pub open_camera_index-first :
      (start_stream : Camera → Checked Camera) (failed : Option Failure → CameraManError)
      (formats : List Format) (target : VideoFormat)
      → ((before : List (Request Format)) (request : Request Format) (after : List (Request Format))
            (camera : Camera)
          → camera_request_candidates formats target ≡ before ++ (request ∷ after)
          → All Fails before
          → open_device request ≡ ok camera
          → open_camera_index start_stream failed formats target ≡ start_stream camera)
        × (All Fails (camera_request_candidates formats target)
            → (e : Failure) × (open_camera_index start_stream failed formats target
                ≡ err (failed (some e))))
  unfolding open_camera_index
  open_camera_index-first start_stream failed formats target = (
    λ before request after camera e h opened.
        let found =
          subst (λ rs. try_candidates none rs ≡ ok camera) (sym e)
            (try_candidates-first none before request after camera h opened) in
        rw (found, open_camera_index) refl,
    λ h.
        let (e, refused) =
          try_candidates-none none (camera_request_candidates formats target) h
            (some_request formats target) in
        (e, rw (refused, open_camera_index) refl),
  )
