-- ===== src/Render/Compose/Fit.antt =====
-- Drawing one frame into its cell never panics, and only an invalid transform or contract is an error.
use mathlib.Core.Path.{◌≡◌}
use camera_man.Base.{
  ℕ, ◌+◌, ◌*◌, ◌≤◌, ◌<◌, min, max, sym, ◌∙◌, arith, u32_mod, Bool, true, false, not, ◌&&◌, ◌||◌,
  ◌==◌, Bool-cases, inl, inr, ok, err, Result-cases, Keeps, Long,
}
use camera_man.Frame.Buffer.{Frame}
use camera_man.Frame.Buffer.Valid.{IsValidFrame}
use camera_man.Layout.{Cell}
use camera_man.Layout.Inside.Grid.{Inside}
use camera_man.Media.Contract.{validate_contract, is_canonical_bgra}
use camera_man.Media.Transform.{SourceTransform, is_identity, validate_transform}
use camera_man.Render.Bilinear.Upright.Safe.{paste_bilinear-Keeps}
use camera_man.Render.Cache.{SamplingKey, TransformedSamplingKey, get_map, sampling_map}
use camera_man.Render.Cache.Transparent.{IsSound, get_map-IsSound}
use camera_man.Render.Compose.Safe.{Drawn, written-Drawn, unchanged-Drawn, paste_transformed-Drawn}
use camera_man.Render.Compose.{
  Canvas, Drawing, centred, drawable, paste_scaled, paste_upright, paste_aspect_fit,
}
use camera_man.Render.Paste.Upright.{paste_unscaled-Keeps, paste_nearest-Keeps}
use camera_man.Render.Placement.{Fitted}
use camera_man.Render.Premultiplied.{Floats}
use camera_man.Worker.{ScalingFilter, nearest, bilinear}

pub checks_of :
    (input : Frame) (transform : SourceTransform)
    → drawable input transform ≡ ok tt
    → (validate_transform transform ≡ ok tt)
      × (validate_contract input.contract input.width input.height ≡ ok tt)
checks_of input transform e = ground arith

-- The test of the compiler on the keys of transformed frames is exact.
module _ (f : Floats) (fitted : Fitted)
    (eq : TransformedSamplingKey → TransformedSamplingKey → Bool)
    (exact : (a b : TransformedSamplingKey) → eq a b ≡ true → a ≡ b) (ow oh : ℕ) (input : Frame)
    (cell : Cell) (filter : ScalingFilter) (valid : IsValidFrame input) (bw : input.width < u32_mod)
    (bh : input.height < u32_mod) (inside : Inside ow oh cell) (some_wide : 0 < cell.width)
    (some_high : 0 < cell.height) (small_w : ow < u32_mod) (small_h : oh < u32_mod) where
  abbrev Ends : Type 0 → Drawing → Type 0
  Ends Ready drawing = Keeps (Drawn f.position (ow * oh * 4) Ready) drawing

  abbrev upright_key : (dw dh : ℕ) → ScalingFilter → SamplingKey
  upright_key dw dh filter = record {
    source_width = input.width;
    source_height = input.height;
    dest_width = dw;
    dest_height = dh;
    scaling_filter = filter;
  }

  paste_scaled-Drawn :
      (x y dw dh : ℕ) (filter : ScalingFilter) (Ready : Type 0) (canvas : Canvas)
      → x + dw ≤ ow
      → y + dh ≤ oh
      → IsSound f.position canvas.cache
      → Long (ow * oh * 4) canvas.bytes
      → Ends Ready (paste_scaled f fitted eq ow input x y dw dh filter canvas)
  unfolding paste_scaled sampling_map
  paste_scaled-Drawn x y dw dh nearest Ready canvas right bottom s l =
      let key = upright_key dw dh nearest in
      let found = get_map-IsSound f.position canvas.cache key s in
      rw (found.0, paste_scaled)
        (written-Drawn f.position (ow * oh * 4) Ready (get_map f.position canvas.cache key).0 _
          found.1
          (paste_nearest-Keeps ow oh input.width input.height input.bytes x y dw dh valid.exact
            right bottom canvas.bytes valid.wide valid.high l))
  paste_scaled-Drawn x y dw dh bilinear Ready canvas right bottom s l =
      let key = upright_key dw dh bilinear in
      let found = get_map-IsSound f.position canvas.cache key s in
      rw (found.0, paste_scaled)
        (written-Drawn f.position (ow * oh * 4) Ready (get_map f.position canvas.cache key).0 _
          found.1
          (paste_bilinear-Keeps ow oh input.width input.height input.bytes x y dw dh f.position
            valid.exact right bottom valid.wide valid.high canvas.bytes l))

  paste_upright-Drawn :
      (Ready : Type 0) (canvas : Canvas)
      → IsSound f.position canvas.cache
      → Long (ow * oh * 4) canvas.bytes
      → Ends Ready (paste_upright f fitted eq ow input cell filter canvas)
  unfolding paste_upright
  paste_upright-Drawn Ready canvas s l =
      let size = fitted (input.width, input.height) cell in
      let dw = min (max size.0 1) cell.width in
      let dh = min (max size.1 1) cell.height in
      let x = centred cell.x cell.width dw in
      let y = centred cell.y cell.height dh in
      let right : x + dw ≤ ow = omega (arith, inside.0) in
      let bottom : y + dh ≤ oh = omega (arith, inside.1) in
      elim (Bool-cases (dw == input.width && dh == input.height)) [
        | inl same ↦
            rw (same, paste_upright)
              (written-Drawn f.position (ow * oh * 4) Ready canvas.cache _ s (
                paste_unscaled-Keeps ow oh input.width input.height input.bytes x y dw dh
                  valid.exact right bottom canvas.bytes (ground arith) (ground arith) l))
        | inr scaled ↦
            rw (scaled, paste_upright)
              (paste_scaled-Drawn x y dw dh filter Ready canvas right bottom s l)
      ]

  -- A frame is drawn into a cell of some size without a panic; its transform is applied, and where
  -- transform and contract are valid there is no error.
  pub paste_aspect_fit-Drawn :
      (transform : SourceTransform) (Ready : Type 0) (canvas : Canvas)
      → (Ready → drawable input transform ≡ ok tt)
      → IsSound f.position canvas.cache
      → Long (ow * oh * 4) canvas.bytes
      → Ends Ready (paste_aspect_fit f fitted eq ow input cell filter transform canvas)
  unfolding paste_aspect_fit
  paste_aspect_fit-Drawn transform Ready canvas ready s l =
      let full : (input.width == 0 || input.height == 0) ≡ false =
        ground (arith, valid.wide, valid.high) in
      let room : (cell.width == 0 || cell.height == 0) ≡ false = ground arith in
      elim (Result-cases (drawable input transform)) [
        | inr (e, refused) ↦
            rw (full, room, refused, paste_aspect_fit)
              (unchanged-Drawn f.position (ow * oh * 4) Ready canvas (err e) s l
                (λ r. sym refused ∙ ready r))
        | inl (done, accepted) ↦
            let checks = checks_of input transform accepted in
            elim (Bool-cases (
              not (is_identity transform)
              || not (is_canonical_bgra input.contract input.width input.height))) [
                | inr upright ↦
                    rw (full, room, accepted, upright, paste_aspect_fit)
                      (paste_upright-Drawn Ready canvas s l)
                | inl turned ↦
                    rw (full, room, accepted, turned, paste_aspect_fit)
                      (paste_transformed-Drawn f fitted eq exact ow oh input cell filter valid bw bh
                        inside some_wide some_high small_w small_h transform Ready canvas checks.0
                        checks.1 s l)
              ]
      ]
