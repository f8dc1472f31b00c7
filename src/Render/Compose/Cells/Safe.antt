-- ===== src/Render/Compose/Cells/Safe.antt =====
-- The cells of a composition are drawn without a panic, each from what it shows.
use mathlib.Core.Path.{◌≡◌}
use camera_man.Base.{
  ℕ, ◌<◌, ◌*◌, refl, sym, ◌∙◌, arith, u32_mod, Bool, true, false, not, ◌||◌, ◌==◌, ◌!=◌, Bool-cases,
  inl, inr, none, some, Option, ok, err, Result-cases, List, [], ◌∷◌, get_elem?-some,
  enumerate_from, All, All-enumerate_from, Keeps, Long,
}
use camera_man.Error.{CameraManError}
use camera_man.Frame.Buffer.{Frame, Bgra, pixel_bytes}
use camera_man.Frame.Buffer.Valid.{IsValidFrame}
use camera_man.Layout.{Cell, CompositionLayout, cells, whole_output}
use camera_man.Layout.Inside.{cells-Inside, length-cells}
use camera_man.Layout.Inside.Grid.{Inside}
use camera_man.Media.Transform.{SourceTransform, transform_scale}
use camera_man.Media.Transform.Compose.{apply_to_contract-Narrows}
use camera_man.Render.Bilinear.{Position}
use camera_man.Render.Cache.{TransformedSamplingKey}
use camera_man.Render.Cache.Transparent.{IsSound}
use camera_man.Render.Compose.{Compositor, Canvas, Drawing, drawable, paste_aspect_fit}
use camera_man.Render.Compose.Cells.{
  Source, then_draw, fill, draw_frame, draw_source, draw_cells, draw_background, draw_all,
}
use camera_man.Render.Compose.Safe.{Drawn, written-Drawn, unchanged-Drawn}
use camera_man.Render.Compose.Fit.{paste_aspect_fit-Drawn, checks_of}
use camera_man.Render.Paste.{cells_cover_output}
use camera_man.Render.Paste.Safe.{fill_cell-Keeps}
use camera_man.Render.Placement.{
  Fitted, frame_fully_overwrites_cell, is_opaque, fills_cell, transformed_placement,
}
use camera_man.Media.Coordinates.{display_dimensions}
use camera_man.Render.Premultiplied.{Floats}

then_draw-Drawn :
    (position : Position) (size : ℕ) (Ready : Type 0) (m : Drawing) (rest : Canvas → Drawing)
    → Keeps (Drawn position size Ready) m
    → ((canvas : Canvas)
        → IsSound position canvas.cache
        → Long size canvas.bytes
        → Keeps (Drawn position size Ready) (rest canvas))
    → Keeps (Drawn position size Ready) (then_draw m rest)
then_draw-Drawn position size Ready m rest ((canvas, ok done), (e, d)) h =
    rw e (h canvas d.sound d.long)
then_draw-Drawn position size Ready m rest ((canvas, err x), (e, d)) h =
    ((canvas, err x), (rw e refl, d))

-- With a transform and a contract that are valid, the question has an answer.
overwrites_total :
    (fitted : Fitted) (input : Frame) (cell : Cell) (transform : SourceTransform)
    → input.width < u32_mod
    → input.height < u32_mod
    → drawable input transform ≡ ok tt
    → (b : Bool) × (frame_fully_overwrites_cell fitted input cell transform ≡ ok b)
unfolding frame_fully_overwrites_cell
overwrites_total fitted input cell transform bw bh ready =
    let checks = checks_of input transform ready in
    let (c, applied, checked, narrowed) =
      apply_to_contract-Narrows transform input.contract input.width input.height bw bh checks.0
        checks.1 in
    elim (Bool-cases (cell.width == 0 || cell.height == 0)) [
      | inl empty ↦ (true, rw empty refl)
      | inr room ↦
          elim (Bool-cases (
            not (is_opaque input.contract.colorimetry.alpha)
            || (transform.opacity_per_mille != transform_scale))) [
              | inl seen ↦ (false, rw (room, checks.0, checks.1, seen) refl)
              | inr closed ↦ (
                fills_cell
                    (transformed_placement (fitted (display_dimensions c) cell) c cell transform)
                    cell,
                rw (room, checks.0, checks.1, closed, applied) refl,
              )
            ]
    ]

-- A frame that is not empty, with sides of 32 bits.
abbrev pub IsSource : Source → Type 0
IsSource none = Unit
IsSource (some (input, transform)) =
    IsValidFrame input × (input.width < u32_mod) × (input.height < u32_mod)

abbrev pub IsReady : Source → Type 0
IsReady none = Unit
IsReady (some (input, transform)) = drawable input transform ≡ ok tt

module _ (f : Floats) (fitted : Fitted)
    (eq : TransformedSamplingKey → TransformedSamplingKey → Bool)
    (exact : (a b : TransformedSamplingKey) → eq a b ≡ true → a ≡ b) (compositor : Compositor)
    (small_w : compositor.format.width < u32_mod) (small_h : compositor.format.height < u32_mod)
    (Ready : Type 0) where
  abbrev size : ℕ
  size = compositor.format.width * compositor.format.height * 4

  abbrev Ends : Drawing → Type 0
  Ends drawing = Keeps (Drawn f.position size Ready) drawing

  fill-Drawn :
      (cell : Cell) (bgra : Bgra) (canvas : Canvas)
      → Inside compositor.format.width compositor.format.height cell
      → IsSound f.position canvas.cache
      → Long size canvas.bytes
      → Ends (fill compositor.format.width cell bgra canvas)
  fill-Drawn cell bgra canvas inside s l = written-Drawn f.position size Ready canvas.cache _ s (
      fill_cell-Keeps compositor.format.width compositor.format.height cell inside
        (pixel_bytes bgra) refl canvas.bytes l)

  paste-Drawn :
      (input : Frame) (transform : SourceTransform) (cell : Cell) (canvas : Canvas)
      → IsSource (some (input, transform))
      → (Ready → drawable input transform ≡ ok tt)
      → Inside compositor.format.width compositor.format.height cell
      → IsSound f.position canvas.cache
      → Long size canvas.bytes
      → Ends (
          paste_aspect_fit f fitted eq compositor.format.width input cell compositor.scaling_filter
            transform canvas)
  unfolding paste_aspect_fit
  paste-Drawn input transform cell canvas source ready inside s l =
      let full : (input.width == 0 || input.height == 0) ≡ false =
        ground (arith, source.0.wide, source.0.high) in
      elim (Bool-cases (cell.width == 0 || cell.height == 0)) [
        | inl empty ↦
            rw (full, empty, paste_aspect_fit)
              (unchanged-Drawn f.position size Ready canvas (ok tt) s l (λ r. refl))
        | inr room ↦
            paste_aspect_fit-Drawn f fitted eq exact compositor.format.width
              compositor.format.height input cell compositor.scaling_filter source.0 source.1
              source.2 inside (ground arith) (ground arith) small_w small_h transform Ready canvas
              ready s l
      ]

  draw_frame-Drawn :
      (input : Frame) (transform : SourceTransform) (cell : Cell) (canvas : Canvas)
      → IsSource (some (input, transform))
      → (Ready → drawable input transform ≡ ok tt)
      → Inside compositor.format.width compositor.format.height cell
      → IsSound f.position canvas.cache
      → Long size canvas.bytes
      → Ends (draw_frame f fitted eq compositor input transform cell canvas)
  unfolding draw_frame
  draw_frame-Drawn input transform cell canvas source ready inside s l =
      elim (Result-cases (frame_fully_overwrites_cell fitted input cell transform)) [
        | inr (e, refused) ↦
            rw (refused, draw_frame)
              (unchanged-Drawn f.position size Ready canvas (err e) s l (λ r.
                let (b, answered) =
                  overwrites_total fitted input cell transform source.1 source.2 (ready r) in
                absurd (refute (sym answered ∙ refused))))
        | inl (true, overwrites) ↦
            rw (overwrites, draw_frame)
              (paste-Drawn input transform cell canvas source ready inside s l)
        | inl (false, open_cell) ↦
            rw (open_cell, draw_frame)
              (then_draw-Drawn f.position size Ready _ _
                (fill-Drawn cell compositor.empty_cell canvas inside s l)
                (λ next s' l'. paste-Drawn input transform cell next source ready inside s' l'))
      ]
    where
      refute : {b : Bool} {e : CameraManError} → ok b ≡ err e → ⊥
      refute h = ground arith

  draw_source-Drawn :
      (source : Source) (cell : Cell) (canvas : Canvas)
      → IsSource source
      → (Ready → IsReady source)
      → Inside compositor.format.width compositor.format.height cell
      → IsSound f.position canvas.cache
      → Long size canvas.bytes
      → Ends (draw_source f fitted eq compositor source cell canvas)
  unfolding draw_source
  draw_source-Drawn none cell canvas source ready inside s l =
      fill-Drawn cell compositor.empty_cell canvas inside s l
  draw_source-Drawn (some (input, transform)) cell canvas source ready inside s l =
      draw_frame-Drawn input transform cell canvas source ready inside s l

  -- What a cell shows is known, and is a frame that can be drawn or nothing.
  abbrev pub Shown : (ℕ → Option Source) → ℕ → Type 0
  Shown frame_at i =
      (source : Source) × (frame_at i ≡ some source) × IsSource source × (Ready → IsReady source)

  draw_cells-Drawn :
      (frame_at : ℕ → Option Source) (entries : List (ℕ × Cell)) (canvas : Canvas)
      → All
          (λ e. Shown frame_at e.0 × Inside compositor.format.width compositor.format.height e.1)
          entries
      → IsSound f.position canvas.cache
      → Long size canvas.bytes
      → Ends (draw_cells f fitted eq compositor frame_at entries canvas)
  unfolding draw_cells
  draw_cells-Drawn frame_at [] canvas h s l =
      unchanged-Drawn f.position size Ready canvas (ok tt) s l (λ r. refl)
  draw_cells-Drawn frame_at ((i, cell) ∷ rest) canvas ((shown, inside), h) s l =
      let (source, found, valid, ready) = shown in
      rw (found, draw_cells)
        (then_draw-Drawn f.position size Ready _ _
          (draw_source-Drawn source cell canvas valid ready inside s l)
          (λ next s' l'. draw_cells-Drawn frame_at rest next h s' l'))

  draw_background-Drawn :
      (all : List Cell) (canvas : Canvas)
      → IsSound f.position canvas.cache
      → Long size canvas.bytes
      → Ends (draw_background f fitted eq compositor all canvas)
  unfolding draw_background
  draw_background-Drawn all canvas s l =
      elim (Bool-cases (cells_cover_output all compositor.format.width compositor.format.height)) [
        | inl covered ↦
            rw covered (unchanged-Drawn f.position size Ready canvas (ok tt) s l (λ r. refl))
        | inr partly ↦ rw partly (
            fill-Drawn (whole_output compositor.format.width compositor.format.height)
              compositor.background canvas (omega arith, omega arith) s l)
      ]

  pub draw_all-Drawn :
      (count : ℕ) (layout : CompositionLayout) (frame_at : ℕ → Option Source) (canvas : Canvas)
      → 0 < count
      → count < u32_mod
      → ((i : ℕ) → i < count → Shown frame_at i)
      → IsSound f.position canvas.cache
      → Long size canvas.bytes
      → Ends (draw_all f fitted eq compositor count layout frame_at canvas)
  unfolding draw_all
  draw_all-Drawn count layout frame_at canvas some_frame few shown s l =
      let w = compositor.format.width in
      let h = compositor.format.height in
      let all = cells w h count layout in
      let many = length-cells w h count layout (omega arith) in
      then_draw-Drawn f.position size Ready _ _ (draw_background-Drawn all canvas s l)
        (λ next s' l'.
          draw_cells-Drawn frame_at (enumerate_from 0 all) next
            (All-enumerate_from _ 0 all (λ i j cell same found.
              let here = get_elem?-some all i cell found in
              (
                shown j (omega (arith, here, many, same)),
                cells-Inside w h count small_w small_h (omega arith) layout i cell
                    (omega (arith, here, many)) found,
              )))
            s' l')
