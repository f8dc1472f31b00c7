-- ===== src/Render/Compose/Whole.antt =====
-- A composition never panics, and ends without an error where every frame is drawable.
use mathlib.Core.Path.{◌≡◌}
use camera_man.Base.{
  ℕ, ◌<◌, ◌*◌, refl, sym, ◌∙◌, arith, u32_mod, Bool, true, ◌==◌, Bool-cases, inl, inr, some, Option,
  ok, err, Result-cases, List, length, get_elem?_lt, Keeps, Long,
}
use camera_man.Error.{Checked, empty_input}
use camera_man.Frame.Buffer.{Frame}
use camera_man.Frame.Buffer.Valid.{IsValidFrame}
use camera_man.Layout.{CompositionLayout}
use camera_man.Media.Transform.{SourceTransform}
use camera_man.Pipeline.{CapturedFrame}
use camera_man.Render.Bilinear.{Position}
use camera_man.Render.Cache.{SamplingCache, TransformedSamplingKey}
use camera_man.Render.Cache.Transparent.{IsSound}
use camera_man.Render.Compose.{Compositor, validate_output}
use camera_man.Render.Compose.Cells.{
  Source, compose_with, captured_source_at, with_transform, captured_frame, transform_at,
  compose_captured_into_with_transforms,
}
use camera_man.Render.Compose.Cells.Safe.{IsSource, IsReady, Shown, draw_all-Drawn}
use camera_man.Render.Placement.{Fitted}
use camera_man.Render.Premultiplied.{Floats}

-- What a composition leaves: a sound cache, a valid output, and where all is ready no error.
pub record Composed (position : Position) (Ready : Type 0)
    (r : (SamplingCache × Frame) × Checked (Unit {0})) : Type 0 where
  pub sound : IsSound position r.0.0
  pub valid : IsValidFrame r.0.1
  pub drawn : Ready → r.1 ≡ ok tt

module _ (f : Floats) (fitted : Fitted)
    (eq : TransformedSamplingKey → TransformedSamplingKey → Bool)
    (exact : (a b : TransformedSamplingKey) → eq a b ≡ true → a ≡ b) (compositor : Compositor)
    (small_w : compositor.format.width < u32_mod) (small_h : compositor.format.height < u32_mod)
    (Ready : Type 0) where
  abbrev size : ℕ
  size = compositor.format.width * compositor.format.height * 4

  validated :
      (output : Frame)
      → validate_output compositor output ≡ ok tt
      → (output.width ≡ compositor.format.width) × (output.height ≡ compositor.format.height)
  unfolding validate_output
  validated output e = ground arith

  compose_with-Composed :
      (count : ℕ) (layout : CompositionLayout) (frame_at : ℕ → Option Source)
      (cache : SamplingCache) (output : Frame)
      → count < u32_mod
      → ((i : ℕ) → i < count → Shown f fitted eq exact compositor small_w small_h Ready frame_at i)
      → IsSound f.position cache
      → IsValidFrame output
      → (Ready → (0 < count) × (validate_output compositor output ≡ ok tt))
      → Keeps
          (Composed f.position Ready)
          (compose_with f fitted eq compositor count layout frame_at cache output)
  unfolding compose_with
  compose_with-Composed count layout frame_at cache output few shown s v ready =
      elim (Bool-cases (count == 0)) [
        | inl empty ↦ rw empty (
          ((cache, output), err empty_input),
          (refl, record { sound = s; valid = v; drawn = λ r. absurd (ground (arith, ready r)) }),
        )
        | inr some_frame ↦ elim (Result-cases (validate_output compositor output)) [
          | inr (e, refused) ↦
              rw (some_frame, refused)
                (
                  ((cache, output), err e),
                  (refl, record { sound = s; valid = v; drawn = λ r. sym refused ∙ (ready r).1 }),
                )
          | inl (done, accepted) ↦
              let same = validated output accepted in
              let long : Long size output.bytes = v.exact ∙ rw (same.0, same.1) refl in
              let (drawn, (found, d)) =
                draw_all-Drawn f fitted eq exact compositor small_w small_h Ready count layout
                  frame_at (record { cache = cache; bytes = output.bytes }) (ground arith) few shown
                  s long in
              rw (some_frame, accepted, found)
                (
                  ((drawn.0.cache, record output { bytes = drawn.0.bytes }), drawn.1),
                  (
                    refl,
                    record {
                      sound = d.sound;
                      valid = record {
                        wide = v.wide;
                        high = v.high;
                        exact = d.long ∙ rw (same.0, same.1) refl;
                        word = v.word;
                      };
                      drawn = d.drawn;
                    },
                  ),
                )
        ]
      ]

-- Sizes and the number of frames are of 32 bits, the test of the cache's keys is exact, the cache is sound, and
-- the output and the frames are valid: then composing the captured frames with their transforms never
-- panics, whatever the floating-point operations answer, and leaves a valid output and a sound cache. It
-- ends without an error where there is a frame, the output has the size of the format, and each frame
-- has a valid contract and a valid transform.
pub compose_captured-Composed :
    (f : Floats) (fitted : Fitted) (eq : TransformedSamplingKey → TransformedSamplingKey → Bool)
    (compositor : Compositor) (frames : List (Option CapturedFrame))
    (transforms : List SourceTransform) (layout : CompositionLayout) (cache : SamplingCache)
    (output : Frame)
    → ((a b : TransformedSamplingKey) → eq a b ≡ true → a ≡ b)
    → compositor.format.width < u32_mod
    → compositor.format.height < u32_mod
    → length frames < u32_mod
    → ((i : ℕ) (source : Source)
        → captured_source_at frames transforms i ≡ some source
        → IsSource source)
    → IsSound f.position cache
    → IsValidFrame output
    → Keeps
        (Composed f.position (
          (0 < length frames)
          × (validate_output compositor output ≡ ok tt)
          × ((i : ℕ) (source : Source)
              → captured_source_at frames transforms i ≡ some source
              → IsReady source)))
        (compose_captured_into_with_transforms f fitted eq compositor frames transforms layout cache
          output)
unfolding compose_captured_into_with_transforms
compose_captured-Composed f fitted eq compositor frames transforms layout cache output exact sw sh
      few sources s v =
    compose_with-Composed f fitted eq exact compositor sw sh _ (length frames) layout
      (captured_source_at frames transforms) cache output few
      (λ i k.
        let (captured, e) = get_elem?_lt frames i k in
        let source = with_transform (transform_at transforms i) (captured_frame captured) in
        let found : captured_source_at frames transforms i ≡ some source = rw e refl in
        (source, found, sources i source found, λ ready. ready.2 i source found))
      s v (λ ready. (ready.0, ready.1))
