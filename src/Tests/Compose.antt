-- ===== src/Tests/Compose.antt =====
-- A frame of two pixels and an empty cell, composed into an output of four by two pixels.
use mathlib.Core.Option.{some_inj}
use camera_man.Base.{
  subst, ℕ, ◌+◌, ◌-◌, ◌*◌, ◌/◌, ◌<◌, ◌≡◌, refl, arith, min, ok, none, some, Option, List, [], ◌∷◌,
  replicate, Keeps, zero, suc,
}
use camera_man.Frame.Buffer.{Frame}
use camera_man.Frame.Buffer.Valid.{IsValidFrame}
use camera_man.Layout.{row}
use camera_man.Media.Contract.{canonical_bgra}
use camera_man.Media.Formats.{bgra8, VideoFormat}
use camera_man.Pipeline.{CapturedFrame}
use camera_man.Render.Cache.{SamplingCache}
use camera_man.Render.Cache.Keys.{transformed_key_eq, transformed_key_exact}
use camera_man.Render.Compose.{new_compositor, validate_output}
use camera_man.Render.Compose.Cells.{
  Source, compose_captured_into_with_transforms, captured_source_at,
}
use camera_man.Render.Compose.Cells.Safe.{IsSource, IsReady}
use camera_man.Render.Compose.Whole.{Composed, compose_captured-Composed}
use camera_man.Render.Placement.{Fitted}
use camera_man.Render.Premultiplied.{Floats}
use camera_man.Tests.Samples.{small_frame, quarter_crop}

-- Thousandths, in place of single precision.
abbrev thousandths : Floats
thousandths = record {
  Float = ℕ;
  zero_float = 0;
  one_float = 1000;
  plus = λ a b. a + b;
  times = λ a b. a * b / 1000;
  complement = λ a. 1000 - a;
  from_byte = λ n. n * 1000 / 255;
  from_limited_byte = λ n. min ((n - 16) * 1000 / 219) 1000;
  from_weight = λ n. n * 1000 / 256;
  from_per_mille = λ n. n;
  to_byte = λ n. min n 1000 * 255 / 1000;
  position = λ dest source_size dest_size. (dest * source_size / dest_size, 0);
}

abbrev whole_cell : Fitted
whole_cell display cell = (cell.width, cell.height)

abbrev frames : List (Option CapturedFrame)
frames =
    some (record {
      frame = small_frame;
      metadata = record { source_id = "a"; sequence = 1; monotonic = 0; wall = 0 };
    })
    ∷ none
    ∷ []

abbrev four_by_two : VideoFormat
four_by_two = record { width = 4; height = 2; fps = 30; pixel_format = bgra8 }

abbrev output : Frame
output = record {
  width = 4;
  height = 2;
  pixel_format = bgra8;
  contract = canonical_bgra 4 2;
  bytes = replicate 32 7;
}

abbrev empty_cache : SamplingCache
empty_cache = record { maps = []; transformed_maps = [] }

small_valid : IsValidFrame small_frame
small_valid = record { wide = omega arith; high = omega arith; exact = refl; word = omega arith }

output_valid : IsValidFrame output
output_valid = record { wide = omega arith; high = omega arith; exact = refl; word = omega arith }

source_valid :
    (i : ℕ) (source : Source)
    → captured_source_at frames (quarter_crop ∷ []) i ≡ some source
    → IsSource source
source_valid zero source e = subst IsSource (some_inj.0 e) (small_valid, omega arith, omega arith)
source_valid (suc zero) source e = subst IsSource (some_inj.0 e) tt
source_valid (suc (suc i)) source e = absurd (ground arith)

compose_captured-Composed_example :
    Keeps
      (Composed thousandths.position (
        (0 < 2)
        × (validate_output (new_compositor four_by_two) output ≡ ok tt)
        × ((i : ℕ) (source : Source)
            → captured_source_at frames (quarter_crop ∷ []) i ≡ some source
            → IsReady source)))
      (compose_captured_into_with_transforms thousandths whole_cell transformed_key_eq
        (new_compositor four_by_two)
        frames
        (quarter_crop ∷ [])
        row
        empty_cache
        output)
compose_captured-Composed_example =
    compose_captured-Composed thousandths whole_cell transformed_key_eq (new_compositor four_by_two)
      frames (quarter_crop ∷ []) row empty_cache output transformed_key_exact (omega arith)
      (omega arith) (omega arith) source_valid
      (record { small = omega arith; maps = tt; transformed = tt }) output_valid
