-- ===== src/Tests/Samples.antt =====
-- Small concrete inputs.
use camera_man.Base.{ℕ, List, [], ◌∷◌, true, false, none, some}
use camera_man.Base.Int.{pos, negsuc}
use camera_man.Media.Formats.{bgra8}
use camera_man.Media.Colorimetry.{bt709_full_opaque, wire_code}
use camera_man.Media.Contract.{FrameContract, canonical_bgra, square, degrees90}
use camera_man.Media.Transform.{SourceTransform, fill}
use camera_man.Frame.Limits.{FrameLimits}
use camera_man.Frame.Buffer.{Frame, Bgra}
use camera_man.Frame.View.{FrameView}
use camera_man.Shm.Channel.{Region, SharedSlot}
use camera_man.Shm.Channel.Writer.{SharedFrameSink}
use camera_man.Shm.Channel.Reader.{SharedFrameReader}
use camera_man.Stream.Integrity.{FrameObservation}

-- Four by two pixels, of which the left column and the right one are not shown; displayed on its side.
abbrev pub turned : FrameContract
turned = record {
  colorimetry = bt709_full_opaque;
  pixel_aspect_ratio = square;
  clean_aperture = record { x = 1; y = 0; width = 2; height = 2 };
  transform = record { rotation = degrees90; mirror_horizontal = true; mirror_vertical = false };
}

abbrev pub quarter_crop : SourceTransform
quarter_crop = record {
  crop = record {
    left_per_mille = 250;
    top_per_mille = 0;
    right_per_mille = 250;
    bottom_per_mille = 500;
  };
  source_fit = fill;
  rotation = degrees90;
  mirror_horizontal = false;
  mirror_vertical = true;
  opacity_per_mille = 800;
  position_x_per_mille = pos 100;
  position_y_per_mille = negsuc 99;
}

abbrev pub wild_transform : SourceTransform
wild_transform = record quarter_crop {
  crop = record {
    left_per_mille = 900;
    top_per_mille = 0;
    right_per_mille = 900;
    bottom_per_mille = 500;
  };
  opacity_per_mille = 4000;
}

abbrev pub megabyte : FrameLimits
megabyte = record { max_frame_bytes = 1048576 }

abbrev pub two_pixels : List ℕ
two_pixels = 1 ∷ 2 ∷ 3 ∷ 255 ∷ 4 ∷ 5 ∷ 6 ∷ 255 ∷ []

abbrev pub small_frame : Frame
small_frame = record {
  width = 2;
  height = 1;
  pixel_format = bgra8;
  contract = canonical_bgra 2 1;
  bytes = two_pixels;
}

abbrev pub red : Bgra
red = record { blue = 0; green = 0; red = 255; alpha = 255 }

-- One pixel wide, two high, with four bytes of padding in a row.
abbrev pub padded_view : FrameView
padded_view = record {
  width = 1;
  height = 2;
  pixel_format = bgra8;
  contract = canonical_bgra 1 2;
  row_stride = 8;
  active_row_bytes = 4;
  bytes = 1 ∷ 2 ∷ 3 ∷ 4 ∷ 0 ∷ 0 ∷ 0 ∷ 0 ∷ 5 ∷ 6 ∷ 7 ∷ 8 ∷ [];
}

abbrev pub idle_slot : SharedSlot
idle_slot = record {
  state = 0;
  width = 0;
  height = 0;
  pixel_format = 1;
  fps = 30;
  color_contract = wire_code bt709_full_opaque;
  sequence = 0;
  generation = 0;
  monotonic_timestamp_nanos = 0;
  wall_timestamp_nanos = 0;
  data_len = 0;
}

-- A region of 64-byte slots that writer 42 has just claimed.
abbrev pub quiet_region : Region
quiet_region = record {
  header = record {
    magic_word = 1129136462;
    version_word = 5;
    slot_count_word = 3;
    active_slot = 4294967295;
    writer_pid = 42;
    consumer_pid = 0;
    writer_generation = 7;
    writer_process_start_token = 0;
    writer_heartbeat_monotonic_nanos = 0;
    consumer_generation = 0;
    consumer_sequence = 0;
    consumer_heartbeat_monotonic_nanos = 0;
    slot_capacity = 64;
    next_sequence = 0;
    slots = λ _. idle_slot;
  };
  slot_bytes = λ _. [];
}

abbrev pub open_sink : SharedFrameSink
open_sink = record {
  slot_capacity = 64;
  mapping = some quiet_region;
  target_fps = 30;
  next_slot = 1;
}

abbrev pub new_reader : SharedFrameReader
new_reader = record { slot_capacity = 64; last_sequence = none; writer_generation = 7 }

abbrev pub seen : FrameObservation
seen = record {
  width = 2;
  height = 1;
  pixel_format = bgra8;
  generation = 7;
  sequence = 10;
  monotonic_timestamp_nanos = 1000;
}
