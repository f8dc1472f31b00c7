-- ===== src/Error.antt =====
-- src/error.rs: the error type that the library's fallible functions return. Message texts stay
-- native strings; `std::io::ErrorKind` is kept by its name.
use camera_man.Base.{ℕ, String, Result}

pub data CaptureErrorKind : Type 0 where
  permission_denied device_busy device_not_found disconnected unsupported timeout other :
      CaptureErrorKind

pub data CameraManError : Type 0 where
  empty_input : CameraManError
  empty_frame : CameraManError
  capture : CaptureErrorKind → String → CameraManError
  invalid_dimensions : (width height : ℕ) → CameraManError
  invalid_buffer_length : (expected actual : ℕ) → CameraManError
  invalid_row_stride : (minimum actual : ℕ) → CameraManError
  invalid_media_contract : String → CameraManError
  pixel_out_of_bounds : (x y width height : ℕ) → CameraManError
  buffer_too_large : (bytes : ℕ) → CameraManError
  frame_limit_exceeded : (bytes limit : ℕ) → CameraManError
  io : (kind message : String) → CameraManError
  unsupported_pixel_format : CameraManError
  virtual_camera_unavailable : String → CameraManError
  context : (operation : String) → CameraManError → CameraManError

abbrev pub Checked : Type 0 → Type 0
Checked A = Result CameraManError A
