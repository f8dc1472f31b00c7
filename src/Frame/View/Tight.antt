-- ===== src/Frame/View/Tight.antt =====
-- A frame seen as a view and copied back is the same frame.
use camera_man.Base.{
  ℕ, zero, suc, ◌+◌, ◌*◌, ◌≤◌, ◌≡◌, sym, ap, refl, ◌∙◌, ok, arith, List, ◌++◌, length, drop,
  take-append-drop, drop-drop, drop_all,
}
use camera_man.Media.Formats.{bytes_per_pixel, bytes_per_pixel-four}
use camera_man.Media.Contract.{validate_contract}
use camera_man.Frame.Limits.{FrameLimits, byte_len_ok}
use camera_man.Frame.Buffer.{Frame, new_checked_with_limits, set_contract}
use camera_man.Frame.Buffer.Valid.{IsValidFrame}
use camera_man.Frame.View.{
  FrameView, as_view, row_slice, rows_from, to_owned_tightly_packed_with_limits,
}

-- The rows that are left make up the bytes that are left.
tight_rows :
    (v : FrameView) (count y : ℕ)
    → v.row_stride ≡ v.active_row_bytes
    → length v.bytes ≡ (y + count) * v.row_stride
    → rows_from v count y ≡ drop (y * v.row_stride) v.bytes
unfolding rows_from
tight_rows v zero y s e = sym (drop_all (y * v.row_stride) v.bytes (omega arith))
tight_rows v (suc count) y s e =
    ap (λ (rest : List ℕ). row_slice v y ++ rest)
      (tight_rows v count (y + 1) s (omega arith)
        ∙ sym (
            drop-drop (y * v.row_stride) v.row_stride ((y + 1) * v.row_stride) v.bytes
              (omega arith)))
    ∙ rw s (take-append-drop v.active_row_bytes (drop (y * v.active_row_bytes) v.bytes))

as_view_rows : (f : Frame) → IsValidFrame f → rows_from (as_view f) f.height 0 ≡ f.bytes
unfolding as_view
as_view_rows f v =
    let s : f.width * bytes_per_pixel f.pixel_format ≡ f.width * 4 =
      ap (λ (n : ℕ). f.width * n) (bytes_per_pixel-four f.pixel_format) in
    let z : 0 * (f.width * bytes_per_pixel f.pixel_format) ≡ 0 = omega arith in
    tight_rows (as_view f) f.height 0 refl (omega (arith, v.exact, ap (λ (n : ℕ). f.height * n) s))
    ∙ ap (λ (n : ℕ). drop n f.bytes) z

-- A valid frame with a valid contract, within the limits, survives the trip through a view.
pub to_owned-as_view :
    (f : Frame) (l : FrameLimits)
    → IsValidFrame f
    → validate_contract f.contract f.width f.height ≡ ok tt
    → length f.bytes ≤ l.max_frame_bytes
    → to_owned_tightly_packed_with_limits (as_view f) l ≡ ok f
unfolding to_owned_tightly_packed_with_limits as_view new_checked_with_limits set_contract
to_owned-as_view f l v c small = ground (
  arith,
  as_view_rows f v,
  byte_len_ok f.width f.height f.pixel_format l v.wide v.high,
  v.exact,
  v.word,
  c,
)
