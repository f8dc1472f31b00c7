-- ===== src/Tests/Worker.antt =====
-- The render worker on a short history: one job that is not to be published.
use camera_man.Base.{ℕ, ◌+◌, ◌≤◌, true, false, none, some, ok, List, [], ◌∷◌}
use camera_man.Layout.{row}
use camera_man.Media.Formats.{hd_1080p_bgra}
use camera_man.Tests.Samples.{small_frame}
use camera_man.Worker.{RenderJob, nearest}
use camera_man.Worker.Machine.{
  Event, Answers, submitted, disconnected, result_taken, worked, start, happen, history,
}
use camera_man.Worker.Machine.Counters.{Counted, history-Counted}
use camera_man.Worker.Machine.Quiet.{on_its_way, disconnect_output_quiet}

abbrev preview_job : RenderJob
preview_job = record {
  frames = some small_frame ∷ [];
  layout = row;
  format = hd_1080p_bgra;
  epoch = 4;
  live = true;
  publish_virtual = false;
  force_preview = false;
  scaling_filter = nearest;
  preview_size = none;
  source_transforms = [];
}

abbrev published_job : RenderJob
published_job = record preview_job { publish_virtual = true }

abbrev answers : Answers ℕ
answers = record {
  composition = ok small_frame;
  connection = ok tt;
  delivery = ok tt;
  preview = some 1;
  producer = none;
  consumer = none;
}

abbrev turns : List (Event ℕ)
turns = worked answers ∷ worked answers ∷ worked answers ∷ worked answers ∷ []

abbrev rendered_once : List (Event ℕ)
rendered_once =
    submitted preview_job
    ∷ worked answers
    ∷ worked answers
    ∷ worked answers
    ∷ worked answers
    ∷ result_taken
    ∷ []

history-Counted_example : Counted (history start (submitted published_job ∷ turns))
history-Counted_example = history-Counted (submitted published_job ∷ turns)

disconnect_output_quiet_example :
    (history (happen (history start (submitted published_job ∷ turns)) disconnected) turns).sends
    ≤ (history start (submitted published_job ∷ turns)).sends
      + on_its_way (history start (submitted published_job ∷ turns)).phase
disconnect_output_quiet_example =
    disconnect_output_quiet (history start (submitted published_job ∷ turns)) turns
      (tt, (tt, (tt, (tt, tt))))
