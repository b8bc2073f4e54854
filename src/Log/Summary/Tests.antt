-- ===== src/Log/Summary/Tests.antt =====
-- The summary of two frames.
use nyanpasu_service.Prelude.{◌<◌, ◌≡◌, ◌⊎◌, none, some, List, [], ◌∷◌, false, All}
use nyanpasu_service.Text.{bytes}
use nyanpasu_service.Kind.{ClashCoreKind}
use nyanpasu_service.Log.Frame.{LogLevel, LogStream, LogFrame, rank}
use nyanpasu_service.Log.Summary.{error_summary}
use nyanpasu_service.Log.Summary.Latest.{IsLatestWorst, error_summary_latest}

abbrev frame : LogLevel → LogFrame
frame level = record {
  at = 1;
  epoch = 7;
  kind = ClashCoreKind.meow;
  stream = LogStream.stdout;
  level = level;
  timestamp = none;
  target = none;
  message = bytes "text";
  fields = [];
  raw = bytes "text";
  truncated = false;
}

abbrev frames : List LogFrame
frames = frame LogLevel.error ∷ frame LogLevel.info ∷ frame LogLevel.warning ∷ []

error_summary_latest_example :
    ((f : LogFrame) × (error_summary frames ≡ some f.message) × IsLatestWorst frames f)
    ⊎ ((error_summary frames ≡ none) × All (λ g. rank g.level < rank LogLevel.warning) frames)
error_summary_latest_example = error_summary_latest frames
