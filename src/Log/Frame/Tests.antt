-- ===== src/Log/Frame/Tests.antt =====
-- A held record that takes continuation lines, and the theorems about caps at it.
use nyanpasu_service.Prelude.{◌+◌, ◌≤◌, ◌≡◌, refl, none, List, [], ◌∷◌, false, arith, length}
use nyanpasu_service.Text.{
  Text, bytes, append_bounded, truncate_text, char_boundary_at_or_below, is_char_boundary,
}
use nyanpasu_service.Kind.{ClashCoreKind}
use nyanpasu_service.Log.Frame.{
  LogLevel, LogStream, LogFrame, Pending, append, bound_frame, bound_target, bound_timestamp,
  bound_fields, max_continuation_lines,
}
use nyanpasu_service.Log.Frame.Caps.{append_all, continued, append_all_uncut, bound_frame_uncut}

abbrev root : LogFrame
root = record {
  at = 1;
  epoch = 7;
  kind = ClashCoreKind.mihomo;
  stream = LogStream.stderr;
  level = LogLevel.fatal;
  timestamp = none;
  target = none;
  message = bytes "boom";
  fields = [];
  raw = bytes "level=fatal boom";
  truncated = false;
}

abbrev held : Pending
held = record { frame = root; continuations = 0 }

abbrev stack : List Text
stack = bytes "  at a" ∷ [] ∷ []

append_all_uncut_example :
    ((append_all held stack).frame.raw ≡ continued (bytes "level=fatal boom") stack)
    × ((append_all held stack).frame.message ≡ continued (bytes "boom") stack)
    × (0 + length stack ≤ max_continuation_lines)
unfolding append append_all append_bounded char_boundary_at_or_below is_char_boundary
append_all_uncut_example = append_all_uncut held stack (omega arith) refl

bound_frame_uncut_example : bound_frame root ≡ root
unfolding bound_frame bound_target bound_timestamp bound_fields truncate_text
bound_frame_uncut_example = bound_frame_uncut root refl
