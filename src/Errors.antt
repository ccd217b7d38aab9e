-- ===== src/Errors.antt =====
-- Go's `error` values, as internal/cvr, internal/orchestrator, internal/goal and internal/control
-- build them: sentinels, plain messages, and errors that wrap another (`%w` and `LayerAErr`).
use primitive_box.Prelude.{String, ◌<>◌, Bool, true, false}

pub data Sentinel : Type 0 where
  deadline_exceeded depth_exceeded goal_paused review_conflict : Sentinel

-- `layer_a` is `LayerAErr`; `wrap s e` is `fmt.Errorf("s%w", e)`.
pub data GoError : Type 0 where
  sentinel : Sentinel → GoError
  message : String → GoError
  layer_a : GoError → GoError
  wrap : String → GoError → GoError

sentinel_text : Sentinel → String
sentinel_text deadline_exceeded = "context deadline exceeded"
sentinel_text depth_exceeded =
    "cvr_depth_exceeded: max recursion depth reached, no further recovery attempted"
sentinel_text goal_paused = "goal paused for review"
sentinel_text review_conflict = "conflicting review decision"

-- `err.Error()`
unfoldable pub text : GoError → String
unfolding sentinel_text
text (sentinel s) = sentinel_text s
text (message m) = m
text (layer_a e) = "layer_a_failed: " <> text e
text (wrap s e) = s <> text e

abbrev pub same_sentinel : Sentinel → Sentinel → Bool
same_sentinel deadline_exceeded deadline_exceeded = true
same_sentinel depth_exceeded depth_exceeded = true
same_sentinel goal_paused goal_paused = true
same_sentinel review_conflict review_conflict = true
same_sentinel _ _ = false

-- `errors.Is(err, target)`: the chain of `Unwrap`.
unfoldable pub error_is : Sentinel → GoError → Bool
error_is t (sentinel s) = same_sentinel t s
error_is t (message m) = false
error_is t (layer_a e) = error_is t e
error_is t (wrap s e) = error_is t e
