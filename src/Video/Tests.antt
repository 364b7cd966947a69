-- ===== src/Video/Tests.antt =====
-- The video outputs on concrete inputs.
use flutter_libnx.Prelude.{
  ℕ, ◌≡◌, refl, true, false, none, some, List, [], ◌∷◌, ◌++◌, arith, pos, codes, length, take,
  bytes_eq,
}
use flutter_libnx.Codec.Value.{StdValue, int, string, map, no_entries, entry}
use flutter_libnx.Codec.Encode.{encode}
use flutter_libnx.Video.Outputs.{VideoOutput, Answers, find_by_handle}
use flutter_libnx.Video.Frame.{
  frame, Video, Texture, call_back, next_task, step, step_all, texture_frame, pump, shutdown,
}
use flutter_libnx.Video.Channel.{
  Engine, handle_create, handle_set_size, handle_dispose, set_size, handle_media_kit_video,
}
use flutter_libnx.Video.Owned.{Holds}
use flutter_libnx.Video.Steps.{IsSafe}
use flutter_libnx.Video.Reach.{message, other, Turns, at_start, and_then, no_video, reached-IsSafe}
use flutter_libnx.Video.Marked.{Ready, pump-take}
use flutter_libnx.Video.Shown.{Appears, set_size-Appears}
use flutter_libnx.Video.Closed.{shutdown-frees}

abbrev engine : Engine
engine = record { egl_is_ready = true; registers = true; posts = true; strtoll = λ text. 0 }

abbrev fine : Answers
fine = record {
  make_current = true;
  load = true;
  context_created = true;
  complete = true;
  has_frame = true;
  renders = true;
}

abbrev unbound : Answers
unbound = record fine { make_current = false }

abbrev of_handle : StdValue
of_handle = map (entry (string (codes "handle")) (int 5) no_entries)

abbrev of_size : StdValue
of_size = map (
    entry (string (codes "handle")) (int 5) (
      entry (string (codes "width")) (int 640)
        (entry (string (codes "height")) (int 360) no_entries)))

abbrev call_bytes : List ℕ → StdValue → List ℕ
call_bytes method args = encode args (encode (string method) [])

-- Created, with its context; then sized; then with a frame.
abbrev with_output : Video
with_output = step (next_task fine) (handle_create engine true of_handle no_video)

abbrev made : VideoOutput
made = record {
  handle = 5;
  texture_id = 1;
  render_context = some 1;
  texture = 0;
  framebuffer = 0;
  width = pos 0;
  height = pos 0;
  pending_width = pos 0;
  pending_height = pos 0;
  frame_pending = false;
  dispose_requested = false;
  create_failed = false;
}

abbrev sized : Video
sized = pump (handle_set_size engine true of_size with_output)

abbrev shown : Texture
shown = record { name = 2; width = pos 640; height = pos 360 }

frame_of_size : (texture_frame fine 1 sized).0 ≡ some shown
unfolding texture_frame pump handle_set_size step handle_create bytes_eq
frame_of_size = refl

marked_once : sized.marked ≡ 1 ∷ []
unfolding pump handle_set_size step handle_create bytes_eq
marked_once = refl

-- A Dispose whose task runs in time, and the callback of a context that is gone.
abbrev disposed : Video
disposed = handle_dispose engine true true (next_task fine ∷ []) of_handle with_output

gone : disposed.outputs ≡ []
unfolding handle_dispose handle_create bytes_eq
gone = refl

call_back_after : (step (call_back 1) disposed).fault ≡ false
unfolding step handle_dispose handle_create bytes_eq
call_back_after = refl

-- The task cannot bind the context: the output goes, its context stays, and the callback uses it.
abbrev torn : Video
torn = handle_dispose engine true true (next_task unbound ∷ []) of_handle with_output

fault_of_unbound : (step (call_back 1) torn).fault ≡ true
unfolding step handle_dispose handle_create bytes_eq
fault_of_unbound = refl

-- A Dispose that was not served in time leaves its output, which a Create with the same handle finds:
-- it answers with a texture that is not registered, and that never shows anything.
abbrev created_again : Video
created_again =
    step_all (next_task fine ∷ next_task fine ∷ []) (
      handle_create engine true of_handle
        (handle_dispose engine true true [] of_handle with_output))

registered_after : created_again.registered ≡ []
unfolding step_all handle_create bytes_eq handle_dispose
registered_after = refl

black_after : (texture_frame fine 1 (handle_set_size engine true of_size created_again)).0 ≡ none
unfolding texture_frame handle_set_size step_all handle_create bytes_eq handle_dispose
black_after = refl

two_answers : length created_again.messages ≡ 2
unfolding step_all handle_create bytes_eq handle_dispose
two_answers = refl

-- A Create, its task, the callback of its context, a Dispose with the task in time, and a late callback.
abbrev channel_name : List ℕ
channel_name = codes "com.alexmercerind/media_kit_video"

abbrev after_create : Video
after_create =
    (handle_media_kit_video engine true true [] channel_name
      (call_bytes (codes "VideoOutputManager.Create") of_handle) no_video).1

abbrev called : Video
called = step (call_back 1) (step (next_task fine) after_create)

abbrev after_size : Video → Video
after_size s =
    (handle_media_kit_video engine true true [] channel_name
      (call_bytes (codes "VideoOutputManager.SetSize") of_size) s).1

abbrev after_dispose : Video
after_dispose =
    (handle_media_kit_video engine true true (next_task fine ∷ []) channel_name
      (call_bytes (codes "VideoOutputManager.Dispose") of_handle) called).1

abbrev to_called : Turns no_video called
to_called =
    and_then
      (and_then
        (and_then at_start (
          message engine true true [] channel_name
            (call_bytes (codes "VideoOutputManager.Create") of_handle) tt))
        (other (next_task fine)))
      (other (call_back 1))

reached-IsSafe_example : IsSafe (step (call_back 1) after_dispose)
reached-IsSafe_example = reached-IsSafe (
    and_then
      (and_then to_called (
        message engine true true (next_task fine ∷ []) channel_name
          (call_bytes (codes "VideoOutputManager.Dispose") of_handle) (refl, tt)))
      (other (call_back 1)))

shutdown-frees_example : ¬ Holds 1 1 (shutdown true called).gl.contexts
shutdown-frees_example = shutdown-frees to_called 1 1

pump-take_example :
    (ids : List ℕ) × Ready sized.outputs ids
    × (pump sized ≡ record sized { marked = sized.marked ++ take 8 ids })
pump-take_example = pump-take sized

-- The output has shown this size before.
abbrev to_shown : Turns no_video (step (frame 1 fine) (after_size called))
to_shown =
    and_then
      (and_then to_called (
        message engine true true [] channel_name
          (call_bytes (codes "VideoOutputManager.SetSize") of_size) tt))
      (other (frame 1 fine))

abbrev has_shown : VideoOutput
has_shown = record made {
  texture = 2;
  framebuffer = 3;
  width = pos 640;
  height = pos 360;
  pending_width = pos 640;
  pending_height = pos 360;
}

set_size-Appears_example :
    let s = step (frame 1 fine) (after_size called) in
    Appears fine 1
      (pos 640)
      (pos 360)
      (pump (set_size engine true 5 (pos 640) (pos 360) (find_by_handle 5 s.outputs) s))
unfolding find_by_handle step handle_media_kit_video bytes_eq
    flutter_libnx.Codec.Decode.decode_std_value encode flutter_libnx.Codec.Encode.encode_int
    flutter_libnx.Codec.Encode.write_size
set_size-Appears_example =
    set_size-Appears engine true fine 5 1 (pos 640) (pos 360) has_shown to_shown
      (refl, refl, refl, refl) refl refl refl refl refl refl (omega arith)
