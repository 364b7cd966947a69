-- ===== src/Video/Kept.antt =====
-- The textures of the outputs, over the turns of the threads.
use flutter_libnx.Prelude.{
  ℕ, ◌⊎◌, inl, inr, Bool, Option, none, some, List, [], arith, if-both, Bool-cases, Option-cases,
  All, bytes_eq, codes,
}
use flutter_libnx.Codec.Value.{StdValue}
use flutter_libnx.Codec.Decode.{Decoded, ok}
use flutter_libnx.Codec.Call.{decode_method_call}
use flutter_libnx.Video.Outputs.{VideoOutput, output_at, find_by_handle, erase_output}
use flutter_libnx.Video.Frame.{Video, destroy_at, Step, step_all, is_done, pump}
use flutter_libnx.Video.Channel.{
  Engine, handle_of, request_dispose, end_dispose, dispose_output, handle_dispose, call_method,
  call_decoded, handle_media_kit_video,
}
use flutter_libnx.Video.Steps.{IsSafe, Marked}
use flutter_libnx.Video.Tasks.{destroy_at-Quiet}
use flutter_libnx.Video.Waiting.{Binds, IsWaiting, IsOver, step_all-Waits, done_step_all-IsOver}
use flutter_libnx.Video.Disposal.{request_dispose-IsWaiting}
use flutter_libnx.Video.Reach.{
  Turn, message, other, pumped, Turns, at_start, and_then, no_video, reached-IsSafe,
}
use flutter_libnx.Video.Filled.{erase-IsFilled}
use flutter_libnx.Video.Textures.{
  Filled, kept-TaskIsMarked, destroy_at-Holding, step-Filled, step_all-Filled,
}
use flutter_libnx.Video.Sized.{
  respond-Filled, handle_create-Filled, handle_set_size-Filled, request_dispose-Filled,
  ended-Filled,
}

module _ (E : Engine) (has_handle : Bool) where
  -- The output stays marked during the wait.
  waited-Marked :
      (n id : ℕ) (s : Video)
      → IsWaiting n id s ⊎ IsOver id s
      → ((o : VideoOutput) × Marked id s.outputs o) × IsSafe s
  waited-Marked n id s (inl (safe, marked, _, _)) = (marked, safe)
  waited-Marked n id s (inr (safe, (o, mark, _), _)) = ((o, mark), safe)

  erased-Filled :
      (id : ℕ) (s : Video)
      → IsOver id s
      → Filled s
      → Filled (record s { outputs = erase_output id s.outputs })
  erased-Filled id s (_, _, none_left) ((used, held), _) =
      ((used, erase-IsFilled id s.outputs held), rw none_left tt)

  destroyed-Filled :
      (binds : Bool) (id : ℕ) (s : Video) (o : VideoOutput)
      → Marked id s.outputs o
      → IsSafe s
      → Filled s
      → Filled (destroy_at binds id s)
  destroyed-Filled binds id s o mark safe (h, marked) = (
    destroy_at-Holding binds id s o mark h,
    rw (destroy_at-Quiet binds 0 id s (o, mark.0) safe).0 (
        kept-TaskIsMarked s.outputs (destroy_at binds id s).outputs s.tasks
          (λ j. (destroy_at-Quiet binds j id s (o, mark.0) safe).4) marked),
  )

  end_dispose-Filled :
      (binds : Bool) (es : List Step) (n id : ℕ) (s : Video)
      → All Binds es
      → IsWaiting n id s
      → Filled s
      → Filled (end_dispose E has_handle binds n id (step_all es s))
  unfolding end_dispose
  end_dispose-Filled binds es n id s b w h =
      let s' = step_all es s in
      let held = step_all-Filled es s w.0 h in
      elim (Bool-cases (is_done n s'.done_tasks)) [
        | inl done ↦
            let over = done_step_all-IsOver es n id s b w done in
            rw (done, end_dispose)
              (ended-Filled E has_handle id (record s' { outputs = erase_output id s'.outputs })
                (erased-Filled id s' over held))
        | inr late ↦
            let ((o, mark), safe) = waited-Marked n id s' (step_all-Waits es n id s b (inl w)) in
            rw (late, end_dispose)
              (ended-Filled E has_handle id (destroy_at binds id s')
                (destroyed-Filled binds id s' o mark safe held))
      ]

  dispose_output-Filled :
      (binds : Bool) (es : List Step) (found : Option ℕ) (s : Video)
      → All Binds es
      → IsSafe s
      → Filled s
      → Filled (dispose_output E has_handle binds es found s)
  unfolding dispose_output
  dispose_output-Filled binds es none s b safe h = respond-Filled E has_handle _ s h
  dispose_output-Filled binds es (some id) s b safe h =
      elim (Option-cases (output_at id s.outputs)) [
        | inl e ↦ rw (e, dispose_output) (respond-Filled E has_handle _ s h)
        | inr (o, e) ↦
            rw (e, dispose_output)
              (end_dispose-Filled binds es s.next_task id (request_dispose E has_handle id o s) b
                (request_dispose-IsWaiting E has_handle id o s e safe)
                (request_dispose-Filled E has_handle id o s e h))
      ]

  call_method-Filled :
      (binds : Bool) (es : List Step) (method : List ℕ) (args : StdValue) (s : Video)
      → All Binds es
      → IsSafe s
      → Filled s
      → Filled (call_method E has_handle binds es method args s)
  unfolding call_method handle_dispose
  call_method-Filled binds es method args s b safe h =
      let found = find_by_handle (handle_of E has_handle args) s.outputs in
      if-both Filled _ _ _ (handle_create-Filled E has_handle args s h) (
        if-both Filled _ _ _ (handle_set_size-Filled E has_handle args s h) (
          if-both Filled _ _ _ (dispose_output-Filled binds es found s b safe h)
            (respond-Filled E has_handle [] s h)))

  call_decoded-Filled :
      (binds : Bool) (es : List Step) (r : Decoded (List ℕ × StdValue)) (s : Video)
      → All Binds es
      → IsSafe s
      → Filled s
      → Filled (call_decoded E has_handle binds es r s)
  unfolding call_decoded
  call_decoded-Filled binds es (ok (method, args)) s b safe h =
      call_method-Filled binds es method args s b safe h
  call_decoded-Filled binds es r s b safe h = respond-Filled E has_handle _ s h

  handle-Filled :
      (binds : Bool) (es : List Step) (channel bytes : List ℕ) (s : Video)
      → All Binds es
      → IsSafe s
      → Filled s
      → Filled (handle_media_kit_video E has_handle binds es channel bytes s).1
  unfolding handle_media_kit_video
  handle-Filled binds es channel bytes s b safe h =
      if-both (λ (r : Bool × Video). Filled r.1)
        (bytes_eq channel (codes "com.alexmercerind/media_kit_video")) _ _
        (call_decoded-Filled binds es (decode_method_call bytes) s b safe h) h

Turn-Filled : {s t : Video} → Turn s t → IsSafe s → Filled s → Filled t
unfolding pump
Turn-Filled (message {s} E has_handle binds es channel bytes b) safe h =
    handle-Filled E has_handle binds es channel bytes s b safe h
Turn-Filled (other {s} e) safe h = step-Filled e s safe h
Turn-Filled pumped safe h = h

-- In every state that is reached from the start, if the raster thread could bind the context for the
-- tasks that it ran while a Dispose waited: GL's next name is not 0, an output with a width has a texture
-- unless it is being disposed of, and the output of a waiting DisposeTask is being disposed of.
pub reached-Filled : {s : Video} → Turns no_video s → Filled s
reached-Filled at_start = (((omega arith), tt), tt)
reached-Filled (and_then before last) =
    Turn-Filled last (reached-IsSafe before) (reached-Filled before)
