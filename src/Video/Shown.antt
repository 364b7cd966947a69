-- ===== src/Video/Shown.antt =====
-- From a SetSize to the texture: the platform thread, its pump, and the frame callback.
use flutter_libnx.Prelude.{
  ℕ, ◌<◌, ◌≤◌, ◌≡◌, ◌≢◌, refl, ap, ◌∙◌, Bool, true, false, ◌||◌, some, ◌∷◌, [], List, ◌++◌, if-both,
  ◌==◌, length, ℤ,
}
use mathlib.Core.List.{Mem}
use flutter_libnx.Codec.Value.{null}
use flutter_libnx.Codec.Call.{encode_success}
use flutter_libnx.Video.Outputs.{VideoOutput, Answers, output_at, find_by_handle, put_output}
use flutter_libnx.Video.Frame.{Video, is_positive, is_ready, pump, frame_found, texture_frame}
use flutter_libnx.Video.Channel.{Engine, respond, send_resize, resize_output, set_size}
use flutter_libnx.Video.Pointers.{output_at-id, output_at-put_self}
use flutter_libnx.Video.Delivered.{Succeeds, Shows, frame_output-Shows}
use flutter_libnx.Video.Marked.{pump-Mem}
use flutter_libnx.Video.Reach.{Turns, no_video}
use flutter_libnx.Video.Filled.{output_at-IsFilled}
use flutter_libnx.Video.Kept.{reached-Filled}

length-put_output :
    (id : ℕ) (new : VideoOutput) (os : List VideoOutput) → length (put_output id new os) ≡ length os
unfolding put_output
length-put_output id new [] = refl
length-put_output id new (o ∷ os) =
    if-both (λ (xs : List VideoOutput). length xs ≡ length (o ∷ os)) (o.texture_id == id) _ _ refl
      (ap ℕ.suc (length-put_output id new os))

-- Marked, and delivered by the next callback with this size.
abbrev pub Appears : Answers → ℕ → ℤ → ℤ → Video → Type 0
Appears a id w h s = Mem id s.marked × Shows w h (texture_frame a id s).0

-- The callback on an output that asks for a frame.
texture_frame-Shows :
    (a : Answers) (id : ℕ) (o : VideoOutput) (s : Video)
    → Succeeds a
    → output_at id s.outputs ≡ some o
    → (o.dispose_requested || o.create_failed) ≡ false
    → 0 < s.gl.next
    → o.frame_pending ≡ true
    → is_positive o.pending_width ≡ true
    → is_positive o.pending_height ≡ true
    → (is_positive o.width ≡ true → o.texture ≢ 0)
    → Shows o.pending_width o.pending_height (texture_frame a id s).0
unfolding texture_frame frame_found
texture_frame-Shows a id o s all at runs used asked wide high held =
    rw (at, texture_frame, runs) (frame_output-Shows a o s.gl all used asked wide high held)

module _ (E : Engine) (has_handle : Bool) where
  -- What HandleSetSize comes to.
  outputs-resized :
      (handle id : ℕ) (w h : ℤ) (o : VideoOutput) (s : Video)
      → is_positive w ≡ true
      → is_positive h ≡ true
      → let s' = resize_output E has_handle handle id w h o s in
        (s'.outputs
          ≡ put_output id
              (record o { pending_width = w; pending_height = h; frame_pending = true })
              s.outputs)
        × (s'.gl ≡ s.gl)
  unfolding resize_output send_resize respond
  outputs-resized handle id w h o s wide high =
      let o' : VideoOutput = record o {
        pending_width = w;
        pending_height = h;
        frame_pending = true;
      } in
      let s' : Video = record s { outputs = put_output id o' s.outputs } in
      rw (wide, high, resize_output)
        (if-both (λ (t : Video). (t.outputs ≡ put_output id o' s.outputs) × (t.gl ≡ s.gl))
          has_handle (record s' { responses = s'.responses ++ (encode_success null ∷ []) }) s'
          (refl, refl) (refl, refl))

  resize_output-Appears :
      (a : Answers) (handle id : ℕ) (w h : ℤ) (o : VideoOutput) (s : Video)
      → Succeeds a
      → output_at id s.outputs ≡ some o
      → is_positive w ≡ true
      → is_positive h ≡ true
      → o.dispose_requested ≡ false
      → o.create_failed ≡ false
      → (is_positive o.width ≡ true → o.texture ≢ 0)
      → 0 < s.gl.next
      → length s.outputs ≤ 8
      → Appears a id w h (pump (resize_output E has_handle handle id w h o s))
  unfolding is_ready pump
  resize_output-Appears a handle id w h o s all at wide high stays fine held used few =
      let o' : VideoOutput = record o {
        pending_width = w;
        pending_height = h;
        frame_pending = true;
      } in
      let s' = resize_output E has_handle handle id w h o s in
      let (outs, gl) = outputs-resized handle id w h o s wide high in
      let here : output_at id s'.outputs ≡ some o' =
        ap (output_at id) outs
        ∙ output_at-put_self id s.outputs o o' at (output_at-id id s.outputs o at) in
      let runs : (o.dispose_requested || o.create_failed) ≡ false = rw (stays, fine) refl in
      let ready : is_ready o' ≡ true = rw (wide, stays, fine) refl in
      let size : length s'.outputs ≡ length s.outputs =
        ap length outs ∙ length-put_output id o' s.outputs in
      let named : 0 < s'.gl.next = rw gl used in
      (
        pump-Mem id o' s' here ready (rw size few),
        texture_frame-Shows a id o' (pump s') all here runs named refl wide high held,
      )

  -- In every state that is reached from the start, if the raster thread could bind the context for the
  -- tasks that it ran while a Dispose waited: after a SetSize with a positive size, on an output that is
  -- neither being disposed of nor failed, where there are at most eight outputs, the next pump marks its
  -- texture, and the frame callback that follows delivers a texture of exactly this size, if the calls
  -- into GL and mpv succeed.
  pub set_size-Appears :
      (a : Answers) (handle id : ℕ) (w h : ℤ) (o : VideoOutput) {s : Video}
      → Turns no_video s
      → Succeeds a
      → find_by_handle handle s.outputs ≡ some id
      → output_at id s.outputs ≡ some o
      → is_positive w ≡ true
      → is_positive h ≡ true
      → o.dispose_requested ≡ false
      → o.create_failed ≡ false
      → length s.outputs ≤ 8
      → Appears a id w h
          (pump (set_size E has_handle handle w h (find_by_handle handle s.outputs) s))
  unfolding set_size
  set_size-Appears a handle id w h o {s} reached all found at wide high stays fine few =
      let ((used, filled), _) = reached-Filled reached in
      let held = output_at-IsFilled id s.outputs o filled at stays in
      rw (found, set_size, at, set_size)
        (resize_output-Appears a handle id w h o s all at wide high stays fine held used few)
