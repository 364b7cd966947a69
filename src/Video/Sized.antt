-- ===== src/Video/Sized.antt =====
-- Outputs with a width and their textures: the handlers of the platform thread.
use flutter_libnx.Prelude.{
  ℕ, ◌≡◌, refl, ◌∙◌, inl, inr, Bool, true, not, ◌&&◌, Option, none, some, List, [], ◌∷◌, ◌++◌,
  if-both, Option-cases, ℤ, All-append, codes,
}
use flutter_libnx.Codec.Value.{StdValue, null}
use flutter_libnx.Codec.Call.{encode_success}
use flutter_libnx.Video.Outputs.{VideoOutput, output_at, find_by_handle, put_output, drop_name}
use flutter_libnx.Video.Frame.{create_on_raster, Video, is_positive}
use flutter_libnx.Video.Channel.{
  Engine, to_int32, parse_int_string, value_get, handle_of, send_resize, respond, new_output,
  created, create_new, create_output, handle_create, resize_output, set_size, handle_set_size,
  request_dispose,
}
use flutter_libnx.Video.Pointers.{output_at-id, output_at-put_self, output_at-append}
use flutter_libnx.Video.Steps.{KeepsMark, put-KeepsMark}
use flutter_libnx.Video.Filled.{IsFilled, put-IsFilled, output_at-IsFilled}
use flutter_libnx.Video.Textures.{TaskIsMarked, Filled, kept-TaskIsMarked}

module _ (E : Engine) (has_handle : Bool) where
  pub respond-Filled :
      (payload : List ℕ) (s : Video) → Filled s → Filled (respond E has_handle payload s)
  unfolding respond
  respond-Filled payload s h = if-both Filled has_handle _ _ h h

  created-Filled :
      (handle id : ℕ) (w h : ℤ) (s : Video)
      → Filled s
      → Filled (created E has_handle handle id w h s)
  unfolding created send_resize
  created-Filled handle id w h s (held, marked) = respond-Filled (encode_success null) _ (
      if-both Filled E.posts (record s { tasks = s.tasks ++ (create_on_raster handle ∷ []) }) s
        (held, All-append (TaskIsMarked s.outputs) s.tasks _ marked (tt, tt)) (held, marked))

  create_new-Filled :
      (handle : ℕ) (w h : ℤ) (s : Video) → Filled s → Filled (create_new E has_handle handle w h s)
  unfolding create_new
  create_new-Filled handle w h s ((used, held), marked) =
      let more = new_output E has_handle handle s.next_texture_id w h ∷ [] in
      let keeps : (id : ℕ) → KeepsMark id s.outputs (s.outputs ++ more) =
        λ id o mark. (o, (output_at-append id s.outputs more o mark.0, mark.1), λ bare. bare) in
      if-both Filled (not E.registers) _ _ (respond-Filled _ _ ((used, held), marked)) (
        created-Filled handle s.next_texture_id w h _ (
          (used, All-append IsFilled s.outputs more held ((λ stays wide. cc), tt)),
          kept-TaskIsMarked s.outputs (s.outputs ++ more) s.tasks keeps marked,
        ))

  create_output-Filled :
      (handle : ℕ) (w h : ℤ) (found : Option ℕ) (s : Video)
      → Filled s
      → Filled (create_output E has_handle handle w h found s)
  unfolding create_output
  create_output-Filled handle w h none s held = create_new-Filled handle w h s held
  create_output-Filled handle w h (some id) s held = elim (Option-cases (output_at id s.outputs)) [
    | inl e ↦ rw (e, create_output) (create_new-Filled handle w h s held)
    | inr (o, e) ↦ rw (e, create_output) (created-Filled handle id o.width o.height s held)
  ]

  pub handle_create-Filled :
      (args : StdValue) (s : Video) → Filled s → Filled (handle_create E has_handle args s)
  unfolding handle_create
  handle_create-Filled args s held =
      if-both Filled (not E.egl_is_ready) _ _ (respond-Filled _ s held) (
        if-both Filled _ _ _ (respond-Filled _ s held)
          (create_output-Filled _ _ _ (find_by_handle _ s.outputs) s held))

  -- An output that keeps its request changes.
  put-Filled :
      (id : ℕ) (o o' : VideoOutput) (s : Video)
      → output_at id s.outputs ≡ some o
      → o'.texture_id ≡ o.texture_id
      → (o.dispose_requested ≡ true
          → (o'.dispose_requested ≡ true) × (o.render_context ≡ none → o'.render_context ≡ none))
      → IsFilled o'
      → Filled s
      → Filled (record s { outputs = put_output id o' s.outputs })
  put-Filled id o o' s at same stays filled ((used, held), marked) = (
    (used, put-IsFilled id o' s.outputs filled held),
    kept-TaskIsMarked s.outputs (put_output id o' s.outputs) s.tasks
        (λ j. (put-KeepsMark j id s.outputs o o' at (same ∙ output_at-id id s.outputs o at) stays))
        marked,
  )

  resize_output-Filled :
      (handle id : ℕ) (w h : ℤ) (o : VideoOutput) (s : Video)
      → output_at id s.outputs ≡ some o
      → Filled s
      → Filled (resize_output E has_handle handle id w h o s)
  unfolding resize_output send_resize
  resize_output-Filled handle id w h o s at held =
      let o' : VideoOutput = record o {
        pending_width = w;
        pending_height = h;
        frame_pending = true;
      } in
      let s' : Video = record s { outputs = put_output id o' s.outputs } in
      let after : Filled s' =
        put-Filled id o o' s at refl (λ d. (d, λ bare. bare))
          (output_at-IsFilled id s.outputs o held.0.1 at) held in
      if-both Filled (is_positive w && is_positive h) _ _
        (respond-Filled (encode_success null) s' after)
        (respond-Filled (encode_success null) s held)

  set_size-Filled :
      (handle : ℕ) (w h : ℤ) (found : Option ℕ) (s : Video)
      → Filled s
      → Filled (set_size E has_handle handle w h found s)
  unfolding set_size
  set_size-Filled handle w h none s held = respond-Filled _ s held
  set_size-Filled handle w h (some id) s held = elim (Option-cases (output_at id s.outputs)) [
    | inl e ↦ rw (e, set_size) (respond-Filled _ s held)
    | inr (o, e) ↦ rw (e, set_size) (resize_output-Filled handle id w h o s e held)
  ]

  pub handle_set_size-Filled :
      (args : StdValue) (s : Video) → Filled s → Filled (handle_set_size E has_handle args s)
  unfolding handle_set_size
  handle_set_size-Filled args s held =
      let handle = handle_of E has_handle args in
      let number : List ℕ → ℤ =
        λ k. to_int32 (parse_int_string E has_handle (value_get k args) 0) in
      set_size-Filled handle (number (codes "width")) (number (codes "height"))
        (find_by_handle handle s.outputs) s held

  pub request_dispose-Filled :
      (id : ℕ) (o : VideoOutput) (s : Video)
      → output_at id s.outputs ≡ some o
      → Filled s
      → Filled (request_dispose E has_handle id o s)
  unfolding request_dispose
  request_dispose-Filled id o s at held =
      let o' : VideoOutput = record o { dispose_requested = true } in
      let os = put_output id o' s.outputs in
      let here : output_at id os ≡ some o' =
        output_at-put_self id s.outputs o o' at (output_at-id id s.outputs o at) in
      let (after, marked) =
        put-Filled id o o' s at refl (λ d. (refl, λ bare. bare)) (λ stays wide. cc) held in
      if-both Filled E.posts _ _
        (after, All-append (TaskIsMarked os) s.tasks _ marked ((o', (here, refl)), tt))
        (after, marked)

  pub ended-Filled :
      (id : ℕ) (s : Video)
      → Filled s
      → Filled (
          respond E has_handle
            (encode_success null)
            (record s { registered = drop_name id s.registered }))
  ended-Filled id s held =
      respond-Filled (encode_success null) (record s { registered = drop_name id s.registered })
        held
