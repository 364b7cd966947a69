-- ===== src/Video/Messages.antt =====
-- The handlers of the platform thread keep every pointer valid.
use flutter_libnx.Prelude.{
  ℕ, ◌<◌, ◌≡◌, refl, inl, inr, Bool, true, not, ◌&&◌, Option, none, some, List, [], ◌∷◌, ◌++◌,
  if-both, Option-cases, ℤ, All, All-append, codes,
}
use flutter_libnx.Codec.Value.{StdValue, null}
use flutter_libnx.Codec.Call.{encode_success}
use flutter_libnx.Video.Outputs.{VideoOutput, output_at, find_by_handle, put_output}
use flutter_libnx.Video.Frame.{Task, create_on_raster, dispose_on_raster, Video, is_positive}
use flutter_libnx.Video.Channel.{
  Engine, to_int32, parse_int_string, value_get, handle_of, send_resize, respond, new_output,
  created, create_new, create_output, handle_create, resize_output, set_size, handle_set_size,
}
use flutter_libnx.Video.Pointers.{output_at-append}
use flutter_libnx.Video.Owned.{Keeps, same-Keeping}
use flutter_libnx.Video.Safe.{Present, Owns-Knows}
use flutter_libnx.Video.Steps.{TaskIsValid, IsSafe, put-Valid}

-- More outputs, and a later number.
pub grown-TaskIsValid :
    (os os' : List VideoOutput) (next next' : ℕ) (ts : List Task)
    → ((j : ℕ) → Present j os → Present j os')
    → ((m : ℕ) → m < next → m < next')
    → All (TaskIsValid os next) ts
    → All (TaskIsValid os' next') ts
grown-TaskIsValid os os' next next' [] f g h = tt
grown-TaskIsValid os os' next next' (create_on_raster handle ∷ ts) f g (h, hs) =
    (tt, grown-TaskIsValid os os' next next' ts f g hs)
grown-TaskIsValid os os' next next' (dispose_on_raster n id ∷ ts) f g (h, hs) =
    ((g n h.0, f id h.1), grown-TaskIsValid os os' next next' ts f g hs)

module _ (E : Engine) (has_handle : Bool) where
  pub respond-IsSafe :
      (payload : List ℕ) (s : Video) → IsSafe s → IsSafe (respond E has_handle payload s)
  unfolding respond
  respond-IsSafe payload s h = if-both IsSafe has_handle _ _ h h

  created-IsSafe :
      (handle id : ℕ) (w h : ℤ) (s : Video)
      → IsSafe s
      → IsSafe (created E has_handle handle id w h s)
  unfolding created send_resize
  created-IsSafe handle id w h s (owns, tasks, below, fine) =
      respond-IsSafe (encode_success null) _ (
        if-both IsSafe E.posts (record s { tasks = s.tasks ++ (create_on_raster handle ∷ []) }) s
          (
            owns,
            All-append (TaskIsValid s.outputs s.next_task) s.tasks _ tasks (tt, tt),
            below,
            fine,
          )
          (owns, tasks, below, fine))

  create_new-IsSafe :
      (handle : ℕ) (w h : ℤ) (s : Video) → IsSafe s → IsSafe (create_new E has_handle handle w h s)
  unfolding create_new
  create_new-IsSafe handle w h s (owns, tasks, below, fine) =
      let more = new_output E has_handle handle s.next_texture_id w h ∷ [] in
      if-both IsSafe (not E.registers) _ _ (respond-IsSafe _ _ (owns, tasks, below, fine)) (
        created-IsSafe handle s.next_texture_id w h _ (
          λ c j held.
              (let (o, at, rc) = owns c j held in (o, output_at-append j s.outputs more o at, rc)),
          grown-TaskIsValid s.outputs (s.outputs ++ more) s.next_task s.next_task s.tasks
              (λ j p. (p.0, output_at-append j s.outputs more p.0 p.1)) (λ m q. q) tasks,
          below,
          fine,
        ))

  create_output-IsSafe :
      (handle : ℕ) (w h : ℤ) (found : Option ℕ) (s : Video)
      → IsSafe s
      → IsSafe (create_output E has_handle handle w h found s)
  unfolding create_output
  create_output-IsSafe handle w h none s safe = create_new-IsSafe handle w h s safe
  create_output-IsSafe handle w h (some id) s safe = elim (Option-cases (output_at id s.outputs)) [
    | inl e ↦ rw (e, create_output) (create_new-IsSafe handle w h s safe)
    | inr (o, e) ↦ rw (e, create_output) (created-IsSafe handle id o.width o.height s safe)
  ]

  pub handle_create-IsSafe :
      (args : StdValue) (s : Video) → IsSafe s → IsSafe (handle_create E has_handle args s)
  unfolding handle_create
  handle_create-IsSafe args s safe =
      if-both IsSafe (not E.egl_is_ready) _ _ (respond-IsSafe _ s safe) (
        if-both IsSafe _ _ _ (respond-IsSafe _ s safe)
          (create_output-IsSafe _ _ _ (find_by_handle _ s.outputs) s safe))

  resize_output-IsSafe :
      (handle id : ℕ) (w h : ℤ) (o : VideoOutput) (s : Video)
      → output_at id s.outputs ≡ some o
      → IsSafe s
      → IsSafe (resize_output E has_handle handle id w h o s)
  unfolding resize_output send_resize
  resize_output-IsSafe handle id w h o s at safe =
      let o' : VideoOutput = record o {
        pending_width = w;
        pending_height = h;
        frame_pending = true;
      } in
      let k : Keeps o s.gl o' s.gl =
        same-Keeping (Owns-Knows s.outputs s.gl id o safe.0 at) refl refl refl in
      let s' : Video = record s { outputs = put_output id o' s.outputs } in
      let after : IsSafe s' =
        put-Valid s.outputs s.gl s.gl id s.next_task o o' s.tasks s.done_tasks s.fault at k safe in
      if-both IsSafe (is_positive w && is_positive h) _ _
        (respond-IsSafe (encode_success null) s' after)
        (respond-IsSafe (encode_success null) s safe)

  set_size-IsSafe :
      (handle : ℕ) (w h : ℤ) (found : Option ℕ) (s : Video)
      → IsSafe s
      → IsSafe (set_size E has_handle handle w h found s)
  unfolding set_size
  set_size-IsSafe handle w h none s safe = respond-IsSafe _ s safe
  set_size-IsSafe handle w h (some id) s safe = elim (Option-cases (output_at id s.outputs)) [
    | inl e ↦ rw (e, set_size) (respond-IsSafe _ s safe)
    | inr (o, e) ↦ rw (e, set_size) (resize_output-IsSafe handle id w h o s e safe)
  ]

  pub handle_set_size-IsSafe :
      (args : StdValue) (s : Video) → IsSafe s → IsSafe (handle_set_size E has_handle args s)
  unfolding handle_set_size
  handle_set_size-IsSafe args s safe =
      let handle = handle_of E has_handle args in
      let number : List ℕ → ℤ =
        λ k. to_int32 (parse_int_string E has_handle (value_get k args) 0) in
      set_size-IsSafe handle (number (codes "width")) (number (codes "height"))
        (find_by_handle handle s.outputs) s safe
