-- ===== src/Video/Channel.antt =====
-- The channel com.alexmercerind/media_kit_video, on the platform thread.
use flutter_libnx.Prelude.{
  ℕ, ◌+◌, ◌-◌, ◌%◌, ◌^◌, Bool, true, false, not, ◌&&◌, Option, none, some, List, [], ◌∷◌, ◌++◌,
  if◌then◌else◌, ltb, ◌==◌, ℤ, pos, negsuc, codes, bytes_eq,
}
use flutter_libnx.Codec.Value.{StdValue, null, int, string, map, Entries, no_entries, entry, as_map}
use flutter_libnx.Codec.Encode.{encode}
use flutter_libnx.Codec.Decode.{Decoded, ok}
use flutter_libnx.Codec.Call.{decode_method_call, encode_success, encode_error}
use flutter_libnx.Plugins.Table.{is_key}
use flutter_libnx.Video.Outputs.{
  VideoOutput, output_at, find_by_handle, put_output, erase_output, drop_name,
}
use flutter_libnx.Video.Frame.{
  create_on_raster, dispose_on_raster, Video, is_positive, destroy_at, Step, step_all, is_done,
}

-- What the engine and the system answer, and strtoll, which gives a 64-bit pattern.
pub record Engine : Type 0 where
  pub egl_is_ready : Bool
  pub registers : Bool
  pub posts : Bool
  pub strtoll : List ℕ → ℕ

-- MapGet: a value that is no map has no entries.
unfoldable pub entry_get : List ℕ → Entries → Option StdValue
unfolding is_key
entry_get k no_entries = none
entry_get k (entry key v es) = if is_key k key then some v else entry_get k es

unfoldable pub value_get : List ℕ → StdValue → Option StdValue
unfolding entry_get as_map
value_get k v = entry_get k (as_map v)

-- static_cast<int> of a 64-bit pattern, and the 64-bit pattern of an int.
unfoldable pub to_int32 : ℕ → ℤ
to_int32 n = let low = n % 2 ^ 32 in if ltb low (2 ^ 31) then pos low else negsuc (2 ^ 32 - 1 - low)

unfoldable pub of_int : ℤ → ℕ
of_int (pos n) = n
of_int (negsuc n) = 2 ^ 64 - 1 - n

-- SendResize: the message to Dart.
abbrev pub resize_args : ℕ → ℕ → ℤ → ℤ → StdValue
resize_args handle texture_id width height =
    let rect = entry (string (codes "left")) (int 0) (
      entry (string (codes "top")) (int 0) (
        entry (string (codes "width")) (int (of_int width))
          (entry (string (codes "height")) (int (of_int height)) no_entries))) in
    map (
      entry (string (codes "handle")) (int handle) (
        entry (string (codes "id")) (int texture_id)
          (entry (string (codes "rect")) (map rect) no_entries)))

unfoldable pub resize_message : ℕ → ℕ → ℤ → ℤ → List ℕ
unfolding of_int
resize_message handle texture_id width height =
    encode (resize_args handle texture_id width height)
      (encode (string (codes "VideoOutput.Resize")) [])

unfoldable pub send_resize : ℕ → ℕ → ℤ → ℤ → Video → Video
unfolding resize_message
send_resize handle texture_id width height s = record s {
  messages = s.messages ++ (resize_message handle texture_id width height ∷ []);
}

module _ (E : Engine) (has_handle : Bool) where
  unfoldable pub parse_int_string : Option StdValue → ℕ → ℕ
  parse_int_string (some (int n)) fallback = n
  parse_int_string (some (string text)) fallback =
      if bytes_eq text (codes "null") then fallback else E.strtoll text
  parse_int_string value fallback = fallback

  unfoldable pub respond : List ℕ → Video → Video
  respond payload s =
      if has_handle then record s { responses = s.responses ++ (payload ∷ []) } else s

  abbrev pub handle_of : StdValue → ℕ
  handle_of args = parse_int_string (value_get (codes "handle") args) 0

  -- The member `key` of the configuration, or 0.
  unfoldable pub config_int : List ℕ → Option StdValue → ℤ
  unfolding parse_int_string value_get to_int32
  config_int key none = pos 0
  config_int key (some config) = to_int32 (parse_int_string (value_get key config) 0)

  abbrev pub new_output : ℕ → ℕ → ℤ → ℤ → VideoOutput
  new_output handle texture_id width height = record {
    handle = handle;
    texture_id = texture_id;
    render_context = none;
    texture = 0;
    framebuffer = 0;
    width = pos 0;
    height = pos 0;
    pending_width = width;
    pending_height = height;
    frame_pending = false;
    dispose_requested = false;
    create_failed = false;
  }

  -- The end of HandleCreate: the task, the answer, and the message with the id.
  unfoldable pub created : ℕ → ℕ → ℤ → ℤ → Video → Video
  unfolding respond send_resize encode_success
  created handle texture_id width height s =
      let s' =
        if E.posts then record s { tasks = s.tasks ++ (create_on_raster handle ∷ []) } else s in
      send_resize handle texture_id width height (respond (encode_success null) s')

  unfoldable pub create_new : ℕ → ℤ → ℤ → Video → Video
  unfolding created respond encode_error
  create_new handle width height s =
      let id = s.next_texture_id in
      let s' = record s { next_texture_id = id + 1 } in
      if not E.registers
      then respond (encode_error (codes "register") (codes "RegisterExternalTexture scheitert")) s'
      else created handle id width height (record s' {
        registered = id ∷ s.registered;
        outputs = s.outputs ++ (new_output handle id width height ∷ []);
      })

  -- HandleCreate once the handle is read.
  unfoldable pub create_output : ℕ → ℤ → ℤ → Option ℕ → Video → Video
  unfolding create_new created output_at
  create_output handle width height none s = create_new handle width height s
  create_output handle width height (some id) s = elim (output_at id s.outputs) [
    | none ↦ create_new handle width height s
    | some o ↦ created handle id o.width o.height s
  ]

  unfoldable pub handle_create : StdValue → Video → Video
  unfolding create_output config_int find_by_handle parse_int_string value_get respond encode_error
  handle_create args s =
      let handle = handle_of args in
      let config = value_get (codes "configuration") args in
      let width = config_int (codes "width") config in
      let height = config_int (codes "height") config in
      if not E.egl_is_ready
      then respond (encode_error (codes "no-gl") (codes "Video braucht den GPU-Modus (EGL)")) s
      else if handle == 0
      then respond (encode_error (codes "bad-args") (codes "handle fehlt")) s
      else create_output handle width height (find_by_handle handle s.outputs) s

  -- HandleSetSize on the output it has found.
  unfoldable pub resize_output : ℕ → ℕ → ℤ → ℤ → VideoOutput → Video → Video
  unfolding respond send_resize put_output encode_success
  resize_output handle id width height o s =
      let o' = record o { pending_width = width; pending_height = height; frame_pending = true } in
      let s' = record s { outputs = put_output id o' s.outputs } in
      if is_positive width && is_positive height
      then send_resize handle id width height (respond (encode_success null) s')
      else respond (encode_success null) s

  unfoldable pub set_size : ℕ → ℤ → ℤ → Option ℕ → Video → Video
  unfolding resize_output output_at respond encode_success
  set_size handle width height none s = respond (encode_success null) s
  set_size handle width height (some id) s = elim (output_at id s.outputs) [
    | none ↦ respond (encode_success null) s
    | some o ↦ resize_output handle id width height o s
  ]

  unfoldable pub handle_set_size : StdValue → Video → Video
  unfolding set_size find_by_handle parse_int_string value_get to_int32
  handle_set_size args s =
      let handle = handle_of args in
      let width = to_int32 (parse_int_string (value_get (codes "width") args) 0) in
      let height = to_int32 (parse_int_string (value_get (codes "height") args) 0) in
      set_size handle width height (find_by_handle handle s.outputs) s

  -- The output is marked, and the task is posted.
  unfoldable pub request_dispose : ℕ → VideoOutput → Video → Video
  unfolding put_output
  request_dispose id o s =
      let s' = record s {
        outputs = put_output id (record o { dispose_requested = true }) s.outputs;
        next_task = s.next_task + 1;
      } in
      if E.posts
      then record s' { tasks = s.tasks ++ (dispose_on_raster s.next_task id ∷ []) }
      else s'

  -- Behind the wait for the DisposeTask `n`. The output stays where the task was not done in time.
  unfoldable pub end_dispose : Bool → ℕ → ℕ → Video → Video
  unfolding is_done erase_output destroy_at drop_name respond encode_success
  end_dispose binds n id s =
      let s' =
        if is_done n s.done_tasks
        then record s { outputs = erase_output id s.outputs }
        else destroy_at binds id s in
      respond (encode_success null) (record s' { registered = drop_name id s'.registered })

  unfoldable pub dispose_output : Bool → List Step → Option ℕ → Video → Video
  unfolding end_dispose request_dispose step_all output_at respond encode_success
  dispose_output binds meanwhile none s = respond (encode_success null) s
  dispose_output binds meanwhile (some id) s = elim (output_at id s.outputs) [
    | none ↦ respond (encode_success null) s
    | some o ↦ end_dispose binds s.next_task id (step_all meanwhile (request_dispose id o s))
  ]

  -- `meanwhile` is what the other threads do until the wait ends, and `binds` whether the platform
  -- thread could bind the context after that.
  unfoldable pub handle_dispose : Bool → List Step → StdValue → Video → Video
  unfolding dispose_output find_by_handle parse_int_string value_get
  handle_dispose binds meanwhile args s =
      dispose_output binds meanwhile (find_by_handle (handle_of args) s.outputs) s

  -- The methods.
  unfoldable pub call_method : Bool → List Step → List ℕ → StdValue → Video → Video
  unfolding handle_create handle_set_size handle_dispose respond
  call_method binds meanwhile method args s =
      if bytes_eq method (codes "VideoOutputManager.Create")
      then handle_create args s
      else if bytes_eq method (codes "VideoOutputManager.SetSize")
      then handle_set_size args s
      else if bytes_eq method (codes "VideoOutputManager.Dispose")
      then handle_dispose binds meanwhile args s
      else respond [] s

  unfoldable pub call_decoded : Bool → List Step → Decoded (List ℕ × StdValue) → Video → Video
  unfolding call_method respond encode_error
  call_decoded binds meanwhile (ok (method, args)) s = call_method binds meanwhile method args s
  call_decoded binds meanwhile r s =
      respond (encode_error (codes "codec") (codes "nicht dekodierbar")) s

  -- flutter_libnx_handle_media_kit_video
  unfoldable pub handle_media_kit_video : Bool → List Step → List ℕ → List ℕ → Video → Bool × Video
  unfolding call_decoded decode_method_call
  handle_media_kit_video binds meanwhile channel message s =
      if bytes_eq channel (codes "com.alexmercerind/media_kit_video")
      then (true, call_decoded binds meanwhile (decode_method_call message) s)
      else (false, s)
