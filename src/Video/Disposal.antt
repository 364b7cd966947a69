-- ===== src/Video/Disposal.antt =====
-- HandleDispose keeps every pointer valid, if the raster thread could bind the context.
use flutter_libnx.Prelude.{
  ℕ, ◌+◌, ◌<◌, ◌≡◌, ◌≢◌, refl, sym, ap, ◌∙◌, ◌⊎◌, inl, inr, Bool, true, Option, none, some, List,
  [], ◌∷◌, ◌++◌, arith, if-both, Bool-cases, Option-cases, All, All-append, bytes_eq, codes,
}
use flutter_libnx.Codec.Value.{StdValue, null}
use flutter_libnx.Codec.Decode.{Decoded, ok}
use flutter_libnx.Codec.Call.{encode_success, decode_method_call}
use flutter_libnx.Video.Outputs.{
  VideoOutput, output_at, find_by_handle, put_output, erase_output, drop_name,
}
use flutter_libnx.Video.Frame.{
  Task, create_on_raster, dispose_on_raster, Video, destroy_at, Step, step_all, is_done,
}
use flutter_libnx.Video.Channel.{
  Engine, handle_of, respond, request_dispose, end_dispose, dispose_output, handle_dispose,
  call_method, call_decoded, handle_media_kit_video,
}
use flutter_libnx.Video.Pointers.{output_at-id, output_at-put_self, output_at-erase_ne}
use flutter_libnx.Video.Owned.{Keeps, same-Keeping}
use flutter_libnx.Video.Safe.{Present, Owns-Knows}
use flutter_libnx.Video.Steps.{TaskIsValid, IsSafe, put-Valid}
use flutter_libnx.Video.Tasks.{destroy_at-Quiet}
use flutter_libnx.Video.Waiting.{
  Binds, IsLast, IsWaiting, IsOver, step_all-Waits, done_step_all-IsOver,
}
use flutter_libnx.Video.Messages.{
  grown-TaskIsValid, respond-IsSafe, handle_create-IsSafe, handle_set_size-IsSafe,
}

-- A number that no task has.
posted-IsLast :
    (os : List VideoOutput) (n id : ℕ) (ts : List Task)
    → All (TaskIsValid os n) ts
    → IsLast n id ts × IsLast n id (ts ++ (dispose_on_raster n id ∷ []))
posted-IsLast os n id [] h = (tt, inl (refl, refl, refl))
posted-IsLast os n id (create_on_raster handle ∷ ts) (h, hs) = posted-IsLast os n id ts hs
posted-IsLast os n id (dispose_on_raster m j ∷ ts) (h, hs) =
    let (alone, last) = posted-IsLast os n id ts hs in
    let ne : m ≢ n = λ e. (let below = h.0 in ground arith) in (inr (ne, alone), inr (ne, last))

-- Numbers that are below.
below-ne : (n : ℕ) (ms : List ℕ) → All (λ m. m < n) ms → All (λ m. m ≢ n) ms
below-ne n [] h = tt
below-ne n (m ∷ ms) (h, hs) = (λ e. (ground arith), below-ne n ms hs)

below_next : (n : ℕ) (ms : List ℕ) → All (λ m. m < n) ms → All (λ m. m < n + 1) ms
below_next n [] h = tt
below_next n (m ∷ ms) (h, hs) = (ground arith, below_next n ms hs)

module _ (E : Engine) (has_handle : Bool) where
  pub request_dispose-IsWaiting :
      (id : ℕ) (o : VideoOutput) (s : Video)
      → output_at id s.outputs ≡ some o
      → IsSafe s
      → IsWaiting s.next_task id (request_dispose E has_handle id o s)
  unfolding request_dispose
  request_dispose-IsWaiting id o s at safe =
      let n = s.next_task in
      let o' : VideoOutput = record o { dispose_requested = true } in
      let os = put_output id o' s.outputs in
      let k : Keeps o s.gl o' s.gl =
        same-Keeping (Owns-Knows s.outputs s.gl id o safe.0 at) refl refl refl in
      let here : output_at id os ≡ some o' =
        output_at-put_self id s.outputs o o' at (output_at-id id s.outputs o at) in
      let (owns, tasks, below, fine) =
        put-Valid s.outputs s.gl s.gl id n o o' s.tasks s.done_tasks s.fault at k safe in
      let (alone, last) = posted-IsLast os n id s.tasks tasks in
      let grown =
        grown-TaskIsValid os os n (n + 1) s.tasks (λ j p. p) (λ m q. ground arith) tasks in
      let next : n < n + 1 = ground arith in
      let after = below_next n s.done_tasks below in
      let ne = below-ne n s.done_tasks below in
      if-both (IsWaiting n id) E.posts _ _
        (
          (
            owns,
            All-append (TaskIsValid os (n + 1)) s.tasks _ grown ((next, (o', here)), tt),
            after,
            fine,
          ),
          (o', (here, refl)),
          last,
          ne,
        )
        ((owns, grown, after, fine), (o', (here, refl)), alone, ne)

  -- The output goes when its task is done: it has no context, and no task is left.
  erased-IsSafe :
      (id : ℕ) (s : Video) → IsOver id s → IsSafe (record s { outputs = erase_output id s.outputs })
  erased-IsSafe id s ((owns, _, below, fine), (o, (at, _), bare), none_left) = (
    λ c j held.
        (let (p, there, rc) = owns c j held in
          let ne : j ≢ id = λ e.
            (let there' : output_at id s.outputs ≡ some p =
                ap (λ (n : ℕ). output_at n s.outputs) (sym e) ∙ there in
              let same : p ≡ o = cc in
              let rc' : o.render_context ≡ some c =
                ap (λ (x : VideoOutput). x.render_context) (sym same) ∙ rc in
              cc) in
          (p, output_at-erase_ne id j s.outputs ne ∙ there, rc)),
    rw none_left tt,
    below,
    fine,
  )

  ended-IsSafe :
      (id : ℕ) (s : Video)
      → IsSafe s
      → IsSafe (
          respond E has_handle
            (encode_success null)
            (record s { registered = drop_name id s.registered }))
  ended-IsSafe id s safe =
      respond-IsSafe E has_handle (encode_success null)
        (record s { registered = drop_name id s.registered }) safe

  waited : (n id : ℕ) (s : Video) → IsWaiting n id s ⊎ IsOver id s → Present id s.outputs × IsSafe s
  waited n id s (inl (safe, (o, (at, _)), _, _)) = ((o, at), safe)
  waited n id s (inr (safe, (o, (at, _), _), _)) = ((o, at), safe)

  end_dispose-IsSafe :
      (binds : Bool) (es : List Step) (n id : ℕ) (s : Video)
      → All Binds es
      → IsWaiting n id s
      → IsSafe (end_dispose E has_handle binds n id (step_all es s))
  unfolding end_dispose
  end_dispose-IsSafe binds es n id s b w =
      let s' = step_all es s in
      elim (Bool-cases (is_done n s'.done_tasks)) [
        | inl done ↦
            let after = erased-IsSafe id s' (done_step_all-IsOver es n id s b w done) in
            rw (done, end_dispose)
              (ended-IsSafe id (record s' { outputs = erase_output id s'.outputs }) after)
        | inr late ↦
            let (here, safe) = waited n id s' (step_all-Waits es n id s b (inl w)) in
            let (_, _, _, after, _) = destroy_at-Quiet binds id id s' here safe in
            rw (late, end_dispose) (ended-IsSafe id (destroy_at binds id s') after)
      ]

  dispose_output-IsSafe :
      (binds : Bool) (es : List Step) (found : Option ℕ) (s : Video)
      → All Binds es
      → IsSafe s
      → IsSafe (dispose_output E has_handle binds es found s)
  unfolding dispose_output
  dispose_output-IsSafe binds es none s b safe = respond-IsSafe E has_handle _ s safe
  dispose_output-IsSafe binds es (some id) s b safe = elim (Option-cases (output_at id s.outputs)) [
    | inl e ↦ rw (e, dispose_output) (respond-IsSafe E has_handle _ s safe)
    | inr (o, e) ↦
        rw (e, dispose_output)
          (end_dispose-IsSafe binds es s.next_task id (request_dispose E has_handle id o s) b
            (request_dispose-IsWaiting id o s e safe))
  ]

  call_method-IsSafe :
      (binds : Bool) (es : List Step) (method : List ℕ) (args : StdValue) (s : Video)
      → All Binds es
      → IsSafe s
      → IsSafe (call_method E has_handle binds es method args s)
  unfolding call_method handle_dispose
  call_method-IsSafe binds es method args s b safe =
      let found = find_by_handle (handle_of E has_handle args) s.outputs in
      if-both IsSafe _ _ _ (handle_create-IsSafe E has_handle args s safe) (
        if-both IsSafe _ _ _ (handle_set_size-IsSafe E has_handle args s safe) (
          if-both IsSafe _ _ _ (dispose_output-IsSafe binds es found s b safe)
            (respond-IsSafe E has_handle [] s safe)))

  call_decoded-IsSafe :
      (binds : Bool) (es : List Step) (r : Decoded (List ℕ × StdValue)) (s : Video)
      → All Binds es
      → IsSafe s
      → IsSafe (call_decoded E has_handle binds es r s)
  unfolding call_decoded
  call_decoded-IsSafe binds es (ok (method, args)) s b safe =
      call_method-IsSafe binds es method args s b safe
  call_decoded-IsSafe binds es r s b safe = respond-IsSafe E has_handle _ s safe

  pub handle-IsSafe :
      (binds : Bool) (es : List Step) (channel message : List ℕ) (s : Video)
      → All Binds es
      → IsSafe s
      → IsSafe (handle_media_kit_video E has_handle binds es channel message s).1
  unfolding handle_media_kit_video
  handle-IsSafe binds es channel message s b safe =
      if-both (λ (r : Bool × Video). IsSafe r.1)
        (bytes_eq channel (codes "com.alexmercerind/media_kit_video")) _ _
        (call_decoded-IsSafe binds es (decode_method_call message) s b safe) safe
