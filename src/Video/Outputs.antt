-- ===== src/Video/Outputs.antt =====
-- The outputs, and what GL and mpv hold for them. A pointer to an output is its texture id, which no two
-- outputs share.
use flutter_libnx.Prelude.{
  ℕ, ◌+◌, Bool, true, false, not, ◌&&◌, Option, none, some, List, [], ◌∷◌, if◌then◌else◌, ◌==◌, ℤ,
}

pub record VideoOutput : Type 0 where
  pub handle : ℕ
  pub texture_id : ℕ
  pub render_context : Option ℕ
  pub texture : ℕ
  pub framebuffer : ℕ
  pub width : ℤ
  pub height : ℤ
  pub pending_width : ℤ
  pub pending_height : ℤ
  pub frame_pending : Bool
  pub dispose_requested : Bool
  pub create_failed : Bool

-- What lives in GL and mpv: render contexts, each with the output that its update callback points to,
-- and the names of textures and framebuffers. `next` is a name that was not used before.
pub record Gl : Type 0 where
  pub contexts : List (ℕ × ℕ)
  pub textures : List ℕ
  pub framebuffers : List ℕ
  pub next : ℕ

-- What the calls below answer, if they are made: flutter_libnx_egl_make_current, GlFunctions::Load,
-- mpv_render_context_create, CheckFramebufferStatus, mpv_render_context_update and _render.
pub record Answers : Type 0 where
  pub make_current : Bool
  pub load : Bool
  pub context_created : Bool
  pub complete : Bool
  pub has_frame : Bool
  pub renders : Bool

unfoldable pub drop_context : ℕ → List (ℕ × ℕ) → List (ℕ × ℕ)
drop_context c [] = []
drop_context c ((d, id) ∷ rest) =
    let others = drop_context c rest in if d == c then others else (d, id) ∷ others

unfoldable pub drop_name : ℕ → List ℕ → List ℕ
drop_name n [] = []
drop_name n (m ∷ rest) = let others = drop_name n rest in if m == n then others else m ∷ others

-- CreateRenderContextLocked on an output without one.
unfoldable pub new_render_context : Answers → VideoOutput → Gl → Bool × VideoOutput × Gl
new_render_context a o g =
    if not a.make_current
    then (false, record o { create_failed = true }, g)
    else if not a.load
    then (false, record o { create_failed = true }, g)
    else if not a.context_created
    then (false, record o { create_failed = true; render_context = none }, g)
    else (
      true,
      record o { render_context = some g.next },
      record g { contexts = (g.next, o.texture_id) ∷ g.contexts; next = g.next + 1 },
    )

unfoldable pub create_render_context : Answers → VideoOutput → Gl → Bool × VideoOutput × Gl
unfolding new_render_context
create_render_context a o g = elim o.render_context [
  | some c ↦ (true, o, g)
  | none ↦ new_render_context a o g
]

-- DeleteFramebuffers and DeleteTextures.
unfoldable pub delete_buffer : VideoOutput → Gl → Gl
unfolding drop_name
delete_buffer o g = record g {
  textures = drop_name o.texture g.textures;
  framebuffers = drop_name o.framebuffer g.framebuffers;
}

unfoldable pub allocate_buffer : Answers → ℤ → ℤ → VideoOutput → Gl → Bool × VideoOutput × Gl
unfolding delete_buffer
allocate_buffer a width height o g =
    let g' = if not (o.texture == 0) then delete_buffer o g else g in
    let o' = record o { texture = g'.next; framebuffer = g'.next + 1 } in
    let g'' = record g' {
      textures = g'.next ∷ g'.textures;
      framebuffers = (g'.next + 1) ∷ g'.framebuffers;
      next = g'.next + 2;
    } in
    if a.complete
    then (true, record o' { width = width; height = height }, g'')
    else (false, o', g'')

-- DestroyOutputGlLocked once the context is bound.
unfoldable pub free_context : VideoOutput → Gl → VideoOutput × Gl
unfolding drop_context
free_context o g = elim o.render_context [
  | none ↦ (o, g)
  | some c ↦ (record o { render_context = none }, record g { contexts = drop_context c g.contexts })
]

unfoldable pub free_buffer : VideoOutput → Gl → VideoOutput × Gl
unfolding delete_buffer
free_buffer o g =
    if not (o.texture == 0)
    then (record o { texture = 0; framebuffer = 0 }, delete_buffer o g)
    else (o, g)

abbrev pub has_no_context : Option ℕ → Bool
has_no_context none = true
has_no_context (some c) = false

unfoldable pub destroy_output_gl : Bool → VideoOutput → Gl → VideoOutput × Gl
unfolding free_context free_buffer
destroy_output_gl binds o g =
    let (o', g') = free_context o g in
    let freed = free_buffer o' g' in
    if has_no_context o.render_context && o.texture == 0
    then (o, g)
    else if not binds
    then (o, g)
    else freed

-- The outputs by pointer, and the pointer of a handle's output.
unfoldable pub output_at : ℕ → List VideoOutput → Option VideoOutput
output_at id [] = none
output_at id (o ∷ os) = if o.texture_id == id then some o else output_at id os

unfoldable pub find_by_handle : ℕ → List VideoOutput → Option ℕ
find_by_handle handle [] = none
find_by_handle handle (o ∷ os) =
    if o.handle == handle then some o.texture_id else find_by_handle handle os

-- The object at a pointer changes.
unfoldable pub put_output : ℕ → VideoOutput → List VideoOutput → List VideoOutput
put_output id new [] = []
put_output id new (o ∷ os) = if o.texture_id == id then new ∷ os else o ∷ put_output id new os

unfoldable pub erase_output : ℕ → List VideoOutput → List VideoOutput
erase_output id [] = []
erase_output id (o ∷ os) = if o.texture_id == id then os else o ∷ erase_output id os
