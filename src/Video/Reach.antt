-- ===== src/Video/Reach.antt =====
-- What the threads do one after another, as the platform thread sees it: a message of the channel, the
-- pump, or a step of another thread between them. The wait of a Dispose holds steps of its own.
use flutter_libnx.Prelude.{ℕ, refl, Bool, false, List, [], All}
use flutter_libnx.Video.Frame.{Video, Step, call_back, next_task, frame, step, pump}
use flutter_libnx.Video.Channel.{Engine, handle_media_kit_video}
use flutter_libnx.Video.Steps.{IsSafe, texture_frame-Quiet, call_back-Quiet}
use flutter_libnx.Video.Waiting.{Binds, run_next-IsSafe}
use flutter_libnx.Video.Disposal.{handle-IsSafe}

pub data Turn : Video → Video → Type 0 where
  message :
      {s : Video} (E : Engine) (has_handle binds : Bool) (meanwhile : List Step)
      (channel bytes : List ℕ)
      → All Binds meanwhile
      → Turn s (handle_media_kit_video E has_handle binds meanwhile channel bytes s).1
  other : {s : Video} (e : Step) → Turn s (step e s)
  pumped : {s : Video} → Turn s (pump s)

pub data Turns (s : Video) : Video → Type 0 where
  at_start : Turns s s
  and_then : {t u : Video} → Turns s t → Turn t u → Turns s u

-- The globals before the first message.
abbrev pub no_video : Video
no_video = record {
  outputs = [];
  next_texture_id = 1;
  gl = record { contexts = []; textures = []; framebuffers = []; next = 1 };
  tasks = [];
  next_task = 0;
  done_tasks = [];
  registered = [];
  marked = [];
  rendered = [];
  responses = [];
  messages = [];
  fault = false;
}

pub step-IsSafe : (e : Step) (s : Video) → IsSafe s → IsSafe (step e s)
unfolding step
step-IsSafe (call_back c) s safe = (let (_, _, _, after, _) = call_back-Quiet c 0 s safe in after)
step-IsSafe (next_task a) s safe = run_next-IsSafe a s.tasks s refl safe
step-IsSafe (frame id a) s safe =
    (let (_, _, _, after, _) = texture_frame-Quiet a 0 id s safe in after)

Turn-IsSafe : {s t : Video} → Turn s t → IsSafe s → IsSafe t
unfolding pump
Turn-IsSafe (message {s} E has_handle binds es channel bytes b) safe =
    handle-IsSafe E has_handle binds es channel bytes s b safe
Turn-IsSafe (other {s} e) safe = step-IsSafe e s safe
Turn-IsSafe pumped safe = safe

Turns-IsSafe : {s t : Video} → Turns s t → IsSafe s → IsSafe t
Turns-IsSafe at_start safe = safe
Turns-IsSafe (and_then before last) safe = Turn-IsSafe last (Turns-IsSafe before safe)

-- Whatever the threads do, in any order, from the start: no pointer to a freed output is used, by mpv's
-- callback or by a task, and every one that mpv or a task holds is to an output that is there. This is
-- if the raster thread could bind the context for the tasks it runs while a Dispose waits.
pub reached-IsSafe : {s : Video} → Turns no_video s → IsSafe s
reached-IsSafe h = Turns-IsSafe h (λ c j held. elim held [ ], tt, tt, refl)
