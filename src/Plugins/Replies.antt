-- ===== src/Plugins/Replies.antt =====
-- Every message that a handler takes for its own is answered once; any other is left to the caller.
use flutter_libnx.Prelude.{
  ℕ, ◌≡◌, refl, Bool, true, false, Option, none, some, List, [], ◌∷◌, ◌++◌, if◌then◌else◌, ◌∙◌,
  arith, codes, bytes_eq,
}
use flutter_libnx.Codec.Value.{StdValue}
use flutter_libnx.Codec.Decode.{Decoded, ok, rejected, fault, stuck}
use flutter_libnx.Plugins.Disk.{Disk}
use flutter_libnx.Plugins.Storage.{ensure_dir}
use flutter_libnx.Plugins.Handlers.{
  Plugins, PathReply, subdir, no_path, no_paths, unknown, is_setter, is_web_url, respond, provide,
  set_pref, prefs_method, load_prefs, secure_write, secure_delete, secure_method, load_secure,
}
use flutter_libnx.Plugins.FilePicker.{
  Folders, import_dir, method_is, picked, respond_json, handle_file_picker,
}
use flutter_libnx.Plugins.Dispatch.{
  is_plugin_channel, open_page, launch, handle_url_launcher, call_channel, call_decoded,
  handle_plugin_message,
}

-- `sent` with one more response, if the message asks for one.
abbrev pub sent_once : Bool → List (List ℕ) → List ℕ → List (List ℕ)
sent_once handle sent payload = if handle then sent ++ (payload ∷ []) else sent

-- The outcome of a handler, from a state with this handle and these responses sent.
data Replied (D : Disk) (handle : Bool) (sent : List (List ℕ)) : Bool × Plugins D → Type 0 where
  once :
      {t : Plugins D} (payload : List ℕ)
      → t.sent ≡ sent_once handle sent payload
      → Replied D handle sent (true, t)
  never : {t : Plugins D} → t.sent ≡ sent → Replied D handle sent (false, t)

module _ {D : Disk} {handle : Bool} {sent : List (List ℕ)} where
  Replied-if :
      (b : Bool) {x y : Bool × Plugins D}
      → Replied D handle sent x
      → Replied D handle sent y
      → Replied D handle sent (if b then x else y)
  Replied-if true hx hy = hx
  Replied-if false hx hy = hy

  Replied-iff :
      {r : Bool × Plugins D}
      → Replied D handle sent r
      → (r.0 ≡ true → (payload : List ℕ) × (r.1.sent ≡ sent_once handle sent payload))
        × (r.0 ≡ false → r.1.sent ≡ sent)
  Replied-iff (once payload e) = (λ _. (payload, e), λ f. cc)
  Replied-iff (never e) = (λ f. cc, λ _. e)

pub sent-respond :
    (D : Disk) (payload : List ℕ) (s : Plugins D)
    → (respond D payload s).sent ≡ sent_once s.has_handle s.sent payload
unfolding respond
sent-respond D payload s = ground arith

module _ (D : Disk) (app_id : List ℕ) (web_page_create : List ℕ → Bool) where
  answer-Replied :
      (payload : List ℕ) (s t : Plugins D)
      → t.sent ≡ s.sent
      → t.has_handle ≡ s.has_handle
      → Replied D s.has_handle s.sent (true, respond D payload t)
  answer-Replied payload s t e f = once payload (rw (← e, ← f) (sent-respond D payload t))

  provide-Replied :
      (r : PathReply) (s : Plugins D) → Replied D s.has_handle s.sent (provide D app_id r s)
  unfolding provide
  provide-Replied (subdir d) s =
      Replied-if (ensure_dir D _ s.world).0 (answer-Replied _ s _ refl refl)
        (answer-Replied _ s _ refl refl)
  provide-Replied no_path s = answer-Replied _ s s refl refl
  provide-Replied no_paths s = answer-Replied _ s s refl refl
  provide-Replied unknown s = never refl

  set_pref-Replied :
      (method : List ℕ) (key : Option (List ℕ)) (value : Option StdValue) (s : Plugins D)
      → Replied D s.has_handle s.sent (set_pref D app_id method key value s)
  unfolding set_pref
  set_pref-Replied method (some k) (some v) s = answer-Replied _ s _ refl refl
  set_pref-Replied method (some k) none s = answer-Replied _ s _ refl refl
  set_pref-Replied method none value s = answer-Replied _ s _ refl refl

  prefs-Replied :
      (method : List ℕ) (args : StdValue) (s : Plugins D)
      → Replied D s.has_handle s.sent (prefs_method D app_id method args s)
  unfolding prefs_method
  prefs-Replied method args s =
      Replied-if (bytes_eq method (codes "getAll")) (answer-Replied _ s s refl refl) (
        Replied-if (is_setter method) (set_pref-Replied method _ _ s) (
          Replied-if (bytes_eq method (codes "remove")) (answer-Replied _ s _ refl refl) (
            Replied-if (bytes_eq method (codes "clear")) (answer-Replied _ s _ refl refl) (
              Replied-if (bytes_eq method (codes "commit")) (answer-Replied _ s s refl refl)
                (never refl)))))

  secure_write-Replied :
      (key : Option (List ℕ)) (value : Option StdValue) (s : Plugins D)
      → Replied D s.has_handle s.sent (secure_write D app_id key value s)
  unfolding secure_write
  secure_write-Replied (some k) (some v) s = answer-Replied _ s _ refl refl
  secure_write-Replied (some k) none s = answer-Replied _ s _ refl refl
  secure_write-Replied none value s = answer-Replied _ s _ refl refl

  secure_delete-Replied :
      (key : Option (List ℕ)) (s : Plugins D)
      → Replied D s.has_handle s.sent (secure_delete D app_id key s)
  unfolding secure_delete
  secure_delete-Replied (some k) s = answer-Replied _ s _ refl refl
  secure_delete-Replied none s = answer-Replied _ s _ refl refl

  secure-Replied :
      (method : List ℕ) (args : StdValue) (s : Plugins D)
      → Replied D s.has_handle s.sent (secure_method D app_id method args s)
  unfolding secure_method
  secure-Replied method args s =
      Replied-if (bytes_eq method (codes "read")) (answer-Replied _ s s refl refl) (
        Replied-if (bytes_eq method (codes "containsKey")) (answer-Replied _ s s refl refl) (
          Replied-if (bytes_eq method (codes "readAll")) (answer-Replied _ s s refl refl) (
            Replied-if (bytes_eq method (codes "write")) (secure_write-Replied _ _ s) (
              Replied-if (bytes_eq method (codes "delete")) (secure_delete-Replied _ s) (
                Replied-if (bytes_eq method (codes "deleteAll")) (answer-Replied _ s _ refl refl)
                  (never refl))))))

  sent-open_page :
      (url : List ℕ) (s : Plugins D) → (open_page D app_id web_page_create url s).sent ≡ s.sent
  unfolding open_page
  sent-open_page url s = ground arith

  launch-Replied :
      (url : Option (List ℕ)) (s : Plugins D)
      → Replied D s.has_handle s.sent (launch D app_id web_page_create url s)
  unfolding launch
  launch-Replied none s = answer-Replied _ s _ refl refl
  launch-Replied (some url) s =
      Replied-if (is_web_url url) (once _ (sent-open_page url _ ∙ sent-respond D _ s))
        (answer-Replied _ s _ refl refl)

  url_launcher-Replied :
      (method : List ℕ) (args : StdValue) (s : Plugins D)
      → Replied D s.has_handle s.sent (handle_url_launcher D app_id web_page_create method args s)
  unfolding handle_url_launcher
  url_launcher-Replied method args s =
      Replied-if (bytes_eq method (codes "canLaunch")) (answer-Replied _ s s refl refl) (
        Replied-if (bytes_eq method (codes "launch")) (launch-Replied _ s) (
          Replied-if (bytes_eq method (codes "closeWebView")) (answer-Replied _ s s refl refl)
            (never refl)))

  call_channel-Replied :
      (channel method : List ℕ) (args : StdValue) (s : Plugins D)
      → Replied D s.has_handle s.sent (call_channel D app_id web_page_create channel method args s)
  unfolding call_channel
  call_channel-Replied channel method args s =
      Replied-if (bytes_eq channel (codes "plugins.flutter.io/path_provider")) (provide-Replied _ s)
        (Replied-if (bytes_eq channel (codes "plugins.it_nomads.com/flutter_secure_storage"))
          (secure-Replied method args (load_secure D app_id s))
          (Replied-if (bytes_eq channel (codes "plugins.flutter.io/url_launcher"))
            (url_launcher-Replied method args s)
            (prefs-Replied method args (load_prefs D app_id s))))

  call_decoded-Replied :
      (channel : List ℕ) (r : Decoded (List ℕ × StdValue)) (s : Plugins D)
      → Replied D s.has_handle s.sent (call_decoded D app_id web_page_create channel r s)
  unfolding call_decoded
  call_decoded-Replied channel (ok (method, args)) s = call_channel-Replied channel method args s
  call_decoded-Replied channel rejected s = never refl
  call_decoded-Replied channel fault s = never refl
  call_decoded-Replied channel stuck s = never refl

  sent-respond_json :
      (payload : List ℕ) (s : Plugins D)
      → (respond_json D payload s).sent ≡ sent_once s.has_handle s.sent payload
  unfolding respond_json
  sent-respond_json payload s = ground arith

  json-Replied :
      (payload : List ℕ) (s t : Plugins D)
      → t.sent ≡ s.sent
      → t.has_handle ≡ s.has_handle
      → Replied D s.has_handle s.sent (true, respond_json D payload t)
  json-Replied payload s t e f = once payload (rw (← e, ← f) (sent-respond_json payload t))

  file_picker-Replied :
      (F : Folders D) (message : List ℕ) (s : Plugins D)
      → Replied D s.has_handle s.sent (handle_file_picker D F app_id message s)
  unfolding handle_file_picker
  file_picker-Replied F message s =
      let dir = import_dir app_id in
      let s' : Plugins D = record s { world = (ensure_dir D dir s.world).1 } in
      Replied-if (method_is (codes "clear") message) (json-Replied (codes "[true]") s s refl refl) (
        Replied-if (method_is (codes "dir") message)
          (json-Replied (codes "[\"" ++ (dir ++ codes "\"]")) s s' refl refl)
          (json-Replied (picked D F app_id message s'.world) s s' refl refl))

  -- On any channel, and for any message: if the handler takes the message for its own, it has sent
  -- exactly one response, or none where the message has no response handle; otherwise it has sent
  -- none.
  pub handle_plugin_message_answers :
      (F : Folders D) (channel message : List ℕ) (s : Plugins D)
      → let r = handle_plugin_message D app_id web_page_create F channel message s in
        (r.0 ≡ true → (payload : List ℕ) × (r.1.sent ≡ sent_once s.has_handle s.sent payload))
        × (r.0 ≡ false → r.1.sent ≡ s.sent)
  unfolding handle_plugin_message
  handle_plugin_message_answers F channel message s = Replied-iff (
      Replied-if (bytes_eq channel (codes "miguelruivo.flutter.plugins.filepicker"))
        (file_picker-Replied F message s)
        (Replied-if (is_plugin_channel D app_id web_page_create channel)
          (call_decoded-Replied channel _ s) (never refl)))
