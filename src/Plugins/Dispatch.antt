-- ===== src/Plugins/Dispatch.antt =====
-- url_launcher, and the dispatcher of the channels.
use flutter_libnx.Prelude.{
  ℕ, Bool, true, false, Option, none, some, List, [], ◌∷◌, ◌++◌, if◌then◌else◌, codes, bytes_eq,
  ◌||◌,
}
use flutter_libnx.Codec.Value.{StdValue, bool, as_map}
use flutter_libnx.Codec.Decode.{Decoded, ok}
use flutter_libnx.Codec.Call.{decode_method_call, encode_success, encode_error}
use flutter_libnx.Plugins.Disk.{Disk}
use flutter_libnx.Plugins.Table.{map_get}
use flutter_libnx.Plugins.FilePicker.{Folders, handle_file_picker}
use flutter_libnx.Plugins.Handlers.{
  Plugins, respond, answer, string_of, is_web_url, handle_path_provider, handle_shared_preferences,
  handle_secure_storage,
}

-- Whether the applet could be set up for a URL is the system's answer.
module _ (D : Disk) (app_id : List ℕ) (web_page_create : List ℕ → Bool) where
  -- webPageCreate, and webConfigShow if that succeeded.
  unfoldable pub open_page : List ℕ → Plugins D → Plugins D
  open_page url s = if web_page_create url then record s { opened = s.opened ++ (url ∷ []) } else s

  unfoldable pub can_launch : Option (List ℕ) → Bool
  can_launch (some url) = is_web_url url
  can_launch none = false

  unfoldable pub launch : Option (List ℕ) → Plugins D → Bool × Plugins D
  unfolding open_page respond
  launch none s =
      answer D app_id
        (encode_error (codes "argument")
          (codes "Nur http/https lassen sich auf der Konsole oeffnen"))
        s
  launch (some url) s =
      if is_web_url url
      then (true, open_page url (respond D (encode_success (bool true)) s))
      else answer D app_id
          (encode_error (codes "argument")
            (codes "Nur http/https lassen sich auf der Konsole oeffnen"))
          s

  unfoldable pub handle_url_launcher : List ℕ → StdValue → Plugins D → Bool × Plugins D
  unfolding launch can_launch
  handle_url_launcher method args s =
      let url = string_of (map_get (codes "url") (as_map args)) in
      if bytes_eq method (codes "canLaunch")
      then answer D app_id (encode_success (bool (can_launch url))) s
      else if bytes_eq method (codes "launch")
      then launch url s
      else if bytes_eq method (codes "closeWebView")
      then answer D app_id (encode_success (bool true)) s
      else (false, s)

  -- The last lines of the dispatcher: the handler of the channel.
  unfoldable pub call_channel : List ℕ → List ℕ → StdValue → Plugins D → Bool × Plugins D
  unfolding handle_path_provider handle_secure_storage handle_url_launcher handle_shared_preferences
  call_channel channel method args s =
      if bytes_eq channel (codes "plugins.flutter.io/path_provider")
      then handle_path_provider D app_id method s
      else if bytes_eq channel (codes "plugins.it_nomads.com/flutter_secure_storage")
      then handle_secure_storage D app_id method args s
      else if bytes_eq channel (codes "plugins.flutter.io/url_launcher")
      then handle_url_launcher method args s
      else handle_shared_preferences D app_id method args s

  unfoldable pub is_plugin_channel : List ℕ → Bool
  is_plugin_channel channel =
      bytes_eq channel (codes "plugins.flutter.io/path_provider")
      || bytes_eq channel (codes "plugins.flutter.io/shared_preferences")
      || bytes_eq channel (codes "plugins.it_nomads.com/flutter_secure_storage")
      || bytes_eq channel (codes "plugins.flutter.io/url_launcher")

  unfoldable pub call_decoded : List ℕ → Decoded (List ℕ × StdValue) → Plugins D → Bool × Plugins D
  unfolding call_channel
  call_decoded channel (ok (method, args)) s = call_channel channel method args s
  call_decoded channel r s = (false, s)

  unfoldable pub handle_plugin_message : Folders D → List ℕ → List ℕ → Plugins D → Bool × Plugins D
  unfolding handle_file_picker call_decoded is_plugin_channel decode_method_call
  handle_plugin_message F channel message s =
      if bytes_eq channel (codes "miguelruivo.flutter.plugins.filepicker")
      then handle_file_picker D F app_id message s
      else if is_plugin_channel channel
      then call_decoded channel (decode_method_call message) s
      else (false, s)
