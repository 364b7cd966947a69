-- ===== src/TextInput/Handler.antt =====
-- flutter_libnx_handle_textinput.
use flutter_libnx.Prelude.{
  ℕ, Bool, true, false, ◌&&◌, not, Option, none, some, List, [], ◌∷◌, ◌++◌, ◌==◌, if◌then◌else◌,
  codes, bytes_eq, contains, ℤ, pos, negsuc, is_negative,
}
use flutter_libnx.TextInput.Utf8.{utf16_length}
use flutter_libnx.TextInput.Json.{Strings, json_escape, extract_json_string, extract_client_id}

-- The globals g_client_id, g_text and g_input_action, whether the message carries a response handle,
-- and what the engine was sent: responses to messages, and messages to the client.
pub record TextInput : Type 0 where
  pub client_id : ℤ
  pub text : List ℕ
  pub input_action : List ℕ
  pub has_handle : Bool
  pub responses : List (List ℕ)
  pub messages : List (List ℕ)

-- The keyboard applet, with what the user does. `create` is whether swkbdCreate succeeded; `show` is
-- given the initial text, and answers whether swkbdShow succeeded and the C string that it wrote.
pub record Keyboard : Type 0 where
  pub create : Bool
  pub show : List ℕ → Bool × List ℕ

abbrev pub default_action : List ℕ
default_action = codes "TextInputAction.done"

-- `c_str()` as a C function reads it: up to the first zero.
unfoldable pub c_str : List ℕ → List ℕ
c_str [] = []
c_str (c ∷ s) = if c == 0 then [] else c ∷ c_str s

unfoldable pub respond_null : TextInput → TextInput
respond_null t =
    if t.has_handle then record t { responses = t.responses ++ (codes "[null]" ∷ []) } else t

unfoldable pub send_client_message : List ℕ → TextInput → TextInput
send_client_message payload t = record t { messages = t.messages ++ (payload ∷ []) }

module _ (L : Strings) where
  -- The payload of updateEditingState.
  unfoldable pub update_payload : ℤ → List ℕ → List ℕ
  update_payload client text =
      let sel = L.to_string (pos (utf16_length text)) in
      codes "{\"method\":\"TextInputClient.updateEditingState\",\"args\":["
      ++ L.to_string client
      ++ codes ",{\"text\":\""
      ++ json_escape L text
      ++ codes "\",\"selectionBase\":"
      ++ sel
      ++ codes ",\"selectionExtent\":"
      ++ sel
      ++ codes ",\"selectionAffinity\":\"TextAffinity.downstream\","
      ++ codes "\"selectionIsDirectional\":false,\"composingBase\":-1,"
      ++ codes "\"composingExtent\":-1}]}"

  -- The payload of performAction.
  unfoldable pub action_payload : ℤ → List ℕ → List ℕ
  action_payload client action =
      codes "{\"method\":\"TextInputClient.performAction\",\"args\":["
      ++ L.to_string client
      ++ codes ",\""
      ++ action
      ++ codes "\"]}"

  unfoldable pub set_client : Option (Bool × List ℕ) → ℤ → TextInput → TextInput
  unfolding respond_null
  set_client (some (true, action)) id t =
      respond_null (record t { client_id = id; input_action = action })
  set_client r id t = respond_null (record t { client_id = id; input_action = default_action })

  unfoldable pub set_text : Option (Bool × List ℕ) → TextInput → TextInput
  unfolding respond_null
  set_text (some (found, text)) t = respond_null (record t { text = text })
  set_text none t = t

  -- The part of TextInput.show behind the applet.
  unfoldable pub confirm : Bool × List ℕ → TextInput → TextInput
  unfolding send_client_message update_payload action_payload
  confirm (succeeded, out) t =
      if succeeded && not (is_negative t.client_id)
      then send_client_message (action_payload t.client_id t.input_action)
          (send_client_message (update_payload t.client_id out) (record t { text = out }))
      else t

  unfoldable pub show_keyboard : Keyboard → TextInput → TextInput
  unfolding confirm c_str respond_null
  show_keyboard k t =
      if k.create then confirm (k.show (c_str t.text)) (respond_null t) else respond_null t

  unfoldable pub handle_message : Keyboard → List ℕ → TextInput → TextInput
  unfolding set_client set_text show_keyboard respond_null
  handle_message k msg t =
      if contains (codes "\"TextInput.setClient\"") msg
      then set_client (extract_json_string L msg (codes "inputAction") t.input_action)
          (extract_client_id L msg) t
      else if contains (codes "\"TextInput.setEditingState\"") msg
      then set_text (extract_json_string L msg (codes "text") t.text) t
      else if contains (codes "\"TextInput.clearClient\"") msg
      then respond_null (record t { client_id = negsuc 0; text = [] })
      else if contains (codes "\"TextInput.show\"") msg
      then show_keyboard k t
      else respond_null t

  -- flutter_libnx_handle_textinput
  unfoldable pub handle_textinput : Keyboard → List ℕ → List ℕ → TextInput → Bool × TextInput
  unfolding handle_message
  handle_textinput k channel msg t =
      if bytes_eq channel (codes "flutter/textinput")
      then (true, handle_message k msg t)
      else (false, t)
