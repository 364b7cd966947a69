-- ===== src/TextInput/Answered.antt =====
-- What a message on the text input channel is answered with, and when the client is told of a text.
use flutter_libnx.Prelude.{
  ℕ, ◌≡◌, Bool, true, false, List, [], ◌∷◌, ◌++◌, if◌then◌else◌, ◌&&◌, not, codes, contains,
  is_negative,
}
use flutter_libnx.TextInput.Json.{Strings}
use flutter_libnx.TextInput.Handler.{TextInput, Keyboard, c_str, update_payload, action_payload}

-- One response, if the message carries a handle.
abbrev pub answered : TextInput → List (List ℕ)
answered t = if t.has_handle then t.responses ++ (codes "[null]" ∷ []) else t.responses

-- TextInput.show, and none of the methods that the handler looks for before it.
abbrev pub is_show : List ℕ → Bool
is_show msg =
    not (contains (codes "\"TextInput.setClient\"") msg)
    && (not (contains (codes "\"TextInput.setEditingState\"") msg)
        && (not (contains (codes "\"TextInput.clearClient\"") msg)
            && contains (codes "\"TextInput.show\"") msg))

module _ (L : Strings) (k : Keyboard) where
  -- The text that the user confirmed became the text, and the client was told of it and of the action.
  pub record IsConfirmed (t t' : TextInput) : Type 0 where
    pub has_client : is_negative t.client_id ≡ false
    pub succeeded : (k.show (c_str t.text)).0 ≡ true
    pub text : t'.text ≡ (k.show (c_str t.text)).1
    pub messages :
        t'.messages
        ≡ t.messages
          ++ (update_payload L t.client_id (k.show (c_str t.text)).1
              ∷ action_payload L t.client_id t.input_action
              ∷ [])

  -- The keyboard is shown, the user confirms, and there is a client to tell.
  abbrev pub is_confirmed : List ℕ → TextInput → Bool
  is_confirmed msg t =
      is_show msg && (k.create && ((k.show (c_str t.text)).0 && not (is_negative t.client_id)))

  abbrev pub IsTold : Bool → TextInput → TextInput → Type 0
  IsTold true t t' = IsConfirmed t t'
  IsTold false t t' = t'.messages ≡ t.messages

  abbrev pub IsAnswered : Bool → TextInput → TextInput → Type 0
  IsAnswered b t t' = (t'.responses ≡ answered t) × IsTold b t t'
