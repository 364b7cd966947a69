-- ===== src/Codec/Call.antt =====
-- Method calls and the envelopes of the answers (standard_message_codec.cpp).
use flutter_libnx.Prelude.{ℕ, ◌≡◌, ◌≢◌, List, [], ◌++◌, length, All, IsByte}
use flutter_libnx.Codec.Value.{StdValue, null, string, IsEncodable}
use flutter_libnx.Codec.Encode.{push_back, encode}
use flutter_libnx.Codec.Decode.{Decoded, ok, rejected, fault, stuck, load, decode_std_value, ◌>>=◌}
use flutter_libnx.Codec.Extends.{Extends-refl, Extends-trans, Extends-append, load-push_back}
use flutter_libnx.Codec.Written.{encode-Extends}
use flutter_libnx.Codec.RoundTrip.{decode-encode_within}
use flutter_libnx.Codec.Answers.{
  Answers, returns, rejects, Answers-bind, Answers-ne-fault, Answers-ne-stuck,
}
use flutter_libnx.Codec.Safety.{decode_std_value-Answers}

-- `name.type != kString` is false.
unfoldable pub string_only : StdValue → Decoded (List ℕ)
string_only (string s) = ok s
string_only v = rejected

-- DecodeStdMethodCall: the method's name and its arguments.
unfoldable pub decode_method_call : List ℕ → Decoded (List ℕ × StdValue)
unfolding string_only
decode_method_call buffer = do
  (name, cursor) ← decode_std_value buffer 0
  method ← string_only name
  (args, after) ← decode_std_value buffer cursor
  ok (method, args)

unfoldable pub encode_success : StdValue → List ℕ
encode_success result = encode result (push_back 0 [])

unfoldable pub encode_error : List ℕ → List ℕ → List ℕ
encode_error code message =
    encode null (encode (string message) (encode (string code) (push_back 1 [])))

-- A call that was encoded as its name and then its arguments is decoded to these, whatever bytes
-- follow.
pub decode_method_call-encode :
    (name : List ℕ) (args : StdValue) (rest : List ℕ)
    → IsEncodable (string name)
    → IsEncodable args
    → decode_method_call (encode args (encode (string name) []) ++ rest) ≡ ok (name, args)
unfolding decode_method_call string_only
decode_method_call-encode name args rest hn ha =
    let whole = encode args (encode (string name) []) ++ rest in
    let named = encode (string name) [] in
    let e' = Extends-append (encode args named) rest in
    let e = Extends-trans named _ whole (encode-Extends args named) e' in
    rw (decode-encode_within (string name) [] whole hn e)
      (rw (decode-encode_within args named whole ha e'))

string_only-Answers :
    (v : StdValue) → IsEncodable v → Answers (λ s. IsEncodable (string s)) (string_only v)
unfolding string_only
string_only-Answers (string s) h = returns h
string_only-Answers v h = rejects

pub decode_method_call-Answers :
    (buffer : List ℕ)
    → All IsByte buffer
    → Answers (λ r. IsEncodable (string r.0) × IsEncodable r.1) (decode_method_call buffer)
unfolding decode_method_call
decode_method_call-Answers buffer bytes =
    Answers-bind (decode_std_value-Answers buffer 0 bytes) λ (name, cursor) (valid, _, _).
      Answers-bind (string_only-Answers name valid) λ method named.
        Answers-bind (decode_std_value-Answers buffer cursor bytes)
          λ (args, after) (valid', _, _). returns (named, valid')

-- DecodeStdMethodCall ends on every message of bytes, without a read outside it.
pub decode_method_call_safe :
    (buffer : List ℕ)
    → All IsByte buffer
    → (decode_method_call buffer ≢ fault) × (decode_method_call buffer ≢ stuck)
decode_method_call_safe buffer bytes =
    let h = decode_method_call-Answers buffer bytes in (Answers-ne-fault h, Answers-ne-stuck h)

-- An answer begins with its envelope's byte, 0 or 1. Behind it stand the result of a success, and
-- the code, the message and null of an error, up to the end.
pub envelopes :
    (result : StdValue) (code message : List ℕ)
    → IsEncodable result
    → IsEncodable (string code)
    → IsEncodable (string message)
    → let failure = encode_error code message in
      let coded = length (encode (string code) (push_back 1 [])) in
      let told = length (encode (string message) (encode (string code) (push_back 1 []))) in
      (load (encode_success result) 0 ≡ ok 0)
      × (decode_std_value (encode_success result) 1 ≡ ok (result, length (encode_success result)))
      × (load failure 0 ≡ ok 1)
      × (decode_std_value failure 1 ≡ ok (string code, coded))
      × (decode_std_value failure coded ≡ ok (string message, told))
      × (decode_std_value failure told ≡ ok (null, length failure))
unfolding encode_success encode_error
envelopes result code message hr hc hm =
    let failed = push_back 1 [] in
    let coded = encode (string code) failed in
    let told = encode (string message) coded in
    let ended = encode null told in
    let e3 = Extends-refl ended in
    let e2 = encode-Extends null told in
    let e1 = Extends-trans coded told ended (encode-Extends (string message) coded) e2 in
    let e0 = Extends-trans failed coded ended (encode-Extends (string code) failed) e1 in
    (
      load-push_back 0 [] _ (encode-Extends result (push_back 0 [])),
      decode-encode_within result (push_back 0 []) _ hr (Extends-refl _),
      load-push_back 1 [] ended e0,
      decode-encode_within (string code) failed ended hc e1,
      decode-encode_within (string message) coded ended hm e2,
      decode-encode_within null told ended tt e3,
    )
