-- ===== src/Protocol/Codec.antt =====
-- internal/protocol/codec.go: whole messages on the wire, sealed with AES-CCM on secured sessions.
pub mod RoundTrip
use matter_cli.Prelude.{
  ℕ, Bool, true, false, not, if◌then◌else◌, Option, none, some, List, [], ◌∷◌, ◌++◌, take, drop,
  Result, ok, err, ◌>>=◌,
}
use matter_cli.Prelude.Le.{put_le}
use matter_cli.Crypto.Ccm.{CcmError, aes_ccm_encrypt, aes_ccm_decrypt}
use matter_cli.Protocol.Message.{
  Message, MessageHeader, HeaderError, encode_message_header, decode_message_header,
  encode_protocol_header, decode_protocol_header,
}
use matter_cli.Protocol.Session.{Session, SessionType, unsecured, pase, case}

pub data CodecError : Type 0 where
  message_header : HeaderError → CodecError
  protocol_header : HeaderError → CodecError
  encrypt_payload : CcmError → CodecError
  decrypt_payload : CcmError → CodecError

unfoldable pub is_secured : SessionType → Bool
is_secured unsecured = false
is_secured pase = true
is_secured case = true

-- The session and its key, where the session is not nil, is secured and has the key.
unfoldable pub secured : (Session → Option (List ℕ)) → Option Session → Option (Session × List ℕ)
secured key none = none
secured key (some s) =
    if is_secured s.type_ then elim (key s) [ none ↦ none | some k ↦ some (s, k) ] else none

-- 13 bytes: security flags, message counter, node ID.
unfoldable pub build_nonce : ℕ → ℕ → ℕ → List ℕ
build_nonce security_flags message_counter source_node_id =
    security_flags ∷ (put_le 4 message_counter ++ put_le 8 source_node_id)

-- The header's source node ID, or that of the session where the header has none.
unfoldable pub message_nonce : MessageHeader → ℕ → List ℕ
message_nonce h session_node_id =
    build_nonce h.security_flags h.message_counter
      (if h.has_source_node_id then h.source_node_id else session_node_id)

unfoldable pub decode_plaintext : MessageHeader → List ℕ → Result CodecError Message
decode_plaintext h plaintext = elim (decode_protocol_header plaintext) [
  | ok (p, n) ↦ ok (record { header = h; protocol = p; payload = drop n plaintext })
  | err e ↦ err (protocol_header e)
]

module _ (aes : List ℕ → List ℕ → List ℕ) where
  unfoldable pub seal :
      MessageHeader → List ℕ → Option (Session × List ℕ) → Result CodecError (List ℕ)
  seal h plaintext none = ok plaintext
  seal h plaintext (some (s, key)) =
      elim (aes_ccm_encrypt aes key (message_nonce h s.local_node_id) plaintext
        (encode_message_header h)) [ ok sealed ↦ ok sealed | err e ↦ err (encrypt_payload e) ]

  unfoldable pub encode : Message → Option Session → Result CodecError (List ℕ)
  encode msg session =
      let plaintext = encode_protocol_header msg.protocol ++ msg.payload in
      seal msg.header plaintext (secured (λ s. s.encrypt_key) session) >>= λ bytes.
      ok (encode_message_header msg.header ++ bytes)

  unfoldable pub unseal :
      MessageHeader → List ℕ → List ℕ → Option (Session × List ℕ) → Result CodecError (List ℕ)
  unseal h header_bytes bytes none = ok bytes
  unseal h header_bytes bytes (some (s, key)) =
      elim (aes_ccm_decrypt aes key (message_nonce h s.peer_node_id) bytes header_bytes) [
        | ok plaintext ↦ ok plaintext
        | err e ↦ err (decrypt_payload e)
      ]

  unfoldable pub decode : List ℕ → Option Session → Result CodecError Message
  decode bytes session = elim (decode_message_header bytes) [
    | ok (h, n) ↦
        (unseal h (take n bytes) (drop n bytes) (secured (λ s. s.decrypt_key) session)
          >>= decode_plaintext h)
    | err e ↦ err (message_header e)
  ]
