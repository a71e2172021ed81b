-- ===== src/Protocol/Codec/RoundTrip.antt =====
-- `Encode` and `Decode` of internal/protocol/codec.go against one another.
use matter_cli.Prelude.{
  ℕ, ◌+◌, ◌^◌, ◌≤◌, ◌<◌, ◌≡◌, refl, true, false, Option, none, some, List, ◌++◌, length, All,
  All-append, length-append, take-length_append, drop-length_append, ok, ◌>>=◌, >>=-eq-ok, arith,
  Bool-cases, inl, inr,
}
use matter_cli.Prelude.Bits.{IsByte}
use matter_cli.Crypto.Ccm.{aes_ccm_encrypt, aes_ccm_decrypt}
use matter_cli.Crypto.Ccm.Ctr.{IsBlockCipher}
use matter_cli.Crypto.Ccm.Seal.{decrypt-encrypt}
use matter_cli.Protocol.Message.{
  Message, MessageHeader, ProtocolHeader, encode_message_header, encode_protocol_header,
  header_size,
}
use matter_cli.Protocol.Message.Flags.{protocol_flags_bits}
use matter_cli.Protocol.Message.Header.{IsWellSized, on_wire, decode-encode_message_header}
use matter_cli.Protocol.Message.Proto.{
  IsWellFlagged, proto_on_wire, protocol_size, decode-encode_protocol_header,
}
use matter_cli.Protocol.Session.{Session}
use matter_cli.Protocol.Codec.{
  is_secured, secured, build_nonce, message_nonce, seal, encode, unseal, decode_plaintext, decode,
}

pub length-encode_message_header :
    (h : MessageHeader) → length (encode_message_header h) ≡ header_size h
unfolding encode_message_header header_size
length-encode_message_header h = ground arith

pub length-encode_protocol_header :
    (p : ProtocolHeader) → length (encode_protocol_header p) ≡ protocol_size p
unfolding encode_protocol_header protocol_size
length-encode_protocol_header p = ground arith

encode_protocol_header-IsByte :
    (p : ProtocolHeader) → IsWellFlagged p → All IsByte (encode_protocol_header p)
unfolding encode_protocol_header
encode_protocol_header-IsByte p v = ground (arith, protocol_flags_bits p)

length-build_nonce : (f c n : ℕ) → length (build_nonce f c n) ≡ 13
unfolding build_nonce
length-build_nonce f c n = refl

-- The message as a receiver sees it.
pub message_on_wire : Message → Message
message_on_wire m = record {
  header = on_wire m.header;
  protocol = proto_on_wire m.protocol;
  payload = m.payload;
}

pub record IsSendable (m : Message) : Type 0 where
  pub header : IsWellSized m.header
  pub protocol : IsWellFlagged m.protocol
  pub payload : All IsByte m.payload
  pub fits : length m.payload + 12 < 2 ^ 16

decode_plaintext-encode :
    (h : MessageHeader) (p : ProtocolHeader) (payload : List ℕ)
    → IsWellFlagged p
    → decode_plaintext h (encode_protocol_header p ++ payload)
      ≡ ok (record { header = h; protocol = proto_on_wire p; payload = payload })
unfolding decode_plaintext
decode_plaintext-encode h p payload v = rw (
  decode-encode_protocol_header p payload v,
  decode_plaintext,
  drop-length_append (protocol_size p) (encode_protocol_header p) payload
      (length-encode_protocol_header p),
)

length-message_nonce : (h : MessageHeader) (n : ℕ) → length (message_nonce h n) ≡ 13
unfolding message_nonce
length-message_nonce h n = length-build_nonce h.security_flags h.message_counter _

plaintext_fits :
    (m : Message) → IsSendable m → length (encode_protocol_header m.protocol ++ m.payload) < 2 ^ 16
plaintext_fits m v =
    let size : protocol_size m.protocol ≤ 12 = unfold protocol_size in ground arith in
    omega (
      arith,
      length-append (encode_protocol_header m.protocol) m.payload,
      length-encode_protocol_header m.protocol,
      size,
      v.fits,
    )

plaintext-IsByte :
    (m : Message) → IsSendable m → All IsByte (encode_protocol_header m.protocol ++ m.payload)
plaintext-IsByte m v =
    All-append IsByte (encode_protocol_header m.protocol) m.payload
      (encode_protocol_header-IsByte m.protocol v.protocol) v.payload

-- Both ends of a session: the peer's decryption key is the sender's key, and the peer knows the
-- sender's node ID where the header does not say it.
pub record IsPaired (key : List ℕ) (m : Message) (s r : Session) : Type 0 where
  pub key_size : length key ≡ 16
  pub sender_secured : is_secured s.type_ ≡ true
  pub receiver_secured : is_secured r.type_ ≡ true
  pub sender_key : s.encrypt_key ≡ some key
  pub receiver_key : r.decrypt_key ≡ some key
  pub node : m.header.has_source_node_id ≡ false → r.peer_node_id ≡ s.local_node_id

secured-some :
    (key : Session → Option (List ℕ)) (s : Session) (k : List ℕ)
    → is_secured s.type_ ≡ true
    → key s ≡ some k
    → secured key (some s) ≡ some (s, k)
unfolding secured
secured-some key s k h e = rw (h, e, secured)

same_nonce :
    (h : MessageHeader) (a b : ℕ)
    → (h.has_source_node_id ≡ false → b ≡ a)
    → message_nonce (on_wire h) b ≡ message_nonce h a
unfolding message_nonce on_wire
same_nonce h a b e = elim (Bool-cases h.has_source_node_id) [ inl y ↦ rw y | inr n ↦ rw (n, e n) ]

module _ (aes : List ℕ → List ℕ → List ℕ) where
  decode-header :
      (h : MessageHeader) (body : List ℕ) (session : Option Session)
      → IsWellSized h
      → decode aes (encode_message_header h ++ body) session ≡ (
          unseal aes
            (on_wire h)
            (encode_message_header h)
            body
            (secured (λ s. s.decrypt_key) session)
          >>= decode_plaintext (on_wire h))
  unfolding decode
  decode-header h body session v = rw (
    decode-encode_message_header h body v,
    decode,
    take-length_append (header_size h) (encode_message_header h) body
        (length-encode_message_header h),
    drop-length_append (header_size h) (encode_message_header h) body
        (length-encode_message_header h),
  )

  -- A message that can be sent is encoded, and decodes to itself as it is on the wire, where neither
  -- end has a secured session with a key; the cipher plays no part.
  pub decode-encode_clear :
      (m : Message) (s r : Option Session)
      → IsSendable m
      → secured (λ q. q.encrypt_key) s ≡ none
      → secured (λ q. q.decrypt_key) r ≡ none
      → (encode aes m s >>= λ wire. decode aes wire r) ≡ ok (message_on_wire m)
  unfolding encode message_on_wire seal unseal
  decode-encode_clear m s r v hs hr = rw (
    hs,
    decode-header m.header (encode_protocol_header m.protocol ++ m.payload) r v.header,
    hr,
    decode_plaintext-encode (on_wire m.header) m.protocol m.payload v.protocol,
  )

  -- A message that can be sent is encoded under a secured session, and decodes to itself as it is on
  -- the wire under the session paired with it, where the block cipher maps any block to 16 bytes.
  pub decode-encode_secured :
      (cipher : (k : List ℕ) → length k ≡ 16 → IsBlockCipher (aes k)) (key : List ℕ) (m : Message)
      (s r : Session)
      → IsSendable m
      → IsPaired key m s r
      → (encode aes m (some s) >>= λ wire. decode aes wire (some r)) ≡ ok (message_on_wire m)
  unfolding encode message_on_wire seal unseal
  decode-encode_secured cipher key m s r v pair =
      let nonce : List ℕ = message_nonce m.header s.local_node_id in
      let hdr : List ℕ = encode_message_header m.header in
      let plaintext : List ℕ = encode_protocol_header m.protocol ++ m.payload in
      let (sealed, made, opened) =
        >>=-eq-ok (aes_ccm_encrypt aes key nonce plaintext hdr)
          (λ c. aes_ccm_decrypt aes key nonce c hdr)
          (decrypt-encrypt aes cipher key nonce plaintext hdr pair.key_size
            (length-message_nonce m.header s.local_node_id) (plaintext_fits m v)
            (plaintext-IsByte m v)) in
      rw (
        secured-some (λ q. q.encrypt_key) s key pair.sender_secured pair.sender_key,
        made,
        seal,
        decode-header m.header sealed (some r) v.header,
        secured-some (λ q. q.decrypt_key) r key pair.receiver_secured pair.receiver_key,
        same_nonce m.header s.local_node_id r.peer_node_id pair.node,
        opened,
        unseal,
        decode_plaintext-encode (on_wire m.header) m.protocol m.payload v.protocol,
      )
