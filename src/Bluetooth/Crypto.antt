-- ===== src/Bluetooth/Crypto.antt =====
-- main/src/bluetooth_crypto.cpp. AES-GCM and HMAC-SHA256 are mbedtls and are parameters, with the
-- law of an authenticated cipher that the protocol relies on.
use plant_watering.Prelude.{
  ℕ, ◌+◌, ◌-◌, ◌≡◌, Bool, true, false, List, [], ◌∷◌, ◌++◌, Option, none, some, arith, ltb,
  if◌then◌else◌, length, take, drop, length-append, take-append_of, drop-append_of, Option-cases,
  ge→ltb, inl, inr,
}
use plant_watering.Prelude.Maybe.{◌>>=◌, ◌>>◌, guard}
use plant_watering.Bluetooth.Message.{Mac, MessageId, encode_message_id}

abbrev pub gcm_tag_size : ℕ
gcm_tag_size = 16

abbrev pub gcm_iv_size : ℕ
gcm_iv_size = 12

abbrev pub net_key : List ℕ
net_key = 0 ∷ 1 ∷ 2 ∷ 3 ∷ 4 ∷ 5 ∷ 6 ∷ 7 ∷ 8 ∷ 9 ∷ 10 ∷ 11 ∷ 12 ∷ 13 ∷ 14 ∷ 15 ∷ []

-- `mbedtls_md_hmac` from a key and the material; `mbedtls_gcm_crypt_and_tag` and
-- `mbedtls_gcm_auth_decrypt` from a key, the initialisation vector and the authenticated header.
pub record Primitives : Type 0 where
  pub hmac : List ℕ → List ℕ → Option (List ℕ)
  pub seal : List ℕ → List ℕ → List ℕ → List ℕ → Option (List ℕ × List ℕ)
  pub unseal : List ℕ → List ℕ → List ℕ → List ℕ → List ℕ → Option (List ℕ)

-- Encryption keeps the length and makes a tag of the requested size, and what was encrypted is
-- decrypted again under the same key, vector and header.
pub record IsAead (p : Primitives) : Type 0 where
  pub seal_lengths :
      (key iv aad plain cipher tag : List ℕ)
      → p.seal key iv aad plain ≡ some (cipher, tag)
      → (length cipher ≡ length plain) × (length tag ≡ gcm_tag_size)
  pub unseal-seal :
      (key iv aad plain cipher tag : List ℕ)
      → p.seal key iv aad plain ≡ some (cipher, tag)
      → p.unseal key iv aad cipher tag ≡ some plain

abbrev pub build_authenticated_header : Mac → MessageId → List ℕ
build_authenticated_header target id = target ++ encode_message_id id

-- "btiv".
abbrev iv_label : List ℕ
iv_label = b'b' ∷ b't' ∷ b'i' ∷ b'v' ∷ []

unfoldable pub derive_iv : Primitives → Mac → MessageId → Option (List ℕ)
derive_iv p target id = do
  hmac ← p.hmac net_key (build_authenticated_header target id ++ iv_label)
  some (take gcm_iv_size hmac)

-- `init_ok` is the answer of `btCryptoInit`.
unfoldable pub encrypt_payload : Primitives → Bool → List ℕ → Mac → MessageId → Option (List ℕ)
encrypt_payload p init_ok input target id = do
  guard init_ok
  iv ← derive_iv p target id
  (cipher, tag) ← p.seal net_key iv (build_authenticated_header target id) input
  some (cipher ++ tag)

unfoldable pub decrypt_payload : Primitives → Bool → List ℕ → Mac → MessageId → Option (List ℕ)
decrypt_payload p init_ok input target id = if ltb (length input) gcm_tag_size then none else (do
  guard init_ok
  iv ← derive_iv p target id
  let cipher_len = length input - gcm_tag_size
  p.unseal net_key iv (build_authenticated_header target id) (take cipher_len input)
      (drop cipher_len input))

-- The two parts are found again in the encoded form.
split_encoded :
    (cipher tag : List ℕ)
    → length tag ≡ gcm_tag_size
    → let whole = cipher ++ tag in
      (take (length whole - gcm_tag_size) whole ≡ cipher)
      × (drop (length whole - gcm_tag_size) whole ≡ tag)
      × (length whole ≡ length cipher + gcm_tag_size)
split_encoded cipher tag h =
    let size = length-append cipher tag in
    (
      take-append_of (length (cipher ++ tag) - gcm_tag_size) cipher tag (omega arith),
      drop-append_of (length (cipher ++ tag) - gcm_tag_size) cipher tag (omega arith),
      omega arith,
    )

-- What one device encrypts for a target and an id, another device decrypts for the same ones; the
-- encoded form is longer by the tag.
pub decrypt_payload-encrypt_payload :
    (p : Primitives) (input encoded : List ℕ) (target : Mac) (id : MessageId)
    → IsAead p
    → encrypt_payload p true input target id ≡ some encoded
    → (decrypt_payload p true encoded target id ≡ some input)
      × (length encoded ≡ length input + gcm_tag_size)
unfolding encrypt_payload decrypt_payload
decrypt_payload-encrypt_payload p input encoded target id law e =
    elim (Option-cases (derive_iv p target id)) [
      | inl no_iv ↦ ground arith
      | inr (iv, has_iv) ↦
          elim (Option-cases (p.seal net_key iv (build_authenticated_header target id) input)) [
            | inl unsealed ↦ ground arith
            | inr ((cipher, tag), sealed) ↦
                let aad = build_authenticated_header target id in
                let whole : encoded ≡ cipher ++ tag = ground arith in
                let lengths = law.seal_lengths net_key iv aad input cipher tag sealed in
                let (front, back, size) = split_encoded cipher tag lengths.1 in
                let long : ltb (length (cipher ++ tag)) gcm_tag_size ≡ false =
                  ge→ltb _ _ (omega arith) in
                rw whole (
                  rw (long, has_iv, front, back)
                      (law.unseal-seal net_key iv aad input cipher tag sealed),
                  omega arith,
                )
          ]
    ]
