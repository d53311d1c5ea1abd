-- ===== src/Crypto/Keys.antt =====
-- aether-core/src/crypto.rs: `DirectionalKeys` and `AeadSession`, the keys of both directions.
use Prim.Native.Nat.{bit_xor}
use aether_protocol.Prelude.{
  ℕ, zero, suc, ◌/◌, ◌%◌, Bool, none, List, [], ◌∷◌, ◌++◌, if◌then◌else◌, take, drop,
}
use aether_protocol.Errors.{Error, Result, ok, ◌>>=◌, or_error}
use aether_protocol.Crypto.{Primitives, AeadAlgorithm}

pub record DirectionalKeys : Type 0 where
  pub tx_key : List ℕ
  pub tx_iv : List ℕ
  pub packet_number : ℕ

-- `hkdf.expand` fills 44 bytes, of which 32 are the key and 12 the nonce.
unfoldable pub derive : Primitives → List ℕ → List ℕ → Result DirectionalKeys
derive prims secret label = do
  okm ← or_error (prims.hkdf_expand none secret label 44) Error.crypto
  ok (record { tx_key = take 32 okm; tx_iv = drop 32 okm; packet_number = 0 })

-- `to_le_bytes`.
abbrev pub to_le : ℕ → ℕ → List ℕ
to_le zero n = []
to_le (suc w) n = n % 256 ∷ to_le w (n / 256)

abbrev pub xor_bytes : List ℕ → List ℕ → List ℕ
xor_bytes [] bs = []
xor_bytes (a ∷ rest) [] = a ∷ rest
xor_bytes (a ∷ rest) (b ∷ bs) = bit_xor a b ∷ xor_bytes rest bs

unfoldable pub make_nonce : DirectionalKeys → List ℕ
make_nonce keys = take 4 keys.tx_iv ++ xor_bytes (drop 4 keys.tx_iv) (to_le 8 keys.packet_number)

unfoldable pub encrypt : Primitives → DirectionalKeys → List ℕ → List ℕ → Result (List ℕ)
encrypt prims keys plaintext aad =
    or_error (prims.aead_encrypt keys.tx_key (make_nonce keys) plaintext aad) Error.crypto

unfoldable pub decrypt : Primitives → DirectionalKeys → List ℕ → List ℕ → Result (List ℕ)
decrypt prims keys ciphertext aad =
    or_error (prims.aead_decrypt keys.tx_key (make_nonce keys) ciphertext aad) Error.crypto

pub record AeadSession : Type 0 where
  pub client_tx : DirectionalKeys
  pub server_tx : DirectionalKeys
  pub algorithm : AeadAlgorithm

-- b"aether-client-tx" and b"aether-server-tx".
abbrev pub client_label : List ℕ
client_label =
    97 ∷ 101 ∷ 116 ∷ 104 ∷ 101 ∷ 114 ∷ 45 ∷ 99 ∷ 108 ∷ 105 ∷ 101 ∷ 110 ∷ 116 ∷ 45 ∷ 116 ∷ 120 ∷ []

abbrev pub server_label : List ℕ
server_label =
    97 ∷ 101 ∷ 116 ∷ 104 ∷ 101 ∷ 114 ∷ 45 ∷ 115 ∷ 101 ∷ 114 ∷ 118 ∷ 101 ∷ 114 ∷ 45 ∷ 116 ∷ 120 ∷ []

unfoldable pub new_aead_session : Primitives → List ℕ → AeadAlgorithm → Result AeadSession
new_aead_session prims session_key algorithm = do
  client_tx ← derive prims session_key client_label
  server_tx ← derive prims session_key server_label
  ok (record { client_tx = client_tx; server_tx = server_tx; algorithm = algorithm })

unfoldable pub tx_keys : AeadSession → Bool → DirectionalKeys
tx_keys session is_client = if is_client then session.client_tx else session.server_tx

unfoldable pub rx_keys : AeadSession → Bool → DirectionalKeys
rx_keys session is_client = if is_client then session.server_tx else session.client_tx

-- The body holds comments only.
unfoldable pub increment_tx : AeadSession → Bool → AeadSession
increment_tx session is_client = session
