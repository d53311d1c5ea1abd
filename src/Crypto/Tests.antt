-- ===== src/Crypto/Tests.antt =====
-- Concrete runs of the key schedule.
use aether_protocol.Prelude.{ℕ, ◌≡◌, ◌↔◌, refl, arith, some}
use aether_protocol.Crypto.{
  AeadAlgorithm, aes256_gcm, cha_cha20_poly1305, algorithm_name, algorithm_from_str,
}
use aether_protocol.Crypto.Keys.{DirectionalKeys, make_nonce}
use aether_protocol.Crypto.Nonces.{make_nonce_inj}
use aether_protocol.Crypto.Sample.{repeat}

abbrev some_keys : DirectionalKeys
some_keys = record { tx_key = repeat 32 1; tx_iv = repeat 12 0xA5; packet_number = 0 }

make_nonce_inj_example :
    (make_nonce (record some_keys { packet_number = 256 })
      ≡ make_nonce (record some_keys { packet_number = 257 }))
    ↔ (◌≡◌ {A = ℕ} 256 257)
make_nonce_inj_example = make_nonce_inj some_keys 256 257 refl (omega arith) (omega arith)

-- Each algorithm is read back from its name.
names_read :
    (algorithm : AeadAlgorithm) → algorithm_from_str (algorithm_name algorithm) ≡ some algorithm
unfolding algorithm_from_str algorithm_name
names_read aes256_gcm = refl
names_read cha_cha20_poly1305 = refl
