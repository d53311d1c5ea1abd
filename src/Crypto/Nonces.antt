-- ===== src/Crypto/Nonces.antt =====
-- A nonce tells the packet numbers apart, and the initial key never fails.
use aether_protocol.Prelude.{
  ℕ, zero, suc, ◌/◌, ◌%◌, ◌^◌, ◌<◌, ◌≡◌, ◌↔◌, refl, sym, ap, ap₂, ◌∙◌, arith, List, [], ◌∷◌, length,
  take, drop, length-drop,
}
use mathlib.Core.List.{head-eq_of_cons-eq, tail-eq_of_cons-eq, append_cancel_left}
use native.Mathlib.Nat.{pow-suc}
use aether_protocol.Prelude.Xor.{xor_cancel}
use aether_protocol.Crypto.Keys.{DirectionalKeys, make_nonce, to_le, xor_bytes}

to_le_inj : (w p q : ℕ) → p < 256 ^ w → q < 256 ^ w → to_le w p ≡ to_le w q → p ≡ q
to_le_inj zero p q h k e = omega arith
to_le_inj (suc w) p q h k e =
    let low : p % 256 ≡ q % 256 = head-eq_of_cons-eq e in
    let high =
      to_le_inj w (p / 256) (q / 256) (omega (arith, pow-suc 256 w)) (omega (arith, pow-suc 256 w))
        (tail-eq_of_cons-eq e) in
    omega (arith, low, high)

xor_bytes_cancel :
    (iv a b : List ℕ)
    → length a ≡ length iv
    → length b ≡ length iv
    → xor_bytes iv a ≡ xor_bytes iv b
    → a ≡ b
xor_bytes_cancel [] [] [] h k e = refl
xor_bytes_cancel [] [] (y ∷ b) h k e = absurd (omega arith)
xor_bytes_cancel [] (x ∷ a) b h k e = absurd (omega arith)
xor_bytes_cancel (v ∷ iv) [] b h k e = absurd (omega arith)
xor_bytes_cancel (v ∷ iv) (x ∷ a) [] h k e = absurd (omega arith)
xor_bytes_cancel (v ∷ iv) (x ∷ a) (y ∷ b) h k e =
    ap₂ ◌∷◌ (xor_cancel v x y (head-eq_of_cons-eq e))
      (xor_bytes_cancel iv a b (omega arith) (omega arith) (tail-eq_of_cons-eq e))

length-to_le : (w p : ℕ) → length (to_le w p) ≡ w
length-to_le zero p = refl
length-to_le (suc w) p = ap suc (length-to_le w (p / 256))

length-tail : (iv : List ℕ) → length iv ≡ 12 → length (drop 4 iv) ≡ 8
length-tail iv len = omega (arith, length-drop 4 iv)

-- With an IV of 12 bytes and packet numbers below 2^64, two nonces of the same keys are equal
-- exactly if the packet numbers are.
pub make_nonce_inj :
    (keys : DirectionalKeys) (p q : ℕ)
    → length keys.tx_iv ≡ 12
    → p < 2 ^ 64
    → q < 2 ^ 64
    → (make_nonce (record keys { packet_number = p })
        ≡ make_nonce (record keys { packet_number = q }))
      ↔ (p ≡ q)
unfolding make_nonce
make_nonce_inj keys p q len h k =
    let tail = drop 4 keys.tx_iv in
    let tail_length = length-tail keys.tx_iv len in
    (
      (λ e. to_le_inj 8 p q h k (
          xor_bytes_cancel tail (to_le 8 p) (to_le 8 q) (length-to_le 8 p ∙ sym tail_length)
            (length-to_le 8 q ∙ sym tail_length)
            (append_cancel_left (take 4 keys.tx_iv) (xor_bytes tail (to_le 8 p))
              (xor_bytes tail (to_le 8 q)) e))),
      (λ same. ap (λ n. make_nonce (record keys { packet_number = n })) same),
    )
