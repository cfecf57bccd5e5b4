-- ===== src/Wifiin/Header/Key.antt =====
-- internal/kuaifan/wifiin/cipher.go: the key that `DeriveKey` makes of a password.
use kfadapter.Base.{
  ℕ, zero, suc, ◌+◌, ◌-◌, ◌≤◌, ◌<◌, ◌≡◌, refl, ap, ◌∙◌, List, [], ◌∷◌, ◌++◌, take, length,
  length-append, arith, lt→ltb,
}
use kfadapter.Base.Bytes.{Bytes}
use kfadapter.Wifiin.Header.{key_size, derive_loop, derive_key}

take_all : {A : Type 0} (n : ℕ) (xs : List A) → length xs ≤ n → take n xs ≡ xs
take_all zero [] h = refl
take_all zero (x ∷ xs) h = absurd (omega arith)
take_all (suc n) [] h = refl
take_all (suc n) (x ∷ xs) h = ap (λ t. x ∷ t) (take_all n xs (omega arith))

derive_more :
    (md5 : Bytes → Bytes) (password : Bytes) (fuel : ℕ) (previous key : Bytes)
    → length key + length (md5 (previous ++ password)) ≤ key_size
    → length key < key_size
    → derive_loop md5 password (suc fuel) previous key
      ≡ derive_loop md5 password fuel
          (md5 (previous ++ password))
          (key ++ md5 (previous ++ password))
unfolding derive_loop
derive_more md5 password fuel previous key fits h =
    rw (lt→ltb _ _ h, take_all (key_size - length key) (md5 (previous ++ password)) (omega arith))

derive_done :
    (md5 : Bytes → Bytes) (password : Bytes) (fuel : ℕ) (previous key : Bytes)
    → length key ≡ key_size
    → derive_loop md5 password (suc fuel) previous key ≡ key
unfolding derive_loop
derive_done md5 password fuel previous key h = ground arith

-- With a 16-byte digest the key is two chained digests, the second of the first and the password, and
-- has 32 bytes.
pub derive_key-two_rounds :
    (md5 : Bytes → Bytes) (password : Bytes)
    → ((s : Bytes) → length (md5 s) ≡ 16)
    → (derive_key md5 password ≡ md5 password ++ md5 (md5 password ++ password))
      × (length (derive_key md5 password) ≡ 32)
unfolding derive_key
derive_key-two_rounds md5 password sized =
    let first = md5 password in
    let second = md5 (first ++ password) in
    let size : length (first ++ second) ≡ 32 =
      omega (arith, length-append first second, sized password, sized (first ++ password)) in
    let key : derive_loop md5 password 33 [] [] ≡ first ++ second =
      derive_more md5 password 32 [] [] (omega (arith, sized password)) (omega arith)
      ∙ derive_more md5 password 31 first first
          (omega (arith, sized password, sized (first ++ password))) (omega (arith, sized password))
      ∙ derive_done md5 password 30 second (first ++ second) size in
    (key, ap length key ∙ size)
