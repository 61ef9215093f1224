-- ===== src/Server/Crypto/Password.antt =====
-- The password hashes of Server/serverstorage.cpp.
use messenger_walkie_talkie.Prelude.{
  ℕ, zero, suc, ◌+◌, ◌-◌, ◌%◌, ◌^◌, ◌≤◌, String, ◌≡◌, ◌≢◌, ◌↔◌, refl, sym, ap, subst, ◌∙◌, true,
  false, eqb, List, [], ◌∷◌, ◌++◌, some, arith, length, length-append, length-take,
}
use messenger_walkie_talkie.Prelude.Int.{pos}
use messenger_walkie_talkie.Server.Crypto.{
  Digest, hmac_sha256, xor_bytes, stretch, pbkdf2_block, pbkdf2_blocks, derive_pbkdf2,
  hash_password, stored_form, verify_password, verify_split, verify_parts, constant_time_equals,
  pbkdf2_iterations, pbkdf2_key_length, is_empty_bytes, to_big_endian,
}
use messenger_walkie_talkie.Server.Crypto.Compare.{constant_time_equals_iff}

length-xor_bytes : (xs ys : List ℕ) → length (xor_bytes xs ys) ≡ length xs
unfolding xor_bytes
length-xor_bytes [] ys = refl
length-xor_bytes (x ∷ xs) [] = refl
length-xor_bytes (x ∷ xs) (y ∷ ys) = ap suc (length-xor_bytes xs ys)

not_empty : (bytes : List ℕ) → length bytes ≢ 0 → is_empty_bytes bytes ≡ false
not_empty [] h = absurd (h refl)
not_empty (b ∷ bytes) h = refl

-- The key that a password's hash holds.
abbrev pub key_of : Digest → List ℕ → String → List ℕ
key_of q salt password =
    derive_pbkdf2 q (q.to_utf8 password) salt pbkdf2_iterations pbkdf2_key_length

module _ (q : Digest) (digest_length : (bytes : List ℕ) → length (q.sha256 bytes) ≡ 32) where
  length-stretch :
      (rounds : ℕ) (password value block : List ℕ)
      → length (stretch q rounds password value block) ≡ length block
  unfolding stretch
  length-stretch zero password value block = refl
  length-stretch (suc rounds) password value block =
      let value' = hmac_sha256 q password value in
      length-stretch rounds password value' (xor_bytes block value') ∙ length-xor_bytes block value'

  length-pbkdf2_block :
      (password salt : List ℕ) (iterations i : ℕ)
      → length (pbkdf2_block q password salt iterations i) ≡ 32
  unfolding pbkdf2_block hmac_sha256
  length-pbkdf2_block password salt iterations i =
      let value = hmac_sha256 q password (salt ++ to_big_endian i) in
      length-stretch (iterations - 1) password value value ∙ digest_length _

  length-pbkdf2_blocks :
      (fuel : ℕ) (password salt : List ℕ) (iterations key_length i : ℕ) (derived : List ℕ)
      → key_length ≤ fuel + length derived
      → key_length ≤ length (pbkdf2_blocks q fuel password salt iterations key_length i derived)
  unfolding pbkdf2_blocks
  length-pbkdf2_blocks zero password salt iterations key_length i derived h = omega arith
  length-pbkdf2_blocks (suc fuel) password salt iterations key_length i derived h =
      let block = pbkdf2_block q password salt iterations i in
      ground (
        arith,
        length-append derived block,
        length-pbkdf2_block password salt iterations i,
        length-pbkdf2_blocks fuel password salt iterations key_length ((i + 1) % 2 ^ 32)
            (derived ++ block),
      )

  -- Where the hash function gives 32 bytes, derivePbkdf2 ends with a key of exactly the length that
  -- was asked for.
  length-derive_pbkdf2 :
      (password salt : List ℕ) (iterations key_length : ℕ)
      → length (derive_pbkdf2 q password salt iterations key_length) ≡ key_length
  unfolding derive_pbkdf2
  length-derive_pbkdf2 password salt iterations key_length = omega (
    arith,
    length-take key_length (pbkdf2_blocks q key_length password salt iterations key_length 1 []),
    length-pbkdf2_blocks key_length password salt iterations key_length 1 [] (omega arith),
  )

  -- A hash that splits into four fields which read as these values is compared with the derived key.
  verify_password_lem :
      (given stored t s d : String) (n : ℕ) (salt key : List ℕ)
      → q.split stored ≡ "pbkdf2_sha256" ∷ t ∷ s ∷ d ∷ []
      → q.to_int t ≡ some (pos n)
      → q.from_hex s ≡ salt
      → q.from_hex d ≡ key
      → eqb n 0 ≡ false
      → is_empty_bytes salt ≡ false
      → is_empty_bytes key ≡ false
      → verify_password q given stored
        ≡ constant_time_equals (derive_pbkdf2 q (q.to_utf8 given) salt n (length key)) key
  unfolding verify_password verify_split verify_parts
  verify_password_lem given stored t s d n salt key split_ok n_ok salt_ok key_ok n0 s0 k0 =
      rw (split_ok, n_ok, salt_ok, key_ok, n0, s0, k0) refl

  hash_password-form :
      (salt : List ℕ) (password : String)
      → hash_password q salt password
        ≡ stored_form "pbkdf2_sha256"
            (q.number pbkdf2_iterations)
            (q.to_hex salt)
            (q.to_hex (key_of q salt password))
  unfolding hash_password
  hash_password-form salt password = refl

  -- verifyPassword accepts a password against the hash that hashPassword made of another exactly when
  -- the two derive one key from the salt; so it accepts the password itself. The hash function gives
  -- 32 bytes, the salt is not empty, and Qt reads back what it wrote: the decimal number, the two
  -- hexadecimal fields and the four fields between the "$".
  pub verify_password-hash_password :
      (salt : List ℕ) (given password : String)
      → length salt ≢ 0
      → q.to_int (q.number pbkdf2_iterations) ≡ some (pos pbkdf2_iterations)
      → q.from_hex (q.to_hex salt) ≡ salt
      → q.from_hex (q.to_hex (key_of q salt password)) ≡ key_of q salt password
      → q.split (
          stored_form "pbkdf2_sha256"
            (q.number pbkdf2_iterations)
            (q.to_hex salt)
            (q.to_hex (key_of q salt password)))
        ≡ "pbkdf2_sha256"
          ∷ q.number pbkdf2_iterations
          ∷ q.to_hex salt
          ∷ q.to_hex (key_of q salt password)
          ∷ []
      → (verify_password q given (hash_password q salt password) ≡ true)
        ↔ (key_of q salt given ≡ key_of q salt password)
  verify_password-hash_password salt given password has_salt number_ok salt_ok key_ok split_ok =
      let key = key_of q salt password in
      let key_length =
        length-derive_pbkdf2 (q.to_utf8 password) salt pbkdf2_iterations pbkdf2_key_length in
      let key_has = not_empty key (λ e. absurd (omega (arith, e, key_length))) in
      let run =
        verify_password_lem given (hash_password q salt password) (q.number pbkdf2_iterations)
          (q.to_hex salt) (q.to_hex key) pbkdf2_iterations salt key
          (ap q.split (hash_password-form salt password) ∙ split_ok) number_ok salt_ok key_ok refl
          (not_empty salt has_salt) key_has in
      subst
        (λ l.
          (verify_password q given (hash_password q salt password) ≡ true)
          ↔ (derive_pbkdf2 q (q.to_utf8 given) salt pbkdf2_iterations l ≡ key))
        key_length
        (subst
          (λ b.
            (b ≡ true)
            ↔ (derive_pbkdf2 q (q.to_utf8 given) salt pbkdf2_iterations (length key) ≡ key))
          (sym run)
          (constant_time_equals_iff
            (derive_pbkdf2 q (q.to_utf8 given) salt pbkdf2_iterations (length key)) key))
