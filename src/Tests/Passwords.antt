-- ===== src/Tests/Passwords.antt =====
-- The cryptography at concrete inputs, with a hash function that gives 32 zeros.
use messenger_walkie_talkie.Prelude.{
  ℕ, zero, suc, ◌-◌, ◌≡◌, ◌↔◌, refl, sym, ap, ◌∙◌, true, List, [], ◌∷◌, some, arith, take,
}
use messenger_walkie_talkie.Prelude.Int.{pos}
use messenger_walkie_talkie.Server.Crypto.{
  Digest, zeros, hmac_sha256, xor_bytes, stretch, pbkdf2_block, pbkdf2_blocks, derive_pbkdf2,
  hash_password, verify_password,
}
use messenger_walkie_talkie.Server.Crypto.Password.{key_of, verify_password-hash_password}

abbrev flat : Digest
flat = record {
  sha256 = λ bytes. zeros 32;
  to_hex = λ bytes. "00";
  from_hex = λ text. zeros 32;
  to_utf8 = λ text. [];
  number = λ n. "120000";
  to_int = λ text. some (pos 120000);
  split = λ text. "pbkdf2_sha256" ∷ "120000" ∷ "00" ∷ "00" ∷ [];
}

stretch-flat :
    (rounds : ℕ) (password value : List ℕ)
    → stretch flat rounds password value (zeros 32) ≡ zeros 32
unfolding stretch hmac_sha256 xor_bytes
stretch-flat zero password value = refl
stretch-flat (suc rounds) password value = stretch-flat rounds password (zeros 32)

block-flat : (password salt : List ℕ) (n i : ℕ) → pbkdf2_block flat password salt n i ≡ zeros 32
unfolding pbkdf2_block hmac_sha256
block-flat password salt n i = stretch-flat (n - 1) password (zeros 32)

first_block :
    (fuel : ℕ) (password salt : List ℕ) (n : ℕ)
    → pbkdf2_blocks flat (suc (suc fuel)) password salt n 32 1 []
      ≡ pbkdf2_block flat password salt n 1
unfolding pbkdf2_blocks
first_block fuel password salt n = rw (block-flat password salt n 1) refl

derive-flat : (password salt : List ℕ) (n : ℕ) → derive_pbkdf2 flat password salt n 32 ≡ zeros 32
unfolding derive_pbkdf2
derive-flat password salt n =
    ap (take 32) (first_block 30 password salt n ∙ block-flat password salt n 1)

verify_password-hash_password_example :
    (verify_password flat "secret" (hash_password flat (zeros 32) "secret") ≡ true)
    ↔ (key_of flat (zeros 32) "secret" ≡ key_of flat (zeros 32) "secret")
verify_password-hash_password_example =
    verify_password-hash_password flat (λ bytes. refl) (zeros 32) "secret" "secret" (omega arith)
      refl refl (sym (derive-flat [] (zeros 32) 120000)) refl
