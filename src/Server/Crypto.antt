-- ===== src/Server/Crypto.antt =====
-- The cryptography of Server/serverstorage.cpp over bytes as numbers below 256. Qt's
-- QCryptographicHash, hexadecimal and decimal conversions are the fields of `Digest`; random bytes
-- are arguments.
pub mod Compare
pub mod Password
use Prim.Native.String.{◌++◌ as text_append}
use messenger_walkie_talkie.Prelude.Int.{ℤ, pos, negsuc}
use messenger_walkie_talkie.Prelude.{
  ℕ, zero, suc, ◌+◌, ◌-◌, ◌*◌, ◌/◌, ◌%◌, ◌^◌, bit_or, bit_xor, String, Bool, true, false, not, ◌&&◌,
  ◌||◌, List, [], ◌∷◌, ◌++◌, Option, none, some, ltb, leb, eqb, if◌then◌else◌, length, take, drop,
  is_empty, ◌==◌, string_eq,
}

abbrev pub pbkdf2_iterations : ℕ
pbkdf2_iterations = 120000

abbrev pub pbkdf2_key_length : ℕ
pbkdf2_key_length = 32

abbrev hmac_block_size : ℕ
hmac_block_size = 64

-- toBigEndian
unfoldable pub to_big_endian : ℕ → List ℕ
to_big_endian value =
    value / 2 ^ 24 % 256 ∷ value / 2 ^ 16 % 256 ∷ value / 2 ^ 8 % 256 ∷ value % 256 ∷ []

-- The loop of constantTimeEquals, over two arrays of one size.
unfoldable pub differences : ℕ → List ℕ → List ℕ → ℕ
differences diff (l ∷ ls) (r ∷ rs) = differences (bit_or diff (bit_xor l r)) ls rs
differences diff _ _ = diff

-- constantTimeEquals
unfoldable pub constant_time_equals : List ℕ → List ℕ → Bool
unfolding differences
constant_time_equals left right =
    if not (eqb (length left) (length right)) then false else eqb (differences 0 left right) 0

-- What the code calls of Qt: QCryptographicHash::hash with Sha256, toHex and fromHex, toUtf8,
-- QString::number, toInt with its flag, and split at "$".
pub record Digest : Type 0 where
  pub sha256 : List ℕ → List ℕ
  pub to_hex : List ℕ → String
  pub from_hex : String → List ℕ
  pub to_utf8 : String → List ℕ
  pub number : ℕ → String
  pub to_int : String → Option ℤ
  pub split : String → List String

abbrev pub zeros : ℕ → List ℕ
zeros zero = []
zeros (suc n) = 0 ∷ zeros n

-- QByteArray::leftJustified(width, '\0', true)
unfoldable left_justified : ℕ → List ℕ → List ℕ
left_justified width bytes = take width bytes ++ zeros (width - length bytes)

unfoldable xor_each : ℕ → List ℕ → List ℕ
xor_each mask [] = []
xor_each mask (b ∷ bytes) = bit_xor b mask ∷ xor_each mask bytes

-- The loop over `byteIndex`: the two arrays have one size.
unfoldable pub xor_bytes : List ℕ → List ℕ → List ℕ
xor_bytes (b ∷ block) (v ∷ value) = bit_xor b v ∷ xor_bytes block value
xor_bytes block _ = block

abbrev pub is_empty_bytes : List ℕ → Bool
is_empty_bytes [] = true
is_empty_bytes (b ∷ bytes) = false

-- QStringLiteral("%1$%2$%3$%4") with its four arguments.
abbrev pub stored_form : String → String → String → String → String
stored_form scheme iterations salt derived = text_append scheme (
    text_append "$"
      (text_append iterations (text_append "$" (text_append salt (text_append "$" derived)))))

module _ (q : Digest) where
  unfoldable normalized_key : List ℕ → List ℕ
  unfolding left_justified
  normalized_key key =
      left_justified hmac_block_size
        (if ltb hmac_block_size (length key) then q.sha256 key else key)

  unfoldable pub hmac_sha256 : List ℕ → List ℕ → List ℕ
  unfolding normalized_key xor_each
  hmac_sha256 key message = q.sha256 (
      xor_each 0x5C (normalized_key key)
      ++ q.sha256 (xor_each 0x36 (normalized_key key) ++ message))

  -- The rounds of the inner loop, from `value` and `block` on.
  unfoldable pub stretch : ℕ → List ℕ → List ℕ → List ℕ → List ℕ
  unfolding hmac_sha256 xor_bytes
  stretch zero password value block = block
  stretch (suc rounds) password value block =
      let value' = hmac_sha256 password value in
      stretch rounds password value' (xor_bytes block value')

  unfoldable pub pbkdf2_block : List ℕ → List ℕ → ℕ → ℕ → List ℕ
  unfolding stretch to_big_endian
  pbkdf2_block password salt iterations block_index =
      let value = hmac_sha256 password (salt ++ to_big_endian block_index) in
      stretch (iterations - 1) password value value

  -- The while loop; a round for each byte of the key is enough, as a block is not empty.
  unfoldable pub pbkdf2_blocks : ℕ → List ℕ → List ℕ → ℕ → ℕ → ℕ → List ℕ → List ℕ
  unfolding pbkdf2_block
  pbkdf2_blocks zero password salt iterations key_length block_index derived = derived
  pbkdf2_blocks (suc fuel) password salt iterations key_length block_index derived =
      let more =
        pbkdf2_blocks fuel password salt iterations key_length ((block_index + 1) % 2 ^ 32)
          (derived ++ pbkdf2_block password salt iterations block_index) in
      if ltb (length derived) key_length then more else derived

  -- derivePbkdf2
  unfoldable pub derive_pbkdf2 : List ℕ → List ℕ → ℕ → ℕ → List ℕ
  unfolding pbkdf2_blocks
  derive_pbkdf2 password salt iterations key_length =
      take key_length (pbkdf2_blocks key_length password salt iterations key_length 1 [])

  -- hashPassword; `salt` are the random bytes.
  unfoldable pub hash_password : List ℕ → String → String
  unfolding derive_pbkdf2
  hash_password salt password =
      stored_form "pbkdf2_sha256" (q.number pbkdf2_iterations) (q.to_hex salt)
        (q.to_hex (derive_pbkdf2 (q.to_utf8 password) salt pbkdf2_iterations pbkdf2_key_length))

  -- The part of verifyPassword behind the conversions.
  unfoldable pub verify_parts : String → Option ℤ → List ℕ → List ℕ → Bool
  unfolding derive_pbkdf2 constant_time_equals
  verify_parts password (some (pos iterations)) salt expected =
      if eqb iterations 0 || (is_empty_bytes salt || is_empty_bytes expected)
      then false
      else constant_time_equals
          (derive_pbkdf2 (q.to_utf8 password) salt iterations (length expected)) expected
  verify_parts password _ salt expected = false

  unfoldable pub verify_split : String → List String → Bool
  unfolding verify_parts
  verify_split password (scheme ∷ iterations ∷ salt ∷ derived ∷ []) =
      if scheme == "pbkdf2_sha256"
      then verify_parts password (q.to_int iterations) (q.from_hex salt) (q.from_hex derived)
      else false
  verify_split password _ = false

  -- verifyPassword
  unfoldable pub verify_password : String → String → Bool
  unfolding verify_split
  verify_password password stored_hash = verify_split password (q.split stored_hash)

  -- hashSessionToken
  unfoldable pub hash_session_token : String → String
  hash_session_token token = q.to_hex (q.sha256 (q.to_utf8 token))

  -- generateSessionToken; `bytes` are the random bytes.
  unfoldable pub session_token : List ℕ → String
  session_token bytes = q.to_hex bytes
