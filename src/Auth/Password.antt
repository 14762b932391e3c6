-- ===== src/Auth/Password.antt =====
-- auth.go: the encoding of a password, `hashPassword`, `verifyPassword` and `pbkdf2SHA256`. HMAC-SHA-256
-- and base64 are the Go library's and are parameters; a comparison in constant time is `same`.
use Prim.Native.Nat.{bit_xor}
use tor_country_manager.Shared.{
  ℕ, zero, suc, ◌-◌, Bool, false, ◌||◌, not, List, [], ◌∷◌, ◌++◌, Option, none, some, ltb, ◌==◌,
  if◌then◌else◌, length,
}
use tor_country_manager.Shared.Text.{Text, same}
use tor_country_manager.Shared.Int.{ℤ, pos, ltb_ℤ, pos_part}
use tor_country_manager.Config.Validate.{atoi}

pub record CryptoLib : Type 0 where
  pub hmac : (key message : Text) → Text
  pub encode64 : Text → Text
  pub decode64 : Text → Option Text

-- `strings.Split` at one byte. A text is split into at least one part: the first, and the others.
unfoldable pub split_more : ℕ → ℕ → Text × List Text → Text × List Text
split_more sep c (part, parts) = if c == sep then ([], part ∷ parts) else (c ∷ part, parts)

unfoldable pub split : ℕ → Text → Text × List Text
unfolding split_more
split sep [] = ([], [])
split sep (c ∷ cs) = split_more sep c (split sep cs)

-- `result[index] ^= u[index]` for every index of the result.
unfoldable pub xor_bytes : Text → Text → Text
xor_bytes [] u = []
xor_bytes (b ∷ bs) [] = b ∷ bs
xor_bytes (b ∷ bs) (c ∷ cs) = bit_xor b c ∷ xor_bytes bs cs

abbrev pub password_iterations : ℕ
password_iterations = 210000

abbrev pub scheme : Text
scheme =
    b'p' ∷ b'b' ∷ b'k' ∷ b'd' ∷ b'f' ∷ b'2' ∷ b'-' ∷ b's' ∷ b'h' ∷ b'a' ∷ b'2' ∷ b'5' ∷ b'6' ∷ []

abbrev pub iterations_text : Text
iterations_text = b'2' ∷ b'1' ∷ b'0' ∷ b'0' ∷ b'0' ∷ b'0' ∷ []

module _ (lib : CryptoLib) where
  open lib use {hmac, encode64, decode64}

  -- The rounds that are left, the last digest and the result so far.
  unfoldable pub pbkdf2_rounds : ℕ → Text → Text → Text → Text
  unfolding xor_bytes
  pbkdf2_rounds zero password u result = result
  pbkdf2_rounds (suc n) password u result =
      let v = hmac password u in pbkdf2_rounds n password v (xor_bytes result v)

  -- The block ends with the number 1 in four bytes.
  unfoldable pub pbkdf2_sha256 : Text → Text → ℕ → Text
  unfolding pbkdf2_rounds
  pbkdf2_sha256 password salt iterations =
      let u = hmac password (salt ++ (0 ∷ 0 ∷ 0 ∷ 1 ∷ [])) in
      pbkdf2_rounds (iterations - 1) password u u

  -- The salt is what the system's random numbers were.
  unfoldable pub hash_password : (salt password : Text) → Text
  hash_password salt password =
      scheme
      ++ (b'$'
          ∷ (iterations_text
              ++ (b'$'
                  ∷ (encode64 salt
                      ++ (b'$' ∷ encode64 (pbkdf2_sha256 password salt password_iterations))))))

  unfoldable pub verify_key : ℕ → Text → Option Text → Text → Bool
  verify_key iterations salt none password = false
  verify_key iterations salt (some expected) password =
      if not (length expected == 32)
      then false
      else same (pbkdf2_sha256 password salt iterations) expected

  unfoldable pub verify_salt : ℕ → Option Text → Text → Text → Bool
  unfolding verify_key
  verify_salt iterations none key password = false
  verify_salt iterations (some salt) key password =
      if ltb (length salt) 16 then false else verify_key iterations salt (decode64 key) password

  unfoldable pub verify_iterations : Option ℤ → (salt key password : Text) → Bool
  unfolding verify_salt
  verify_iterations none salt key password = false
  verify_iterations (some iterations) salt key password =
      if ltb_ℤ iterations (pos 100000) || ltb_ℤ (pos 1000000) iterations
      then false
      else verify_salt (pos_part iterations) (decode64 salt) key password

  unfoldable pub verify_parts : Text × List Text → Text → Bool
  unfolding verify_iterations
  verify_parts (name, iterations ∷ salt ∷ key ∷ []) password =
      if same name scheme then verify_iterations (atoi iterations) salt key password else false
  verify_parts _ password = false

  unfoldable pub verify_password : (encoded password : Text) → Bool
  unfolding verify_parts split
  verify_password encoded password = verify_parts (split b'$' encoded) password
