-- ===== src/Nkeys.antt =====
-- internal/nkeys/manager.go. The key pairs of nats-io/nkeys and the bytes of crypto/rand are
-- parameters; base32 is that of encoding/base32, without padding.
use nats_operator_experiment.Common.{
  ℕ, ◌+◌, ◌-◌, ◌*◌, ◌/◌, ◌%◌, Str, codes, List, [], ◌∷◌, ◌++◌, ltb, if◌then◌else◌,
}
use nats_operator_experiment.Common.Exec.{Result, Exec, pure, ◌>>=◌}

-- What the program is given: a source of random bytes and of NATS key pairs.
pub record KeySource (W : Type 0) : Type 1 where
  pub KeyPair : Type 0
  pub create_user : Exec W KeyPair
  pub public_key : KeyPair → Result Str
  pub seed : KeyPair → Result Str
  -- rand.Read into a slice of that length
  pub random_bytes : ℕ → Exec W (List ℕ)

-- the standard alphabet: A to Z, then 2 to 7
unfoldable pub base32_char : ℕ → ℕ
base32_char v = if ltb v 26 then b'A' + v else b'2' - 26 + v

-- five bytes are eight characters
unfoldable pub base32_block : ℕ → ℕ → ℕ → ℕ → ℕ → Str
base32_block a b c d e =
    base32_char (a / 8)
    ∷ base32_char (a % 8 * 4 + b / 64)
    ∷ base32_char (b / 2 % 32)
    ∷ base32_char (b % 2 * 16 + c / 16)
    ∷ base32_char (c % 16 * 2 + d / 128)
    ∷ base32_char (d / 4 % 32)
    ∷ base32_char (d % 4 * 8 + e / 32)
    ∷ base32_char (e % 32)
    ∷ []

-- encoding/base32 on whole blocks, which is all that ten bytes need
unfoldable pub base32_encode : List ℕ → Str
base32_encode (a ∷ b ∷ c ∷ d ∷ e ∷ rest) = base32_block a b c d e ++ base32_encode rest
base32_encode _ = []

module _ {W : Type 0} (keys : KeySource W) where
  open keys use {create_user, public_key, seed, random_bytes}

  unfoldable pub generate_user_nkey : Exec W (Str × Str)
  generate_user_nkey = do
    kp ← create_user
    public ← (λ w. (public_key kp, w))
    secret ← (λ w. (seed kp, w))
    pure (public, secret)

  unfoldable pub generate_inbox_prefix : Exec W Str
  generate_inbox_prefix = do b ← random_bytes 10; pure (codes "_I_" ++ base32_encode b)
