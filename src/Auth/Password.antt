-- ===== src/Auth/Password.antt =====
-- `hash_password` and `verify_password` of app/auth/service.py. PBKDF2 and `int` are parameters; the
-- hexadecimal form of bytes and `split("$", 3)` are written out.
use ochestrate.Base.{
  ℕ, ◌+◌, ◌-◌, ◌*◌, ◌/◌, ◌<◌, ◌≡◌, ◌≢◌, ◌∙◌, ap, refl, arith, Bool, true, false, ◌&&◌, ◌||◌, Option,
  none, some, List, [], ◌∷◌, ◌++◌, ltb, leb, nat_beq, ◌==◌, if◌then◌else◌, All, text_beq,
}
use ochestrate.Dict.{beq_refl}
use ochestrate.Text.{Text, text_eq, codes}

unfoldable pub hex_digit : ℕ → ℕ
hex_digit n = if ltb n 10 then 48 + n else 87 + n

-- `bytes.hex()`
unfoldable pub hex : List ℕ → Text
hex [] = []
hex (b ∷ bs) = hex_digit (b / 16) ∷ hex_digit (b - b / 16 * 16) ∷ hex bs

unfoldable pub hex_value : ℕ → Option ℕ
hex_value c =
    if leb 48 c && leb c 57
    then some (c - 48)
    else if leb 97 c && leb c 102
    then some (c - 87)
    else if leb 65 c && leb c 70
    then some (c - 55)
    else none

-- the white space that `bytes.fromhex` skips
unfoldable pub is_blank : ℕ → Bool
is_blank c = (leb 9 c && leb c 13) || nat_beq c 32

byte_before : Option ℕ → Option ℕ → Option (List ℕ) → Option (List ℕ)
byte_before (some h) (some l) (some bs) = some ((h * 16 + l) ∷ bs)
byte_before (some h) (some l) none = none
byte_before (some h) none r = none
byte_before none l r = none

-- `bytes.fromhex`; `none` is its `ValueError`.
unfoldable pub from_hex : Text → Option (List ℕ)
unfolding byte_before
from_hex [] = some []
from_hex (c ∷ []) = if is_blank c then some [] else none
from_hex (c ∷ d ∷ rest) = elim (is_blank c) [
  | true ↦ from_hex (d ∷ rest)
  | false ↦ byte_before (hex_value c) (hex_value d) (from_hex rest)
]

-- the text before the first `$` and the text behind it
unfoldable pub split_dollar : Text → Option (Text × Text)
split_dollar [] = none
split_dollar (c ∷ cs) = elim (nat_beq c 36) [
  | true ↦ some ([], cs)
  | false ↦ elim (split_dollar cs) [ none ↦ none | some (a, b) ↦ some (c ∷ a, b) ]
]

module _ (pbkdf2 : Text → List ℕ → ℕ → List ℕ) (parse_int : Text → Option ℕ) where
  -- `AuthService.hash_password` with the bytes that `os.urandom(16)` gives
  unfoldable pub hash_password : List ℕ → Text → Text
  hash_password salt password =
      codes "pbkdf2_sha256"
      ++ (codes "$"
          ++ (codes "120000"
              ++ (codes "$" ++ (hex salt ++ (codes "$" ++ hex (pbkdf2 password salt 120000))))))

  compare_digest : Text → Option ℕ → Option (List ℕ) → Option (List ℕ) → Bool
  compare_digest password (some rounds) (some salt) (some expected) =
      text_beq (pbkdf2 password salt rounds) expected
  compare_digest password (some rounds) (some salt) none = false
  compare_digest password (some rounds) none digest = false
  compare_digest password none salt digest = false

  check_parts : Text → Text → Text → Text → Text → Bool
  unfolding compare_digest
  check_parts password method rounds salt digest =
      if method == codes "pbkdf2_sha256"
      then compare_digest password (parse_int rounds) (from_hex salt) (from_hex digest)
      else false

  split_salt : Text → Text → Text → Option (Text × Text) → Bool
  split_salt password method rounds none = false
  split_salt password method rounds (some (salt, digest)) =
      check_parts password method rounds salt digest

  split_rounds : Text → Text → Option (Text × Text) → Bool
  split_rounds password method none = false
  split_rounds password method (some (rounds, rest)) =
      split_salt password method rounds (split_dollar rest)

  split_method : Text → Option (Text × Text) → Bool
  split_method password none = false
  split_method password (some (method, rest)) = split_rounds password method (split_dollar rest)

  -- `AuthService.verify_password`: an encoding with fewer than four parts fails to unpack.
  unfoldable pub verify_password : Text → Text → Bool
  unfolding check_parts split_salt split_rounds split_method
  verify_password password encoded = split_method password (split_dollar encoded)

-- A text with no `$` in it.
abbrev NoDollar : Text → Type 0
NoDollar t = All (λ c. c ≢ 36) t

split_dollar-append : (a b : Text) → NoDollar a → split_dollar (a ++ (36 ∷ b)) ≡ some (a, b)
unfolding split_dollar
split_dollar-append [] b h = refl
split_dollar-append (c ∷ a) b h = ground (arith, h.0, split_dollar-append a b h.1)

digit-ne-dollar : (n : ℕ) → hex_digit n ≢ 36
unfolding hex_digit
digit-ne-dollar n = ground arith

hex-NoDollar : (bs : List ℕ) → NoDollar (hex bs)
unfolding hex
hex-NoDollar [] = tt
hex-NoDollar (b ∷ bs) = (digit-ne-dollar _, (digit-ne-dollar _, hex-NoDollar bs))

digit_value : (n : ℕ) → n < 16 → hex_value (hex_digit n) ≡ some n
unfolding hex_value hex_digit
digit_value n h = ground arith

digit_not_blank : (n : ℕ) → is_blank (hex_digit n) ≡ false
unfolding is_blank hex_digit
digit_not_blank n = ground arith

from_hex-pair :
    (h l : ℕ) (rest : Text)
    → h < 16
    → l < 16
    → from_hex (hex_digit h ∷ hex_digit l ∷ rest) ≡ byte_before (some h) (some l) (from_hex rest)
unfolding from_hex
from_hex-pair h l rest hh hl = rw (digit_not_blank h, from_hex, digit_value h hh, digit_value l hl)

-- Bytes are read back from their hexadecimal form.
pub from_hex-hex : (bs : List ℕ) → All (λ b. b < 256) bs → from_hex (hex bs) ≡ some bs
unfolding hex
from_hex-hex [] h = unfold from_hex in refl
from_hex-hex (b ∷ bs) h =
    from_hex-pair (b / 16) (b - b / 16 * 16) (hex bs) (omega (arith, h.0)) (omega (arith, h.0))
    ∙ ap (byte_before (some (b / 16)) (some (b - b / 16 * 16))) (from_hex-hex bs h.1)
    ∙ unfold byte_before in ap (λ n. some (n ∷ bs)) (omega (arith, h.0))

-- Where `int` reads the number of rounds, and the salt and the derived key of the password are
-- bytes: a text is accepted against the hash of a password exactly if its key, derived with the
-- salt and the rounds of the hash, is the key of the password.
pub verify-hash_password :
    (pbkdf2 : Text → List ℕ → ℕ → List ℕ) (parse_int : Text → Option ℕ) (salt : List ℕ)
    (password attempt : Text)
    → parse_int (codes "120000") ≡ some 120000
    → All (λ b. b < 256) salt
    → All (λ b. b < 256) (pbkdf2 password salt 120000)
    → verify_password pbkdf2 parse_int attempt (hash_password pbkdf2 parse_int salt password)
      ≡ text_beq (pbkdf2 attempt salt 120000) (pbkdf2 password salt 120000)
unfolding verify_password hash_password
verify-hash_password pbkdf2 parse_int salt password attempt reads hs hd =
    let digest = hex (pbkdf2 password salt 120000) in
    let salted = hex salt ++ 36 ∷ digest in
    ap (split_method pbkdf2 parse_int attempt)
      (split_dollar-append (codes "pbkdf2_sha256") (codes "120000" ++ 36 ∷ salted) (omega arith))
    ∙ ap (split_rounds pbkdf2 parse_int attempt (codes "pbkdf2_sha256"))
        (split_dollar-append (codes "120000") salted (omega arith))
    ∙ ap (split_salt pbkdf2 parse_int attempt (codes "pbkdf2_sha256") (codes "120000"))
        (split_dollar-append (hex salt) digest (hex-NoDollar salt))
    ∙ rw (beq_refl (codes "pbkdf2_sha256"), reads, from_hex-hex salt hs, from_hex-hex _ hd)
