-- ===== src/Keyring/Examples.antt =====
-- User 7 with a key that is a number. The cipher puts the key before the codes of the letters, and a
-- blob is written in unary.
use Prim.Native.Char.{Char, code}
use headcount.Prelude.{
  ℕ, zero, suc, ◌≡◌, ◌≢◌, refl, ap, String, Option, none, some, [], ◌∷◌, ◌++◌, false, ok, err,
  if◌then◌else◌, ◌==◌, ==_refl, arith, eq_iff, parse_int32, cut_colon,
}
use headcount.Keyring.{
  Keyring, Bytes, locked, malformed, bad_user_id, get, evict, is_sealed, sealed_text,
  encrypt_for_user, trim_prefix_user, open_user, decrypt,
}
use headcount.Keyring.Sealing.{DecodesBack, OpensBack, evict-locks, encrypt-decrypt}

-- A number is as many letters "a" as it says, with a "b" behind.
abbrev unary : ℕ → String → String
unary zero s = String.◌∷◌ "b" s
unary (suc n) s = String.◌∷◌ "a" (unary n s)

abbrev encode : Bytes → String
encode [] = ""
encode (n ∷ ns) = unary n (encode ns)

abbrev one_more : Option Bytes → Option Bytes
one_more none = none
one_more (some []) = none
one_more (some (n ∷ ns)) = some (suc n ∷ ns)

abbrev with_zero : Option Bytes → Option Bytes
with_zero none = none
with_zero (some ns) = some (zero ∷ ns)

abbrev decode : String → Option Bytes
decode String.[] = some []
decode (String.◌∷◌ c s) = if code c == b'b' then with_zero (decode s) else one_more (decode s)

unary_back :
    (n : ℕ) (ns : Bytes)
    → decode (encode ns) ≡ some ns
    → decode (unary n (encode ns)) ≡ some (n ∷ ns)
unary_back zero ns h = ap with_zero h
unary_back (suc n) ns h = ap one_more (unary_back n ns h)

decodes : DecodesBack encode decode
decodes [] = refl
decodes (n ∷ ns) = unary_back n ns (decodes ns)

abbrev codes : String → Bytes
codes String.[] = []
codes (String.◌∷◌ c s) = code c ∷ codes s

abbrev letter : ℕ → Char
letter n =
    if n == b't'
    then "t"
    else if n == b'o'
    then "o"
    else if n == b'k'
    then "k"
    else if n == b'e'
    then "e"
    else "n"

abbrev letters : Bytes → String
letters [] = ""
letters (n ∷ ns) = String.◌∷◌ (letter n) (letters ns)

abbrev aead_seal : ℕ → Bytes → String → Bytes
aead_seal dek iv plain = dek ∷ codes plain

abbrev aead_open : ℕ → Bytes → Bytes → Option String
aead_open dek iv [] = none
aead_open dek iv (d ∷ ns) = if d == dek then some (letters ns) else none

abbrev iv : Bytes
iv = 9 ∷ 8 ∷ 7 ∷ 6 ∷ 5 ∷ 4 ∷ 3 ∷ 2 ∷ 1 ∷ 0 ∷ 1 ∷ 2 ∷ []

opens : OpensBack aead_seal aead_open iv "token"
opens dek = rw (==_refl dek) refl

abbrev unlocked : Keyring ℕ
unlocked = λ u. some (record { dek = 3; expires_at = 100 })

abbrev kept_text : String
kept_text = sealed_text aead_seal aead_open encode decode 7 (iv ++ aead_seal 3 iv "token")

encrypted :
    (encrypt_for_user aead_seal aead_open encode decode 10 (some iv) 7 "token" unlocked).0
    ≡ ok kept_text
unfolding encrypt_for_user get is_sealed
encrypted = refl

raw : is_sealed "token" ≡ false
unfolding is_sealed
raw = refl

full : ◌≢◌ {A = String} "token" ""
full = ground (arith, eq_iff "token" "")

-- A value without a colon, and one whose user is no number.
no_colon : (decrypt aead_seal aead_open encode decode 10 "enc:u1:7" unlocked).0 ≡ err malformed
unfolding decrypt open_user is_sealed trim_prefix_user cut_colon
no_colon = refl

no_number : (decrypt aead_seal aead_open encode decode 10 "enc:u1:x:b" unlocked).0 ≡ err bad_user_id
unfolding decrypt open_user is_sealed trim_prefix_user cut_colon parse_int32
no_number = refl

encrypt-decrypt_example :
    (decrypt aead_seal aead_open encode decode 20 kept_text unlocked).0 ≡ ok "token"
encrypt-decrypt_example =
    encrypt-decrypt aead_seal aead_open encode decode 7 (omega arith) decodes iv "token" refl opens
      10 20 unlocked unlocked kept_text full raw encrypted refl

evict-locks_example :
    (decrypt aead_seal aead_open encode decode 20 kept_text (evict 7 unlocked)).0 ≡ err locked
evict-locks_example =
    evict-locks aead_seal aead_open encode decode 7 (omega arith) decodes 20
      (iv ++ aead_seal 3 iv "token") unlocked
