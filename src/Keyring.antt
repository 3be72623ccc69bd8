-- ===== src/Keyring.antt =====
-- pkg/secrets/keyring.go, secrets.go and userkeys.go: the unlocked keys of users, and the values that
-- are sealed with them. The map is a function from users. Go's AES-GCM, between texts and bytes, and
-- its base64 are parameters; the framing of the bytes and the format of the text are not. The random
-- nonce of a call is an argument, none where it cannot be read. A key of 32 bytes is always accepted.
pub mod Sealing
mod Examples
use headcount.Prelude.{
  ℕ, ◌+◌, String, Bool, true, false, ◌||◌, Option, none, some, Result, ok, err, if◌then◌else◌, ltb,
  ◌==◌, str_eq, is_some, starts_with, append, slice, len, List, ◌++◌, length, take, drop,
  format_int, parse_int32, cut_colon,
}

pub record KeyringEntry {ℓ} (Dek : Type ℓ) : Type ℓ where
  pub dek : Dek
  pub expires_at : ℕ

pub data SecretError : Type 0 where
  locked malformed bad_user_id bad_base64 seal_failed open_failed unrecognized : SecretError

abbrev pub prefix_user : String
prefix_user = "enc:u1:"

abbrev pub secret_namespace : String
secret_namespace = "enc:"

-- `IsSealed`
pub is_sealed : String → Bool
is_sealed v = starts_with v prefix_user

-- `TrimPrefix`, of a value that has the prefix.
pub trim_prefix_user : String → String
trim_prefix_user v = slice v (len prefix_user) (len v)

abbrev pub Keyring : Type 0 → Type 0
Keyring Dek = ℕ → Option (KeyringEntry Dek)

module _ {Dek : Type 0} where
  abbrev pub set_entry : ℕ → Option (KeyringEntry Dek) → Keyring Dek → Keyring Dek
  set_entry user v k = λ u. if user == u then v else k u

  -- `Put`
  pub put : ℕ → ℕ → Dek → ℕ → Keyring Dek → Keyring Dek
  put now user dek ttl k = set_entry user (some (record { dek = dek; expires_at = now + ttl })) k

  -- `Evict`
  pub evict : ℕ → Keyring Dek → Keyring Dek
  evict user k = set_entry user none k

  abbrev pub expired : ℕ → Option (KeyringEntry Dek) → Bool
  expired now none = false
  expired now (some e) = ltb e.expires_at now

  abbrev pub live : ℕ → Option (KeyringEntry Dek) → Option Dek
  live now none = none
  live now (some e) = if ltb e.expires_at now then none else some e.dek

  -- `Get`, with the eviction of an expired entry.
  pub get : ℕ → ℕ → Keyring Dek → Option Dek × Keyring Dek
  get now user k = (live now (k user), if expired now (k user) then evict user k else k)

  -- `EvictExpired`, without the count that it returns.
  pub evict_expired : ℕ → Keyring Dek → Keyring Dek
  evict_expired now k = λ u. if expired now (k u) then none else k u

  -- `Snapshot`
  pub snapshot : ℕ → Keyring Dek → ℕ → Option Dek
  snapshot now k = λ u. live now (k u)

  abbrev pub restored : ℕ → Option Dek → Option (KeyringEntry Dek) → Option (KeyringEntry Dek)
  restored until none old = old
  restored until (some dek) old = some (record { dek = dek; expires_at = until })

  -- `Restore`
  pub restore : ℕ → (ℕ → Option Dek) → ℕ → Keyring Dek → Keyring Dek
  restore now deks ttl k = λ u. restored (now + ttl) (deks u) (k u)

abbrev pub Bytes : Type 0
Bytes = List ℕ

abbrev pub nonce_size : ℕ
nonce_size = 12

module _ {Dek : Type 0} (aead_seal : Dek → Bytes → String → Bytes)
    (aead_open : Dek → Bytes → Bytes → Option String) (encode : Bytes → String)
    (decode : String → Option Bytes) where
  -- `gcmSeal`: the nonce `iv` stands before the ciphertext.
  abbrev pub gcm_seal : Dek → Option Bytes → String → Option Bytes
  gcm_seal dek none plaintext = none
  gcm_seal dek (some iv) plaintext = some (iv ++ aead_seal dek iv plaintext)

  -- `gcmOpen`
  abbrev pub gcm_open : Dek → Bytes → Option String
  gcm_open dek blob =
      if ltb (length blob) nonce_size
      then none
      else aead_open dek (take nonce_size blob) (drop nonce_size blob)

  -- `fmt.Sprintf("%s%d:%s", …)`
  abbrev pub sealed_text : ℕ → Bytes → String
  sealed_text user blob = append prefix_user (append (format_int user) (append ":" (encode blob)))

  abbrev pub sealed_as : ℕ → Option Bytes → Result SecretError String
  sealed_as user none = err seal_failed
  sealed_as user (some blob) = ok (sealed_text user blob)

  abbrev pub seal_with : ℕ → Option Bytes → String → Option Dek → Result SecretError String
  seal_with user iv plaintext none = err locked
  seal_with user iv plaintext (some dek) = sealed_as user (gcm_seal dek iv plaintext)

  -- `EncryptForUser`
  pub encrypt_for_user :
      ℕ → Option Bytes → ℕ → String → Keyring Dek → Result SecretError String × Keyring Dek
  encrypt_for_user now iv user plaintext k =
      if str_eq plaintext "" || is_sealed plaintext
      then (ok plaintext, k)
      else (seal_with user iv plaintext (get now user k).0, (get now user k).1)

  abbrev pub opened : Option String → Result SecretError String
  opened none = err open_failed
  opened (some plain) = ok plain

  abbrev pub open_with : Bytes → Option Dek → Result SecretError String
  open_with blob none = err locked
  open_with blob (some dek) = opened (gcm_open dek blob)

  -- The key of a number below zero, which is no user's, is never found.
  abbrev pub open_blob :
      ℕ → Option ℕ → Option Bytes → Keyring Dek → Result SecretError String × Keyring Dek
  open_blob now user none k = (err bad_base64, k)
  open_blob now none (some blob) k = (err locked, k)
  open_blob now (some user) (some blob) k = (open_with blob (get now user k).0, (get now user k).1)

  abbrev pub open_id :
      ℕ → Option (Option ℕ) → String → Keyring Dek → Result SecretError String × Keyring Dek
  open_id now none b64 k = (err bad_user_id, k)
  open_id now (some user) b64 k = open_blob now user (decode b64) k

  abbrev pub open_parts :
      ℕ → Option (String × String) → Keyring Dek → Result SecretError String × Keyring Dek
  open_parts now none k = (err malformed, k)
  open_parts now (some (id_str, b64)) k = open_id now (parse_int32 id_str) b64 k

  -- `openUser`
  pub open_user : ℕ → String → Keyring Dek → Result SecretError String × Keyring Dek
  open_user now stored k = open_parts now (cut_colon (trim_prefix_user stored)) k

  -- `Decrypt`
  pub decrypt : ℕ → String → Keyring Dek → Result SecretError String × Keyring Dek
  decrypt now stored k =
      if is_sealed stored
      then open_user now stored k
      else if starts_with stored secret_namespace
      then (err unrecognized, k)
      else (ok stored, k)
