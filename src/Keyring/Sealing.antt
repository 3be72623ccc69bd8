-- ===== src/Keyring/Sealing.antt =====
-- Sealing and opening a secret, and what a locked user's secrets give.
use headcount.Prelude.{
  ℕ, ◌^◌, ◌<◌, ◌≡◌, ◌≢◌, refl, sym, ap, ◌∙◌, String, true, false, ◌||◌, Option, none, some, ◌++◌,
  length, take, drop, length-append, take-append, drop-append, Result, ok, err, if_elim, ltb,
  str_eq, eq_iff, ==_refl, ◌==◌, starts_with-append, append, slice, len, len-append,
  slice-append_right, arith, cut_colon-format_int, parse_int32-format_int,
}
use headcount.Keyring.{
  Keyring, Bytes, nonce_size, SecretError, locked, live, is_sealed, trim_prefix_user, prefix_user,
  get, evict, gcm_open, sealed_text, seal_with, opened, encrypt_for_user, open_with, open_user,
  decrypt,
}

is_sealed-append : (t : String) → is_sealed (append prefix_user t) ≡ true
unfolding is_sealed
is_sealed-append t = starts_with-append prefix_user t

trim_prefix_user-append : (t : String) → trim_prefix_user (append prefix_user t) ≡ t
unfolding trim_prefix_user
trim_prefix_user-append t =
    ap (λ n. slice (append prefix_user t) (len prefix_user) n) (len-append prefix_user t)
    ∙ slice-append_right prefix_user t

-- What is assumed of base64, and of AES-GCM with this nonce and text.
abbrev pub DecodesBack : (Bytes → String) → (String → Option Bytes) → Type 0
DecodesBack encode decode = (blob : Bytes) → decode (encode blob) ≡ some blob

abbrev pub OpensBack :
    {Dek : Type 0}
    → (Dek → Bytes → String → Bytes)
    → (Dek → Bytes → Bytes → Option String)
    → Bytes
    → String
    → Type 0
OpensBack {Dek} aead_seal aead_open iv plain =
    (dek : Dek) → aead_open dek iv (aead_seal dek iv plain) ≡ some plain

module _ {Dek : Type 0} (aead_seal : Dek → Bytes → String → Bytes)
    (aead_open : Dek → Bytes → Bytes → Option String) (encode : Bytes → String)
    (decode : String → Option Bytes) (user : ℕ) (small : user < 2 ^ 31)
    (decodes : DecodesBack encode decode) where
  -- The text is taken apart into the user and the blob that it was made of.
  decrypt-sealed_text :
      (now : ℕ) (blob : Bytes) (k : Keyring Dek)
      → (decrypt aead_seal aead_open encode decode now
          (sealed_text aead_seal aead_open encode decode user blob)
          k).0
        ≡ open_with aead_seal aead_open encode decode blob (live now (k user))
  unfolding decrypt open_user get
  decrypt-sealed_text now blob k =
      rw
        (
          is_sealed-append _,
          trim_prefix_user-append _,
          cut_colon-format_int user small (encode blob),
          parse_int32-format_int user small,
          decodes blob,
        )
        refl

  -- Let base64 decode what it encodes. Then the value of the format that `EncryptForUser` writes, for a
  -- user whose id is below 2 ^ 31 and with any bytes, gives the error of a locked vault after the user's key
  -- was evicted, at any time.
  pub evict-locks :
      (now : ℕ) (blob : Bytes) (k : Keyring Dek)
      → (decrypt aead_seal aead_open encode decode now
          (sealed_text aead_seal aead_open encode decode user blob)
          (evict user k)).0
        ≡ err locked
  unfolding evict
  evict-locks now blob k =
      decrypt-sealed_text now blob (evict user k)
      ∙ ap (λ o. open_with aead_seal aead_open encode decode blob (live now o))
          (if_elim (λ o. o ≡ none) (user == user) (λ _. refl)
            (λ off. absurd (ground (arith, ==_refl user))))

  module _ (iv : Bytes) (plain : String) (sized : length iv ≡ nonce_size)
      (opens : OpensBack aead_seal aead_open iv plain) where
    gcm_open-gcm_seal :
        (dek : Dek)
        → gcm_open aead_seal aead_open encode decode dek (iv ++ aead_seal dek iv plain) ≡ some plain
    gcm_open-gcm_seal dek =
        let total = length-append iv (aead_seal dek iv plain) in
        let long : ltb (length (iv ++ aead_seal dek iv plain)) nonce_size ≡ false = ground arith in
        let front : take nonce_size (iv ++ aead_seal dek iv plain) ≡ iv =
          ap (λ n. take n (iv ++ aead_seal dek iv plain)) (sym sized)
          ∙ take-append iv (aead_seal dek iv plain) in
        let back : drop nonce_size (iv ++ aead_seal dek iv plain) ≡ aead_seal dek iv plain =
          ap (λ n. drop n (iv ++ aead_seal dek iv plain)) (sym sized)
          ∙ drop-append iv (aead_seal dek iv plain) in
        rw (long, front, back) (opens dek)

    seal_with-opens :
        (o : Option Dek) {stored : String}
        → seal_with aead_seal aead_open encode decode user (some iv) plain o ≡ ok stored
        → (blob : Bytes) × (stored ≡ sealed_text aead_seal aead_open encode decode user blob)
          × (open_with aead_seal aead_open encode decode blob o ≡ ok plain)
    seal_with-opens none = λ e. cc
    seal_with-opens (some dek) = λ e. (
      iv ++ aead_seal dek iv plain,
      cc e,
      ap (opened aead_seal aead_open encode decode) (gcm_open-gcm_seal dek),
    )

    -- Let base64 decode what it encodes, and AES-GCM open what it seals of the text under the
    -- same key and nonce. If a text that is not empty and not yet sealed is encrypted for a user, whose id is below 2 ^ 31, with
    -- a nonce of 12 bytes, then the decryption of the stored value, at any time and with any keyring that
    -- has the same live key for the user, gives the text back.
    pub encrypt-decrypt :
        (now later : ℕ) (k k' : Keyring Dek) (stored : String)
        → plain ≢ ""
        → is_sealed plain ≡ false
        → (encrypt_for_user aead_seal aead_open encode decode now (some iv) user plain k).0
          ≡ ok stored
        → live later (k' user) ≡ live now (k user)
        → (decrypt aead_seal aead_open encode decode later stored k').0 ≡ ok plain
    unfolding encrypt_for_user get
    encrypt-decrypt now later k k' stored full raw e same =
        let (blob, is_stored, fine) = seal_with-opens (live now (k user)) (sealing e) in
        ap (λ s. (decrypt aead_seal aead_open encode decode later s k').0) is_stored
        ∙ decrypt-sealed_text later blob k'
        ∙ ap (open_with aead_seal aead_open encode decode blob) same
        ∙ fine
      where
        sealing :
            (encrypt_for_user aead_seal aead_open encode decode now (some iv) user plain k).0
              ≡ ok stored
            → seal_with aead_seal aead_open encode decode user (some iv) plain (live now (k user))
              ≡ ok stored
        sealing =
            if_elim
              (λ (r : Result SecretError String × Keyring Dek).
                r.0 ≡ ok stored
                → seal_with aead_seal aead_open encode decode user (some iv) plain
                    (live now (k user))
                  ≡ ok stored)
              (str_eq plain "" || is_sealed plain) (λ bad. absurd (ground (arith, eq_iff plain "")))
              (λ _ e'. e')
