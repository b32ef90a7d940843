-- ===== src/Helper.antt =====
-- src/helper.rs: certificates and keys from PEM files. Files and PEM parsing are parameters.
use hcnet.Base.{ℕ, ◌≡◌, ◌≢◌, refl, List, [], ◌∷◌, length, arith, ◌⊎◌, inl, inr}
use hcnet.Error.{NetResult, ok, err, io, ◌>>=◌}

pub record PemApi (E : Type 0) : Type 1 where
  pub CertificateDer : Type 0
  pub PrivateKeyDer : Type 0
  -- `File::open` and `read_to_string`.
  pub read_file : List ℕ → NetResult E (List ℕ)
  -- `rustls_pemfile`.
  pub certs : List ℕ → NetResult E (List CertificateDer)
  pub pkcs8_private_keys : List ℕ → NetResult E (List PrivateKeyDer)
  pub rsa_private_keys : List ℕ → NetResult E (List PrivateKeyDer)
  -- The `InvalidInput` error "No pkcs8 or rsa private key found".
  pub no_key_found : E

module _ {E : Type 0} (pem : PemApi E) where
  open pem use {CertificateDer, PrivateKeyDer}

  pub load_certs : List ℕ → NetResult E (List CertificateDer)
  load_certs path = do content ← pem.read_file path; pem.certs content

  -- `if keys.len() == 1 { return Ok(keys.remove(0)) }`, and what comes after it.
  only_key : List PrivateKeyDer → NetResult E PrivateKeyDer → NetResult E PrivateKeyDer
  only_key (key ∷ []) otherwise = ok key
  only_key _ otherwise = otherwise

  pub load_keys : List ℕ → NetResult E PrivateKeyDer
  unfolding only_key
  load_keys path = do
    content ← pem.read_file path
    pkcs8 ← pem.pkcs8_private_keys content
    only_key pkcs8 (do rsa ← pem.rsa_private_keys content; only_key rsa (err (io pem.no_key_found)))

  only_key_other :
      (keys : List PrivateKeyDer) (otherwise : NetResult E PrivateKeyDer)
      → length keys ≢ 1
      → only_key keys otherwise ≡ otherwise
  unfolding only_key
  only_key_other [] otherwise h = refl
  only_key_other (key ∷ []) otherwise h = absurd (h refl)
  only_key_other (key ∷ other ∷ keys) otherwise h = refl

  key_cases :
      (keys : List PrivateKeyDer) → ((key : PrivateKeyDer) × (keys ≡ key ∷ [])) ⊎ (length keys ≢ 1)
  key_cases [] = inr (λ e. absurd (omega arith))
  key_cases (key ∷ []) = inl (key, refl)
  key_cases (key ∷ other ∷ keys) = inr (λ e. absurd (omega arith))

  -- On a file that can be read and parsed, `load_keys` returns the PKCS#8 key if there is exactly one,
  -- else the RSA key if there is exactly one, and else the error that there is none.
  pub load_keys_choice :
      (path content : List ℕ) (pkcs8 rsa : List PrivateKeyDer)
      → pem.read_file path ≡ ok content
      → pem.pkcs8_private_keys content ≡ ok pkcs8
      → pem.rsa_private_keys content ≡ ok rsa
      → ((key : PrivateKeyDer) × (pkcs8 ≡ key ∷ []) × (load_keys path ≡ ok key))
        ⊎ ((key : PrivateKeyDer) × (length pkcs8 ≢ 1)
            × (rsa ≡ key ∷ [])
            × (load_keys path ≡ ok key))
        ⊎ ((length pkcs8 ≢ 1) × (length rsa ≢ 1) × (load_keys path ≡ err (io pem.no_key_found)))
  unfolding load_keys
  load_keys_choice path content pkcs8 rsa r p q = elim (key_cases pkcs8) [
    | inl (key, e) ↦ inl (key, e, rw (r, p, e))
    | inr h ↦ elim (key_cases rsa) [
      | inl (key, e) ↦ inr (inl (key, h, e, rw (r, p, only_key_other pkcs8 _ h, q, e)))
      | inr k ↦ inr (inr (h, k, rw (r, p, only_key_other pkcs8 _ h, q) (only_key_other rsa _ k)))
    ]
  ]
