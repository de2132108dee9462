-- ===== src/Secrets/Laws.antt =====
-- What is encrypted is decrypted again, and what Create stores is what an execution loads.
use react_go_workflow.Prelude.{
  ◌≡◌, refl, sym, ap, ◌∙◌, subst, true, false, ◌≢◌, Option, none, some, List, [], ◌∷◌, ◌++◌, map,
  Text, text_eq, lookup, insert, lookup-insert, length, length-append, take, drop, ltb,
  if◌then◌else◌, arith,
}
use react_go_workflow.Engine.Context.{ExecContext, set_secret}
use react_go_workflow.Engine.Execution.{load_secrets}
use react_go_workflow.Engine.Types.{Uuid}
use react_go_workflow.Secrets.Crypto.{
  CipherLibrary, CipherLaws, Sealed, ok, err, derive_key, encrypt, decrypt,
}
use react_go_workflow.Secrets.Handler.{
  SecretRow, SecretTable, SaveError, constraint_error, not_found, database_error, Answer, created,
  CreateRequest, create, insert_answer,
}

take-append : (xs ys : Text) → take (length xs) (xs ++ ys) ≡ xs
take-append [] ys = refl
take-append (x ∷ xs) ys = ap (λ t. x ∷ t) (take-append xs ys)

drop-append : (xs ys : Text) → drop (length xs) (xs ++ ys) ≡ ys
drop-append [] ys = refl
drop-append (x ∷ xs) ys = drop-append xs ys

module _ (lib : CipherLibrary) (laws : CipherLaws lib) where
  decrypt-seal :
      (key nonce plaintext : Text)
      → lib.accepts_key key ≡ true
      → length nonce ≡ lib.nonce_size
      → decrypt lib (nonce ++ lib.seal key nonce plaintext) key ≡ ok plaintext
  unfolding decrypt
  decrypt-seal key nonce plaintext good size =
      let whole = nonce ++ lib.seal key nonce plaintext in
      let long : ltb (length whole) lib.nonce_size ≡ false =
        rw (length-append nonce (lib.seal key nonce plaintext), sym size) (ground arith) in
      rw
        (
          good,
          long,
          sym size,
          take-append nonce (lib.seal key nonce plaintext),
          drop-append nonce (lib.seal key nonce plaintext),
          laws.opens key nonce plaintext good size,
        )
        refl

  -- With a derived key and a nonce of the right length, Encrypt succeeds, and Decrypt gives back the
  -- plaintext.
  pub decrypt-encrypt :
      (raw nonce plaintext : Text)
      → length nonce ≡ lib.nonce_size
      → (c : Text) × (encrypt lib (some nonce) plaintext (derive_key lib raw) ≡ ok c)
        × (decrypt lib c (derive_key lib raw) ≡ ok plaintext)
  unfolding encrypt derive_key
  decrypt-encrypt raw nonce plaintext size = (
    nonce ++ lib.seal (lib.sum256 raw) nonce plaintext,
    rw (laws.accepts_sum raw) refl,
    decrypt-seal (lib.sum256 raw) nonce plaintext (laws.accepts_sum raw) size,
  )

  -- What executeDAG makes of Decrypt's results.
  abbrev pub plain : Sealed → Option Text
  plain (ok p) = some p
  plain (err e) = none

  -- The secrets that an execution has, from the rows and the key.
  abbrev pub loaded : Text → List SecretRow → ExecContext → List (Text × Text)
  loaded key rows c =
      (load_secrets (λ encrypted. plain (decrypt lib encrypted key))
        (map (λ r. (r.key, r.encrypted_value)) rows) c).secrets

  abbrev after : Option Text → ExecContext → (Text → ExecContext) → ExecContext
  after o c f = elim o [ none ↦ c | some v ↦ f v ]

  loaded-append :
      (key : Text) (rows : List SecretRow) (row : SecretRow) (value : Text) (c : ExecContext)
      → decrypt lib row.encrypted_value key ≡ ok value
      → loaded key (rows ++ row ∷ []) c ≡ insert row.key value (loaded key rows c)
  unfolding load_secrets set_secret
  loaded-append key [] row value c h =
      subst
        (λ s.
          (after (plain s) c (λ v. set_secret row.key v c)).secrets
          ≡ insert row.key value c.secrets)
        (sym h) refl
  loaded-append key (r ∷ rows) row value c h =
      go (decrypt lib r.encrypted_value key) (loaded-append key rows row value)
    where
      go :
          (s : Sealed)
          → ((d : ExecContext)
              → decrypt lib row.encrypted_value key ≡ ok value
              → loaded key (rows ++ row ∷ []) d ≡ insert row.key value (loaded key rows d))
          → (after
              (plain s)
              (load_secrets
                (λ encrypted. plain (decrypt lib encrypted key))
                (map (λ r. (r.key, r.encrypted_value)) (rows ++ row ∷ []))
                c)
              (λ v.
                load_secrets
                  (λ encrypted. plain (decrypt lib encrypted key))
                  (map (λ r. (r.key, r.encrypted_value)) (rows ++ row ∷ []))
                  (set_secret r.key v c))).secrets
            ≡ insert row.key value
                (after
                  (plain s)
                  (load_secrets
                    (λ encrypted. plain (decrypt lib encrypted key))
                    (map (λ r. (r.key, r.encrypted_value)) rows)
                    c)
                  (λ v.
                    load_secrets
                      (λ encrypted. plain (decrypt lib encrypted key))
                      (map (λ r. (r.key, r.encrypted_value)) rows)
                      (set_secret r.key v c))).secrets
      go (ok v) later = later (set_secret r.key v c) h
      go (err e) later = later c h

  -- What a call of Create did to the secrets that an execution loads.
  pub data Creates (key : Text) (q : CreateRequest) (rows : List SecretRow) (c : ExecContext)
      (r : Answer × List SecretRow) : Type 0 where
    refused : r.0 ≢ created → r.1 ≡ rows → Creates key q rows c r
    stored :
        r.0 ≡ created
        → ((k : Text)
            → lookup k (loaded key r.1 c)
              ≡ (if text_eq q.key k then some q.value else lookup k (loaded key rows c)))
        → Creates key q rows c r

  -- Create, with an encryption key derived from a text, ends in one of two ways: it answers an error and
  -- the table is as it was, or it answers that the secret was created, and then an execution that loads
  -- the table has the given value under the given key, and under every other key what it had before.
  pub create-Creates :
      (raw : Text) (table : SecretTable) (random : Option Text)
      → ((nonce : Text) → random ≡ some nonce → length nonce ≡ lib.nonce_size)
      → (id : Uuid) (q : CreateRequest) (rows : List SecretRow) (c : ExecContext)
      → Creates
          (derive_key lib raw)
          q
          rows
          c
          (create lib (derive_key lib raw) table random id q rows)
  unfolding create encrypt derive_key
  create-Creates raw table none size id q rows c =
      rw (laws.accepts_sum raw, create, encrypt) (refused (λ e. cc) refl)
  create-Creates raw table (some nonce) size id q rows c =
      rw (laws.accepts_sum raw, create, encrypt) (go (table.insert_error row rows))
    where
      row : SecretRow
      row = record {
        id = id;
        key = q.key;
        encrypted_value = nonce ++ lib.seal (lib.sum256 raw) nonce q.value;
        description = q.description;
      }

      go :
          (o : Option SaveError)
          → Creates
              (lib.sum256 raw)
              q
              rows
              c
              (elim o [ some e ↦ (insert_answer e, rows) | none ↦ (created, rows ++ row ∷ []) ])
      go (some constraint_error) = refused (λ e. cc) refl
      go (some not_found) = refused (λ e. cc) refl
      go (some database_error) = refused (λ e. cc) refl
      go none = stored refl (λ k.
          ap (lookup k) (
            loaded-append (lib.sum256 raw) rows row q.value c (
              decrypt-seal (lib.sum256 raw) nonce q.value (laws.accepts_sum raw) (size nonce refl)))
          ∙ lookup-insert q.key k q.value (loaded (lib.sum256 raw) rows c))
