-- ===== src/Secrets/Witnesses.antt =====
-- A cipher that hides nothing, and the theorems over it.
use react_go_workflow.Prelude.{
  ℕ, ◌≡◌, refl, sym, ap, true, Option, none, some, [], ◌∷◌, Text, codes, length,
}
use react_go_workflow.Engine.Context.{new_exec_context}
use react_go_workflow.Secrets.Crypto.{CipherLibrary, CipherLaws, derive_key}
use react_go_workflow.Secrets.Handler.{SecretTable, CreateRequest, create}
use react_go_workflow.Secrets.Laws.{Creates, create-Creates}

abbrev bare : CipherLibrary
bare = record {
  sum256 = λ raw. raw;
  accepts_key = λ key. true;
  nonce_size = 2;
  seal = λ key nonce plaintext. plaintext;
  open_sealed = λ key nonce ciphertext. some ciphertext;
}

bare_laws : CipherLaws bare
bare_laws = record { accepts_sum = λ raw. refl; opens = λ key nonce plaintext good size. refl }

abbrev empty_table : SecretTable
empty_table = record {
  insert_error = λ row rows. none;
  update_error = λ id rows. none;
  delete_error = λ id rows. none;
}

abbrev request : CreateRequest
request = record { key = codes "API"; value = codes "pw"; description = [] }

abbrev length_or : ℕ → Option Text → ℕ
length_or d none = d
length_or d (some nonce) = length nonce

drawn : (nonce : Text) → some (1 ∷ 2 ∷ []) ≡ some nonce → length nonce ≡ 2
drawn nonce h = sym (ap (length_or 2) h)

create-Creates_example :
    Creates bare bare_laws
      (derive_key bare (codes "k"))
      request
      []
      (new_exec_context none)
      (create bare (derive_key bare (codes "k")) empty_table (some (1 ∷ 2 ∷ [])) 5 request [])
create-Creates_example =
    create-Creates bare bare_laws (codes "k") empty_table (some (1 ∷ 2 ∷ [])) drawn 5 request []
      (new_exec_context none)
