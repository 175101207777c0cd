-- ===== src/Access/Creating.antt =====
-- The API keys that app/services/access.py creates.
use media_engine.Prelude.{
  ℕ, String, true, false, Option, some, List, [], ◌∷◌, ◌++◌, ◌≡◌, ◌≢◌, refl, ◌∙◌, ap, inl, inr,
  Memᴰ, arith, ◌=ₛ◌, ◌||◌, any, any-false, find, find_unique, contains, not, is_subset, Exception,
  raise_if, raise_if-eq-ok, Holds, Holds-bind, mem-append_last, str_eq_iff, str_eq_refl,
  mem-append_cases,
}
use media_engine.Models.{ClientProject, ApiKey, Db}
use media_engine.Access.Tokens.{GeneratedToken, token_text, has_char, split_token-text}
use media_engine.Access.Clients.{
  insert_text, sorted_set, all_client_scopes, names_key, takes_key, new_api_key, create_api_key,
  client_token_prefix,
}

contains-insert_text :
    (k x : String) (xs : List String) → contains k (insert_text x xs) ≡ (x =ₛ k || contains k xs)
unfolding contains insert_text
contains-insert_text k x [] = refl
contains-insert_text k x (y ∷ ys) =
    ground (arith, str_eq_iff x y, str_eq_iff x k, str_eq_iff y k, contains-insert_text k x ys)

-- Sorting a set of texts keeps its elements.
pub contains-sorted_set :
    (k : String) (xs : List String) → contains k (sorted_set xs) ≡ contains k xs
unfolding contains sorted_set
contains-sorted_set k [] = refl
contains-sorted_set k (x ∷ xs) =
    contains-insert_text k x (sorted_set xs) ∙ ap (λ b. x =ₛ k || b) (contains-sorted_set k xs)

pub client_token_prefix-text :
    (prefix secret : String)
    → has_char "_" prefix ≡ false
    → client_token_prefix (token_text "me" prefix secret) ≡ some prefix
unfolding client_token_prefix has_char
client_token_prefix-text prefix secret h =
    ground (arith, split_token-text "me" prefix secret refl h)

-- The row that was created is the one that its prefix finds.
pub created-find :
    (key : ApiKey) (rows : List ApiKey)
    → ((k : ApiKey) → Memᴰ k rows → k.id ≢ key.id)
    → any (takes_key key) (rows ++ key ∷ []) ≡ false
    → find (λ (row : ApiKey). row.key_prefix =ₛ key.key_prefix) (rows ++ key ∷ []) ≡ some key
created-find key rows fresh untaken =
    find_unique _ (rows ++ key ∷ []) (mem-append_last rows key) (str_eq_refl key.key_prefix)
      λ k m same. elim (mem-append_cases rows key m) [
        | inr e ↦ e
        | inl n ↦
            absurd
              (apart k (fresh k n) (any-false (takes_key key) (rows ++ key ∷ []) m untaken) same)
      ]
  where
    apart :
        (k : ApiKey)
        → k.id ≢ key.id
        → takes_key key k ≡ false
        → (k.key_prefix =ₛ key.key_prefix) ≡ true
        → ⊥
    apart k other t same = ground arith

-- What a creation that commits leaves.
pub record IsCreated (key : ApiKey) (db after : Db) : Type 0 where
  pub clients_kept : after.clients ≡ db.clients
  pub appended : after.api_keys ≡ db.api_keys ++ key ∷ []
  pub untaken : any (takes_key key) (db.api_keys ++ key ∷ []) ≡ false

pub create_api_key-IsCreated :
    (id : ℕ) (generated : GeneratedToken) (client : ClientProject) (name : String)
    (scopes : List String) (expires_at : Option ℕ) (db : Db)
    → Holds
        (λ r. IsCreated (new_api_key id generated client name scopes expires_at) db r.0)
        (create_api_key id generated client name scopes expires_at db)
unfolding create_api_key
create_api_key-IsCreated id generated client name scopes expires_at db =
    Holds-bind P (raise_if (not (is_subset scopes all_client_scopes)) Exception.value_error) _
      λ u _.
        Holds-bind P (raise_if (any (names_key client name) db.api_keys) Exception.api_key_conflict)
          _
          λ u' _.
            Holds-bind P
              (raise_if (any (takes_key key) (db.api_keys ++ key ∷ [])) Exception.integrity_error) _
              λ u'' h. record {
                clients_kept = refl;
                appended = refl;
                untaken = raise_if-eq-ok _ _ h;
              }
  where
    key : ApiKey
    key = new_api_key id generated client name scopes expires_at

    P : Db × ApiKey → Type 0
    P r = IsCreated key db r.0
