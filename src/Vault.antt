-- ===== src/Vault.antt =====
-- vault: the secrets of clusters in HashiCorp Vault. The API client of Vault is the parameter `Logical`
-- over any world; a Go value of type `interface{}` is a `Value`, and a type assertion a function into
-- an option.
pub mod Versions
pub mod Client
pub mod Adding
pub mod Removal
pub mod Steps
pub mod Tokens
pub mod Retaining
pub mod Examples
pub mod Ending
pub mod Removed
use lieutenant_operator.Prelude.{
  ℤ, String, Bool, false, Option, none, some, List, [], ◌∷◌, ◌==◌, Dict,
}
use lieutenant_operator.Errors.{Error, Outcome}

-- What encoding/json decodes an answer into. A number is its text.
mutual
  pub data Value : Type 0 where
    nil : Value
    number : String → Value
    text : String → Value
    list : Items → Value
    object : Fields → Value

  pub data Items : Type 0 where
    end : Items
    item : Value → Items → Items

  pub data Fields : Type 0 where
    empty : Fields
    field : String → Value → Fields → Fields

abbrev pub items_of : Items → List Value
items_of end = []
items_of (item v vs) = v ∷ items_of vs

abbrev pub fields_of : Fields → Dict Value
fields_of empty = []
fields_of (field k v fs) = (k, v) ∷ fields_of fs

abbrev pub to_fields : Dict Value → Fields
to_fields [] = empty
to_fields ((k, v) ∷ m) = field k v (to_fields m)

-- `v.(string)`
abbrev pub as_text : Value → Option String
as_text (text s) = some s
as_text _ = none

-- `v.([]interface{})`
abbrev pub as_list : Value → Option (List Value)
as_list (list vs) = some (items_of vs)
as_list _ = none

-- `v.(map[string]interface{})`
abbrev pub as_map : Value → Option (Dict Value)
as_map (object fs) = some (fields_of fs)
as_map _ = none

-- `v == s` for a string `s`
abbrev pub is_text : String → Value → Bool
is_text s (text t) = t == s
is_text s _ = false

pub record VaultSecret : Type 0 where
  pub path : String
  pub value : String

-- What is written: an answer's data, or a list of versions.
pub data Payload : Type 0 where
  fields : Dict Value → Payload
  versions : List ℤ → Payload

-- `client.RawClient().Logical()`. A path that is not there is answered by nil. The data of an answer
-- are a map, which may be nil.
pub record Logical (W : Type 0) : Type 0 where
  pub read : String → W → Outcome (Option (Option (Dict Value)))
  pub list_keys : String → W → Outcome (Option (Option (Dict Value)))
  pub write : String → Payload → W → Option Error × W
  pub delete : String → W → Option Error × W
  -- `vault.NewData` of bank-vaults at check-and-set 0
  pub new_data : Dict Value → Dict Value

pub record BankVaultClient : Type 0 where
  pub secret_engine : String
  pub deletion_policy : String
