-- ===== src/UseCase/Crud.antt =====
-- The generic use cases of apps/tcc/usecase/usecases/base/base_uc.py, over any repository.
pub mod Pages
mod Tests
use Prim.Native.String.{◌++◌}
use taunggyi_city_church.Common.{
  ℕ, zero, ◌+◌, ◌-◌, ◌/◌, Bool, true, false, not, Option, none, some, List, [], ◌∷◌, String, str_eq,
  or_else, ltb, if◌then◌else◌,
}
use taunggyi_city_church.Common.Exec.{Outcome, Exec, ok, raised, pure, raise, raise_if, ◌>>=◌, ◌>>◌}
use taunggyi_city_church.Common.Dict.{Dict, lookup, insert}
use taunggyi_city_church.Common.Int.{ℤ, pos, negsuc, pos_part, ltb_ℤ}
use taunggyi_city_church.Common.Chars.{after_prefix, without_suffix}
use taunggyi_city_church.UseCase.Access.{Actor, UseCaseConfiguration, default_configuration}
use taunggyi_city_church.UseCase.Errors.{domain_exception}
use taunggyi_city_church.UseCase.Base.{UseCase, OperationContext}

-- a value given as an id: a number, a text, something else that is true, or something that is false
pub data Identifier : Type 0 where
  number : ℤ → Identifier
  text : String → Identifier
  other falsy : Identifier

-- a field of the data for a repository: a value of the input or the user that the audit context adds
pub data Entry (V : Type 0) : Type 0 where
  value : V → Entry V
  acting : Option Actor → Entry V

-- What the use cases read of `input_data`: ids by their keys, all of it as fields, and the entries
-- update_data, filters, page and per_page.
pub record Input (V : Type 0) : Type 0 where
  pub ids : Dict Identifier
  pub fields : Dict (Entry V)
  pub update_data : Dict (Entry V)
  pub filters : Dict V
  pub page : Option ℤ
  pub per_page : Option ℤ

pub record Repository (World Entity V : Type 0) : Type 0 where
  pub get_by_id : ℤ → Exec World (Option Entity)
  pub create : Dict (Entry V) → Exec World Entity
  pub update : ℤ → Dict (Entry V) → Exec World (Option Entity)
  pub delete : ℤ → Exec World Bool
  pub get_paginated : Dict V → ℤ → ℤ → Exec World (List Entity × ℕ)

pub record DeleteResponse : Type 0 where
  pub id : ℤ
  pub deleted : Bool
  pub message : String

pub record Page (Schema : Type 0) : Type 0 where
  pub items : List Schema
  pub total : ℕ
  pub page : ℤ
  pub page_size : ℤ
  pub total_pages : ℕ
  pub has_next : Bool
  pub has_prev : Bool

-- `not entity_id`
abbrev pub is_falsy : Identifier → Bool
is_falsy (number (pos zero)) = true
is_falsy (text s) = str_eq s ""
is_falsy falsy = true
is_falsy _ = false

-- `a or b` of two calls of `get`; a missing id is false
abbrev pub first_id : Option Identifier → Option Identifier → Identifier
first_id (some a) b = if is_falsy a then or_else b falsy else a
first_id none b = or_else b falsy

-- the loop over the prefixes of `_get_entity_name`
unfoldable pub without_prefixes : List String → String → String
unfolding after_prefix
without_prefixes [] name = name
without_prefixes (p ∷ rest) name = without_prefixes rest (or_else (after_prefix p name) name)

-- `_get_entity_name`
unfoldable pub get_entity_name : String → String
unfolding without_prefixes without_suffix
get_entity_name class_name =
    let name =
      without_prefixes ("Get" ∷ "Create" ∷ "Update" ∷ "Delete" ∷ "List" ∷ "Search" ∷ [])
        (without_suffix "UseCase" class_name) in
    if str_eq name "" then "Entity" else name

-- `_add_audit_context`: the context of an operation has no attribute `request`
unfoldable pub add_audit_context : {V : Type 0} → Dict (Entry V) → Option Actor → Dict (Entry V)
add_audit_context data_ user = insert "user" (acting user) data_

-- what the list of pages says of a total
unfoldable pub make_page : {Schema : Type 0} → List Schema → ℕ → ℤ → ℤ → Page Schema
make_page items total page per_page =
    let total_pages : ℕ =
      if ltb_ℤ (pos 0) per_page then (total + pos_part per_page - 1) / pos_part per_page else 1 in
    record {
      items = items;
      total = total;
      page = page;
      page_size = per_page;
      total_pages = total_pages;
      has_next = ltb_ℤ page (pos total_pages);
      has_prev = ltb_ℤ (pos 1) page;
    }

-- `lower` is str.lower, `read_int` is int(…) of a text with none for its ValueError, and
-- `model_validate` that of the schema of responses, a class of pydantic.
module _ {World Entity Schema V : Type 0} (lower : String → String) (read_int : String → Option ℤ)
    (model_validate : Entity → Outcome Schema) (repository : Repository World Entity V)
    (class_name : String) where
  -- `_validate_entity_id`
  unfoldable pub validate_entity_id : Identifier → String → Exec World ℤ
  unfolding domain_exception
  validate_entity_id (number i) id_name = do
    raise_if (is_falsy (number i))
        (domain_exception (id_name ++ " is required") "MISSING_ID" 400 none)
    pure i
  validate_entity_id (text s) id_name = do
    raise_if (str_eq s "") (domain_exception (id_name ++ " is required") "MISSING_ID" 400 none)
    elim (read_int s) [
      | some i ↦ pure i
      | none ↦ raise (domain_exception (id_name ++ " must be a valid number") "INVALID_ID" 400 none)
    ]
  validate_entity_id other id_name =
      raise (domain_exception (id_name ++ " must be a valid number") "INVALID_ID" 400 none)
  validate_entity_id falsy id_name =
      raise (domain_exception (id_name ++ " is required") "MISSING_ID" 400 none)

  abbrev pub entity_name : String
  entity_name = get_entity_name class_name

  abbrev pub id_of_input : Input V → Identifier
  id_of_input input =
      first_id (lookup "id" input.ids) (lookup (lower entity_name ++ "_id") input.ids)

  abbrev pub lift : {A : Type 0} → Outcome A → Exec World A
  lift r w = (r, w)

  -- `raise` where the repository gave nothing
  abbrev pub demand : String → String → ℕ → Option Entity → Exec World Entity
  demand message code status none = raise (domain_exception message code status none)
  demand message code status (some entity) = pure entity

  unfoldable pub get_by_id : Input V → Option Actor → Exec World Schema
  unfolding validate_entity_id get_entity_name domain_exception
  get_by_id input user = do
    entity_id ← validate_entity_id (id_of_input input) (entity_name ++ " ID")
    found ← repository.get_by_id entity_id
    entity ← demand (entity_name ++ " not found") "NOT_FOUND" 404 found
    lift (model_validate entity)

  unfoldable pub create : Input V → Option Actor → Exec World Schema
  unfolding add_audit_context
  create input user = do
    created_entity ← repository.create (add_audit_context input.fields user)
    lift (model_validate created_entity)

  unfoldable pub update : Input V → Option Actor → Exec World Schema
  unfolding validate_entity_id get_entity_name domain_exception add_audit_context
  update input user = do
    entity_id ← validate_entity_id (id_of_input input) (entity_name ++ " ID")
    updated ← repository.update entity_id (add_audit_context input.update_data user)
    entity ← demand ("Failed to update " ++ lower entity_name) "UPDATE_FAILED" 400 updated
    lift (model_validate entity)

  unfoldable pub delete : Input V → Option Actor → Exec World DeleteResponse
  unfolding validate_entity_id get_entity_name domain_exception
  delete input user = do
    entity_id ← validate_entity_id (id_of_input input) (entity_name ++ " ID")
    success ← repository.delete entity_id
    raise_if (not success)
        (domain_exception ("Failed to delete " ++ lower entity_name) "DELETE_FAILED" 400 none)
    pure (record {
      id = entity_id;
      deleted = success;
      message = entity_name ++ " deleted successfully";
    })

  unfoldable pub convert_all : List Entity → Exec World (List Schema)
  convert_all [] = pure []
  convert_all (entity ∷ rest) = do
    item ← lift (model_validate entity)
    items ← convert_all rest
    pure (item ∷ items)

  unfoldable pub list : Input V → Option Actor → Exec World (Page Schema)
  unfolding convert_all make_page
  list input user = do
    let page = or_else input.page (pos 1)
    let per_page = or_else input.per_page (pos 20)
    found ← repository.get_paginated input.filters page per_page
    items ← convert_all (found.0)
    pure (make_page items (found.1) page per_page)

-- A generic use case of `BaseUseCase`; `_validate_input` and `_validate_output` are the empty ones.
abbrev pub use_case :
    {World V Out : Type 0}
    → String
    → Bool
    → (Input V → Option Actor → Exec World Out)
    → UseCase World (Input V) Out
use_case class_name transactional body = record {
  class_name = class_name;
  config = record default_configuration { transactional = transactional };
  email_of = λ input. none;
  validate_input = λ input ctx. pure tt;
  on_execute = λ input user ctx. body input user;
  validate_output = λ out ctx. pure tt;
}
