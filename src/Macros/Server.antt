-- ===== src/Macros/Server.antt =====
-- orpc_macros/src/orpc_server.rs: the expansion of `orpc_server`.
pub mod Internals
use Prim.Native.String.{String, ◌++◌ as concat}
use orpc_prototype.Prelude.{List, [], ◌∷◌}
use orpc_prototype.Macros.{Segment, CompileError, unnamed_fields, push, make_oqueues_field_name}

-- The fields of a struct: named ones, or a tuple or nothing.
pub data Fields {ℓ} (Tok : Type ℓ) : Type ℓ where
  named : List Tok → Fields Tok
  other_fields : Tok → Fields Tok

-- `before` stands for the attributes, the visibility and the keyword.
pub record ItemStruct {ℓ} (Tok : Type ℓ) : Type ℓ where
  pub before : Tok
  pub vis : Tok
  pub ident : String
  pub generics : Tok
  pub fields : Fields Tok

-- The fields of the server: those of the source and `orpc_internal` with the type that is named, or
-- those of the source alone.
pub data ServerFields {ℓ} (Tok : Type ℓ) : Type ℓ where
  with_internal : List Tok → String → ServerFields Tok
  unchanged : Tok → ServerFields Tok

-- The server struct, its internal struct with a field for the queues of each trait beside `base`, the
-- names that `new_with` initializes by default, and the errors.
pub record ServerExpansion {ℓ} (Tok : Type ℓ) : Type ℓ where
  pub before : Tok
  pub vis : Tok
  pub ident : String
  pub generics : Tok
  pub fields : ServerFields Tok
  pub orpc_internal_struct_ident : String
  pub oqueue_fields : List (String × List (Segment Tok))
  pub oqueue_field_names : List String
  pub errors : List CompileError

module _ {ℓ} {Tok : Type ℓ} where
  -- The path of the struct of queues: the last name with `OQueues` behind it.
  pub oqueues_path : List (Segment Tok) → List (Segment Tok)
  oqueues_path [] = []
  oqueues_path (s ∷ []) = record s { ident = concat s.ident "OQueues" } ∷ []
  oqueues_path (s ∷ (t ∷ rest)) = s ∷ oqueues_path (t ∷ rest)

  pub oqueue_fields :
      List CompileError
      → List (List (Segment Tok))
      → List (String × List (Segment Tok)) × List CompileError
  unfolding make_oqueues_field_name oqueues_path
  oqueue_fields errors [] = ([], errors)
  oqueue_fields errors (trait_ident ∷ traits) =
      let (oqueue_field_ident, errors') = make_oqueues_field_name errors trait_ident in
      let (fields, errors'') = oqueue_fields errors' traits in
      ((oqueue_field_ident, oqueues_path trait_ident) ∷ fields, errors'')

  pub oqueue_field_names :
      List CompileError → List (List (Segment Tok)) → List String × List CompileError
  unfolding make_oqueues_field_name
  oqueue_field_names errors [] = ([], errors)
  oqueue_field_names errors (i ∷ traits) =
      let (name, errors') = make_oqueues_field_name errors i in
      let (names', errors'') = oqueue_field_names errors' traits in (name ∷ names', errors'')

  -- The fields of the server, and the error for a struct without named fields.
  server_fields : String → Fields Tok → List CompileError → ServerFields Tok × List CompileError
  server_fields orpc_internal_struct_ident (named fields) errors =
      (with_internal fields orpc_internal_struct_ident, errors)
  server_fields orpc_internal_struct_ident (other_fields fs) errors =
      (unchanged fs, push errors unnamed_fields)

  unfoldable pub orpc_server_macro_impl :
      List (List (Segment Tok)) → ItemStruct Tok → ServerExpansion Tok
  unfolding oqueue_fields oqueue_field_names server_fields
  orpc_server_macro_impl traits input =
      let (fields, errors) = oqueue_fields [] traits in
      let (field_names, errors') = oqueue_field_names errors traits in
      let orpc_internal_struct_ident = concat input.ident "ORPCInternal" in
      let (all_fields, errors'') = server_fields orpc_internal_struct_ident input.fields errors' in
      record {
        before = input.before;
        vis = input.vis;
        ident = input.ident;
        generics = input.generics;
        fields = all_fields;
        orpc_internal_struct_ident = orpc_internal_struct_ident;
        oqueue_fields = fields;
        oqueue_field_names = field_names;
        errors = errors'';
      }
