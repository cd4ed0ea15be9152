-- ===== src/Macros.antt =====
-- orpc_macros/src: what the attribute macros read of the Rust code that they are applied to, and
-- orpc_macros/src/parsing_utils.rs. The pieces of syntax that a macro only copies are of any type `Tok`.
pub mod Trait
pub mod Server
pub mod Impl
pub mod Accessors
mod Tests
use Prim.Native.String.{String, ◌++◌ as concat}
use orpc_prototype.Prelude.{
  ℕ, ◌≡◌, refl, Bool, true, false, Option, none, some, List, [], ◌∷◌, ◌++◌, if◌then◌else◌, str_eq,
}

-- A name in a path, with its generic arguments.
pub record Segment {ℓ} (Tok : Type ℓ) : Type ℓ where
  pub ident : String
  pub arguments : Option Tok

-- What a signature says after `->`.
pub data ReturnType {ℓ} (Tok : Type ℓ) : Type ℓ where
  no_return : ReturnType Tok
  returns_path : (qualified : Bool) → List (Segment Tok) → Tok → ReturnType Tok
  returns_other : Tok → ReturnType Tok

-- An argument: `self` with or without `&` and `mut`, or `name: Type`.
pub data FnArg : Type 0 where
  self_argument : (reference mutability : Bool) → FnArg
  typed : FnArg

-- A signature: `inputs` counts the arguments, and `receiver` is what `Signature::receiver` finds.
pub record Signature {ℓ} (Tok : Type ℓ) : Type ℓ where
  pub ident : String
  pub inputs : ℕ
  pub receiver : Option FnArg
  pub output : ReturnType Tok

-- What the macros complain about in the code that they generate.
pub data CompileError : Type 0 where
  wrong_return_type : CompileError
  only_methods : CompileError
  too_many_arguments : CompileError
  not_only_receiver : CompileError
  no_simple_receiver : CompileError
  no_constructor : CompileError
  unexpected_body : CompileError
  inherent_impl : CompileError
  unnamed_fields : CompileError
  no_trait_name : CompileError

pub data OrpcMethodKind {ℓ} (Tok : Type ℓ) : Type ℓ where
  orpc : Tok → OrpcMethodKind Tok
  oqueue : Tok → OrpcMethodKind Tok

module _ {ℓ} {A : Type ℓ} where
  abbrev pub last : List A → Option A
  last [] = none
  last (x ∷ []) = some x
  last (x ∷ (y ∷ xs)) = last (y ∷ xs)

  -- `Vec::push`
  abbrev pub push : List A → A → List A
  push xs x = xs ++ (x ∷ [])

module _ {ℓ} {Tok : Type ℓ} where
  -- The kind that the last name of the return type tells.
  kind_of_name : Option (Segment Tok) → Tok → Option (OrpcMethodKind Tok)
  kind_of_name none typ = none
  kind_of_name (some segment) typ =
      if str_eq segment.ident "Result"
      then some (orpc typ)
      else if str_eq segment.ident "OQueueRef"
      then some (oqueue typ)
      else none

  kind_of_return : ReturnType Tok → Option (OrpcMethodKind Tok)
  unfolding kind_of_name
  kind_of_return (returns_path false segments typ) = kind_of_name (last segments) typ
  kind_of_return (returns_path true segments typ) = none
  kind_of_return (returns_other typ) = none
  kind_of_return no_return = none

  pub of : Signature Tok → Option (OrpcMethodKind Tok)
  unfolding kind_of_return
  of sig = kind_of_return sig.output

  oqueues_field_name : List CompileError → Option (Segment Tok) → String × List CompileError
  oqueues_field_name errors (some trait_ident) = (concat trait_ident.ident "_oqueues", errors)
  oqueues_field_name errors none = ("_fake", push errors no_trait_name)

  pub make_oqueues_field_name : List CompileError → List (Segment Tok) → String × List CompileError
  unfolding oqueues_field_name
  make_oqueues_field_name errors segments = oqueues_field_name errors (last segments)

pub push-ne-nil {ℓ} : {A : Type ℓ} (xs : List A) (x : A) → push xs x ≡ [] → ⊥
push-ne-nil [] x e = cc
push-ne-nil (y ∷ xs) x e = cc

pub append-nil_inv {ℓ} : {A : Type ℓ} (xs ys : List A) → xs ++ ys ≡ [] → (xs ≡ []) × (ys ≡ [])
append-nil_inv [] ys h = (refl, h)
append-nil_inv (x ∷ xs) ys h = absurd (cc)
