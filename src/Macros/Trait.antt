-- ===== src/Macros/Trait.antt =====
-- orpc_macros/src/orpc_trait.rs: the expansion of `orpc_trait`.
pub mod Accepts
pub mod Queues
use Prim.Native.String.{String, ◌++◌ as concat}
use orpc_prototype.Prelude.{
  Bool, true, false, not, ◌||◌, Option, none, some, List, [], ◌∷◌, ltb, ◌==◌, if◌then◌else◌, str_eq,
}
use orpc_prototype.Macros.{
  Signature, FnArg, self_argument, typed, OrpcMethodKind, orpc, oqueue, of, push, CompileError,
  wrong_return_type, only_methods, too_many_arguments, not_only_receiver, no_simple_receiver,
  no_constructor,
}

-- An attribute with the name of its path, if that is one name.
pub record Attribute {ℓ} (Tok : Type ℓ) : Type ℓ where
  pub path : Option String
  pub tokens : Tok

pub record TraitItemMethod {ℓ} (Tok : Type ℓ) : Type ℓ where
  pub attrs : List (Attribute Tok)
  pub sig : Signature Tok
  pub default : Option Tok

pub data TraitItem {ℓ} (Tok : Type ℓ) : Type ℓ where
  method : TraitItemMethod Tok → TraitItem Tok
  other_item : Tok → TraitItem Tok

-- `before` stands for what is copied to the front of the trait's name, `generics` for what follows it.
pub record ItemTrait {ℓ} (Tok : Type ℓ) : Type ℓ where
  pub before : Tok
  pub vis : Tok
  pub ident : String
  pub generics : Tok
  pub supertraits : List Tok
  pub items : List (TraitItem Tok)

-- A field of the struct of queues.
pub record Declaration {ℓ} (Tok : Type ℓ) : Type ℓ where
  pub attrs : List (Attribute Tok)
  pub vis : Tok
  pub ret_type : Tok

-- The vectors that the loop over the items fills. An initializer without an expression is `todo!()`.
pub record Generated {ℓ} (Tok : Type ℓ) : Type ℓ where
  pub oqueue_declarations : List (String × Declaration Tok)
  pub oqueue_initializers : List (String × Option Tok)
  pub errors : List CompileError
  pub method_decls : List (TraitItemMethod Tok)

pub record TraitDecl {ℓ} (Tok : Type ℓ) : Type ℓ where
  pub before : Tok
  pub vis : Tok
  pub ident : String
  pub generics : Tok
  pub supertraits : List Tok
  pub methods : List (TraitItemMethod Tok)

-- The trait with `Server` as a supertrait, the struct of queues with its `Default`, and the errors.
pub record TraitExpansion {ℓ} (Tok : Type ℓ) : Type ℓ where
  pub trait_decl : TraitDecl Tok
  pub oqueues_struct_ident : String
  pub oqueue_declarations : List (String × Declaration Tok)
  pub oqueue_initializers : List (String × Option Tok)
  pub errors : List CompileError

-- Whether the receiver is `&self`.
pub is_simple_receiver : Option FnArg → Bool
is_simple_receiver (some (self_argument true false)) = true
is_simple_receiver (some (self_argument true true)) = false
is_simple_receiver (some (self_argument false mutability)) = false
is_simple_receiver (some typed) = false
is_simple_receiver none = false

pub is_doc {ℓ} : {Tok : Type ℓ} → Attribute Tok → Bool
is_doc a = elim a.path [ none ↦ false | some i ↦ str_eq i "doc" ]

pub filter {ℓ} : {A : Type ℓ} → (A → Bool) → List A → List A
filter p [] = []
filter p (x ∷ xs) = let rest = filter p xs in if p x then x ∷ rest else rest

check : Bool → CompileError → List CompileError → List CompileError
check bad e errors = if bad then push errors e else errors

module _ {ℓ} {Tok : Type ℓ} where
  pub process_orpc_method : Generated Tok → TraitItemMethod Tok → Generated Tok
  unfolding check is_simple_receiver
  process_orpc_method g m =
      let bad_arg =
        (ltb m.sig.inputs 1 || ltb 2 m.sig.inputs) || not (is_simple_receiver m.sig.receiver) in
      record g {
        errors = check bad_arg too_many_arguments g.errors;
        method_decls = push g.method_decls m;
      }

  missing_default : Option Tok → List CompileError → List CompileError
  missing_default (some constr) errors = errors
  missing_default none errors = push errors no_constructor

  pub process_oqueue_method : Generated Tok → TraitItemMethod Tok → Tok → Tok → Generated Tok
  unfolding check missing_default is_simple_receiver is_doc filter
  process_oqueue_method g m ret_type vis =
      let checked =
        check (not (is_simple_receiver m.sig.receiver)) no_simple_receiver
          (check (not (m.sig.inputs == 1)) not_only_receiver g.errors) in
      record {
        oqueue_declarations =
            push g.oqueue_declarations (
              m.sig.ident,
              record { attrs = filter is_doc m.attrs; vis = vis; ret_type = ret_type },
            );
        oqueue_initializers = push g.oqueue_initializers (m.sig.ident, m.default);
        errors = missing_default m.default checked;
        method_decls = push g.method_decls (record m { default = none });
      }

  process_kind :
      Tok → Generated Tok → TraitItemMethod Tok → Option (OrpcMethodKind Tok) → Generated Tok
  unfolding process_orpc_method process_oqueue_method
  process_kind vis g m (some (orpc typ)) = process_orpc_method g m
  process_kind vis g m (some (oqueue typ)) = process_oqueue_method g m typ vis
  process_kind vis g m none = record g { errors = push g.errors wrong_return_type }

  pub process_item : Tok → Generated Tok → TraitItem Tok → Generated Tok
  unfolding process_kind of
  process_item vis g (method m) = process_kind vis g m (of m.sig)
  process_item vis g (other_item t) = record g { errors = push g.errors only_methods }

  pub process_items : Tok → Generated Tok → List (TraitItem Tok) → Generated Tok
  unfolding process_item
  process_items vis g [] = g
  process_items vis g (item ∷ items) = process_items vis (process_item vis g item) items

  abbrev pub nothing_generated : Generated Tok
  nothing_generated = record {
    oqueue_declarations = [];
    oqueue_initializers = [];
    errors = [];
    method_decls = [];
  }

  -- `server` is the path of the supertrait `Server`.
  unfoldable pub orpc_trait_macro_impl : Tok → ItemTrait Tok → TraitExpansion Tok
  unfolding process_items
  orpc_trait_macro_impl server input =
      let g = process_items input.vis nothing_generated input.items in
      record {
        trait_decl = record {
          before = input.before;
          vis = input.vis;
          ident = input.ident;
          generics = input.generics;
          supertraits = push input.supertraits server;
          methods = g.method_decls;
        };
        oqueues_struct_ident = concat input.ident "OQueues";
        oqueue_declarations = g.oqueue_declarations;
        oqueue_initializers = g.oqueue_initializers;
        errors = g.errors;
      }
