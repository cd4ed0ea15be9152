-- ===== src/Macros/Impl.antt =====
-- orpc_macros/src/orpc_impl.rs: the expansion of `orpc_impl`. What the generated method bodies do is
-- modelled in Rpc.
pub mod Methods
use Prim.Native.String.{String}
use orpc_prototype.Prelude.{
  Bool, true, false, not, ◌||◌, Option, none, some, List, [], ◌∷◌, ◌==◌, if◌then◌else◌, length,
}
use orpc_prototype.Macros.{
  Segment, Signature, OrpcMethodKind, orpc, oqueue, of, push, make_oqueues_field_name, CompileError,
  only_methods, unexpected_body, inherent_impl,
}

-- A statement: one that the parser did not understand, such as a lone `;`, or any other.
pub data Stmt {ℓ} (Tok : Type ℓ) : Type ℓ where
  verbatim : Tok → Stmt Tok
  other_stmt : Tok → Stmt Tok

-- `before` stands for what is copied to the front of the signature.
pub record ImplItemMethod {ℓ} (Tok : Type ℓ) : Type ℓ where
  pub before : Tok
  pub sig : Signature Tok
  pub block : List (Stmt Tok)

pub data ImplItem {ℓ} (Tok : Type ℓ) : Type ℓ where
  method : ImplItemMethod Tok → ImplItem Tok
  other_item : Tok → ImplItem Tok

-- An impl block, with the path of its trait if it is one of a trait.
pub record ItemImpl {ℓ} (Tok : Type ℓ) : Type ℓ where
  pub before : Tok
  pub trait_path : Option (List (Segment Tok))
  pub self_ty : Tok
  pub items : List (ImplItem Tok)

-- The body of a method that is generated: the checks around the body of the source, the expression
-- `self.orpc_internal.FIELD.NAME.clone()`, or the body of the source.
pub data Body {ℓ} (Tok : Type ℓ) : Type ℓ where
  guarded : List (Stmt Tok) → Body Tok
  accessor : (field name : String) → Body Tok
  copied : List (Stmt Tok) → Body Tok

pub record MethodImpl {ℓ} (Tok : Type ℓ) : Type ℓ where
  pub before : Tok
  pub sig : Signature Tok
  pub body : Body Tok

-- The impl of the trait, or an error in its place, and the other errors.
pub record ImplExpansion {ℓ} (Tok : Type ℓ) : Type ℓ where
  pub trait_impl : Option (List (Segment Tok))
  pub method_implementations : List (MethodImpl Tok)
  pub errors : List CompileError

-- The vectors that the loop over the items fills.
abbrev pub Written {ℓ} : Type ℓ → Type ℓ
Written Tok = List (MethodImpl Tok) × List CompileError

module _ {ℓ} {Tok : Type ℓ} where
  -- Whether the first statement is anything but a verbatim one.
  not_verbatim : List (Stmt Tok) → Bool
  not_verbatim (verbatim t ∷ rest) = false
  not_verbatim (other_stmt t ∷ rest) = true
  not_verbatim [] = true

  pub process_orpc_method : Written Tok → ImplItemMethod Tok → Written Tok
  process_orpc_method (methods, errors) m =
      (push methods (record { before = m.before; sig = m.sig; body = guarded m.block }), errors)

  pub process_oqueue_method : Written Tok → List (Segment Tok) → ImplItemMethod Tok → Written Tok
  unfolding not_verbatim make_oqueues_field_name
  process_oqueue_method (methods, errors) trait_path m =
      let checked =
        if not (length m.block == 1) || not_verbatim m.block
        then push errors unexpected_body
        else errors in
      let (oqueue_field_ident, errors') = make_oqueues_field_name checked trait_path in
      (
        push methods (record {
          before = m.before;
          sig = m.sig;
          body = accessor oqueue_field_ident m.sig.ident;
        }),
        errors',
      )

  process_kind :
      Option (List (Segment Tok))
      → Written Tok
      → ImplItemMethod Tok
      → Option (OrpcMethodKind Tok)
      → Written Tok
  unfolding process_orpc_method process_oqueue_method
  process_kind trait_path w m (some (orpc typ)) = process_orpc_method w m
  process_kind (some path) w m (some (oqueue typ)) = process_oqueue_method w path m
  process_kind none w m (some (oqueue typ)) = w
  process_kind trait_path (methods, errors) m none =
      (push methods (record { before = m.before; sig = m.sig; body = copied m.block }), errors)

  pub process_item : Option (List (Segment Tok)) → Written Tok → ImplItem Tok → Written Tok
  unfolding process_kind of
  process_item trait_path w (method m) = process_kind trait_path w m (of m.sig)
  process_item trait_path (methods, errors) (other_item t) = (methods, push errors only_methods)

  pub process_items : Option (List (Segment Tok)) → Written Tok → List (ImplItem Tok) → Written Tok
  unfolding process_item
  process_items trait_path w [] = w
  process_items trait_path w (item ∷ items) =
      process_items trait_path (process_item trait_path w item) items

  -- For an inherent impl the methods are dropped, and its error stands in place of the impl.
  expansion : Option (List (Segment Tok)) → Written Tok → ImplExpansion Tok
  expansion (some path) (methods, errors) = record {
    trait_impl = some path;
    method_implementations = methods;
    errors = errors;
  }
  expansion none (methods, errors) = record {
    trait_impl = none;
    method_implementations = [];
    errors = inherent_impl ∷ errors;
  }

  pub orpc_impl_macro_impl : ItemImpl Tok → ImplExpansion Tok
  unfolding process_items expansion
  orpc_impl_macro_impl input =
      expansion input.trait_path (process_items input.trait_path ([], []) input.items)
