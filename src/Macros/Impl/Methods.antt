-- ===== src/Macros/Impl/Methods.antt =====
-- The methods that `orpc_impl` writes for the impl of a trait, and when it reports no error.
use mathlib.Core.List.{append_assoc, append-nil}
use orpc_prototype.Prelude.{
  ◌≡◌, ◌↔◌, arith, refl, sym, ap, ◌∙◌, inl, inr, Bool, true, false, not, ◌||◌, Option, none, some,
  List, [], ◌∷◌, ◌++◌, if◌then◌else◌, ◌==◌, length, Option-cases, All, In, here, there,
}
use orpc_prototype.Macros.{
  Segment, OrpcMethodKind, orpc, oqueue, of, CompileError, unexpected_body, only_methods, push,
  push-ne-nil,
}
use orpc_prototype.Macros.Server.Internals.{
  field_name, make_oqueues_field_name-split, HasName, step_errors,
}
use orpc_prototype.Macros.Impl
use orpc_prototype.Macros.Impl.{
  ItemImpl, ImplItem, ImplItemMethod, method, other_item, Stmt, verbatim, other_stmt, Written,
  MethodImpl, Body, accessor, guarded, copied, process_orpc_method, process_oqueue_method,
  process_item, process_items, orpc_impl_macro_impl,
}

checked_inv :
    (bad : Bool) (errors : List CompileError)
    → (if bad then push errors unexpected_body else errors) ≡ []
    → (bad ≡ false) × (errors ≡ [])
checked_inv true errors h = absurd (push-ne-nil errors unexpected_body h)
checked_inv false errors h = (refl, h)

module _ {ℓ} {Tok : Type ℓ} where
  -- The body for each kind of method: the checks around the source's body, the field of the queue, or
  -- the source's body.
  abbrev pub body_for :
      List (Segment Tok) → ImplItemMethod Tok → Option (OrpcMethodKind Tok) → Body Tok
  body_for path m (some (orpc typ)) = guarded m.block
  body_for path m (some (oqueue typ)) = accessor (field_name path) m.sig.ident
  body_for path m none = copied m.block

  -- One method for each of the source, in order.
  abbrev pub implementations : List (Segment Tok) → List (ImplItem Tok) → List (MethodImpl Tok)
  implementations path [] = []
  implementations path (method m ∷ items) =
      record { before = m.before; sig = m.sig; body = body_for path m (of m.sig) }
      ∷ implementations path items
  implementations path (other_item t ∷ items) = implementations path items

  process_item-methods :
      (path : List (Segment Tok)) (w : Written Tok) (item : ImplItem Tok)
      → (process_item (some path) w item).0 ≡ w.0 ++ implementations path (item ∷ [])
  unfolding process_item Impl.process_kind process_orpc_method process_oqueue_method
  process_item-methods path w (other_item t) = sym (append-nil w.0)
  process_item-methods path w (method m) = elim (Option-cases (of m.sig)) [
    | inl e ↦ rw (e, Impl.process_kind)
    | inr (orpc typ, e) ↦ rw (e, Impl.process_kind)
    | inr (oqueue typ, e) ↦ rw (e, Impl.process_kind, make_oqueues_field_name-split)
  ]

  implementations-cons :
      (path : List (Segment Tok)) (item : ImplItem Tok) (items : List (ImplItem Tok))
      → implementations path (item ∷ items)
        ≡ implementations path (item ∷ []) ++ implementations path items
  implementations-cons path (method m) items = refl
  implementations-cons path (other_item t) items = refl

  process_items-methods :
      (path : List (Segment Tok)) (w : Written Tok) (items : List (ImplItem Tok))
      → (process_items (some path) w items).0 ≡ w.0 ++ implementations path items
  unfolding process_items
  process_items-methods path w [] = sym (append-nil w.0)
  process_items-methods path w (item ∷ items) =
      process_items-methods path (process_item (some path) w item) items
      ∙ ap (λ (x : List (MethodImpl Tok)). x ++ implementations path items)
          (process_item-methods path w item)
      ∙ append_assoc w.0 (implementations path (item ∷ [])) (implementations path items)
      ∙ ap (λ (x : List (MethodImpl Tok)). w.0 ++ x) (sym (implementations-cons path item items))

  -- A body that is a lone `;`.
  block_inv :
      (b : List (Stmt Tok))
      → (not (length b == 1) || Impl.not_verbatim b) ≡ false
      → (t : Tok) × (b ≡ verbatim t ∷ [])
  unfolding Impl.not_verbatim
  block_inv [] e = absurd (cc)
  block_inv (verbatim t ∷ []) e = (t, refl)
  block_inv (other_stmt t ∷ []) e = absurd (cc)
  block_inv (s ∷ (u ∷ b)) e =
      let many : (length (s ∷ (u ∷ b)) == 1) ≡ false = ground arith in
      absurd (let f : (not false || Impl.not_verbatim (s ∷ (u ∷ b))) ≡ false = rw many at e in cc)

-- The items of an impl of the trait at the path that is right: a queue method has a lone `;` for its
-- body and the path a last name, and any other method is right.
pub data Supported {ℓ} {Tok : Type ℓ} (path : List (Segment Tok)) : ImplItem Tok → Type ℓ where
  queue :
      {m : ImplItemMethod Tok} (typ t : Tok)
      → of m.sig ≡ some (oqueue typ)
      → m.block ≡ verbatim t ∷ []
      → HasName path
      → Supported path (method m)
  rpc :
      {m : ImplItemMethod Tok} (typ : Tok) → of m.sig ≡ some (orpc typ) → Supported path (method m)
  left_alone : {m : ImplItemMethod Tok} → of m.sig ≡ none → Supported path (method m)

module _ {ℓ} {Tok : Type ℓ} (path : List (Segment Tok)) where
  process_item-errors :
      (w : Written Tok) (item : ImplItem Tok)
      → (process_item (some path) w item).1 ≡ []
      → (w.1 ≡ []) × Supported path item
  unfolding process_item Impl.process_kind process_orpc_method process_oqueue_method
  process_item-errors w (other_item t) h = absurd (push-ne-nil w.1 only_methods h)
  process_item-errors w (method m) h = elim (Option-cases (of m.sig)) [
    | inl e ↦ (rw (e, Impl.process_kind) at h, left_alone e)
    | inr (orpc typ, e) ↦ (rw (e, Impl.process_kind) at h, rpc typ e)
    | inr (oqueue typ, e) ↦
        let (checked, name) = (step_errors _ path).0 (rw (e, Impl.process_kind) at h) in
        let (good, before) = checked_inv _ w.1 checked in
        let (t, lone) = block_inv m.block good in (before, queue typ t e lone name)
  ]

  process_item-supported :
      (w : Written Tok) (item : ImplItem Tok)
      → w.1 ≡ []
      → Supported path item
      → (process_item (some path) w item).1 ≡ []
  unfolding process_item Impl.process_kind process_orpc_method process_oqueue_method
      Impl.not_verbatim
  process_item-supported w (other_item t) h s = elim s [ ]
  process_item-supported w (method m) h (left_alone e) = rw (e, Impl.process_kind) h
  process_item-supported w (method m) h (rpc typ e) = rw (e, Impl.process_kind) h
  process_item-supported w (method m) h (queue typ t e lone name) =
      rw (e, Impl.process_kind) ((step_errors _ path).1 (rw lone h, name))

  process_items-errors :
      (w : Written Tok) (items : List (ImplItem Tok))
      → ((process_items (some path) w items).1 ≡ []) ↔ ((w.1 ≡ []) × All (Supported path) items)
  unfolding process_items
  process_items-errors w [] = ((λ h. (h, tt)), (λ h. h.0))
  process_items-errors w (item ∷ items) =
      let (only, enough) = process_items-errors (process_item (some path) w item) items in
      (
        (λ h.
            let (one, rest) = only h in
            let (before, s) = process_item-errors w item one in (before, (s, rest))),
        (λ h. enough (process_item-supported w item h.0 h.1.0, h.1.1)),
      )

  -- The impl of a trait is written as one of the same trait, with one method for each of the source,
  -- in order and with its signature: the body of an RPC method is the source's with the checks around
  -- it, that of a method that returns a queue gets it from the trait's field of the internal struct,
  -- and any other is copied. There is no error exactly if every item is a method, and one that returns
  -- a queue has a lone `;` for its body and belongs to a trait whose path has a last name.
  pub orpc_impl_macro_impl-methods :
      (input : ItemImpl Tok)
      → input.trait_path ≡ some path
      → ((orpc_impl_macro_impl input).trait_impl ≡ some path)
        × ((orpc_impl_macro_impl input).method_implementations ≡ implementations path input.items)
        × (((orpc_impl_macro_impl input).errors ≡ []) ↔ All (Supported path) input.items)
  unfolding orpc_impl_macro_impl Impl.expansion
  orpc_impl_macro_impl-methods input e =
      let (only, enough) = process_items-errors ([], []) input.items in
      rw (e, Impl.expansion)
        (
          refl,
          process_items-methods path ([], []) input.items,
          ((λ h. (only h).1), (λ h. enough (refl, h))),
        )

  pub implementations-In :
      (items : List (ImplItem Tok)) (m : ImplItemMethod Tok)
      → In (method m) items
      → In
          (record { before = m.before; sig = m.sig; body = body_for path m (of m.sig) })
          (implementations path items)
  implementations-In [] m h = elim h [ ]
  implementations-In (item ∷ items) m (here e) = rw e (here refl)
  implementations-In (method k ∷ items) m (there h) = there (implementations-In items m h)
  implementations-In (other_item t ∷ items) m (there h) = implementations-In items m h
