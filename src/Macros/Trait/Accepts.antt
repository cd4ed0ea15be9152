-- ===== src/Macros/Trait/Accepts.antt =====
-- Which traits `orpc_trait` expands without an error.
use orpc_prototype.Prelude.{
  ℕ, ◌≤◌, ◌≡◌, ◌↔◌, refl, sym, ap, ◌∙◌, inl, inr, arith, Bool, true, false, not, Option, none, some,
  List, [], ◌∷◌, ◌++◌, ltb, ltb-false, ==_iff, Option-cases, All, or-false,
}
use mathlib.Core.List.{append_assoc, append-nil}
use orpc_prototype.Macros.{
  too_many_arguments, not_only_receiver, no_simple_receiver, no_constructor, wrong_return_type,
  FnArg, self_argument, typed, orpc, oqueue, of, push-ne-nil, append-nil_inv, CompileError,
}
use orpc_prototype.Macros.Trait
use orpc_prototype.Macros.Trait.{
  TraitItem, TraitItemMethod, ItemTrait, method, other_item, Generated, nothing_generated,
  is_simple_receiver, process_orpc_method, process_oqueue_method, process_item, process_items,
  orpc_trait_macro_impl,
}

-- The items of a trait that is right: RPC methods with `&self` and at most one other argument, and
-- methods that have only `&self`, return a queue and give its constructor.
pub data Accepted {ℓ} {Tok : Type ℓ} : TraitItem Tok → Type ℓ where
  rpc :
      {m : TraitItemMethod Tok} (typ : Tok)
      → of m.sig ≡ some (orpc typ)
      → (1 ≤ m.sig.inputs) × (m.sig.inputs ≤ 2)
      → m.sig.receiver ≡ some (self_argument true false)
      → Accepted (method m)
  queue :
      {m : TraitItemMethod Tok} (typ constr : Tok)
      → of m.sig ≡ some (oqueue typ)
      → m.sig.inputs ≡ 1
      → m.sig.receiver ≡ some (self_argument true false)
      → m.default ≡ some constr
      → Accepted (method m)

is_simple_receiver_inv :
    (r : Option FnArg) → is_simple_receiver r ≡ true → r ≡ some (self_argument true false)
unfolding is_simple_receiver
is_simple_receiver_inv (some (self_argument true false)) e = refl
is_simple_receiver_inv (some (self_argument true true)) e = absurd (cc)
is_simple_receiver_inv (some (self_argument false b)) e = absurd (cc)
is_simple_receiver_inv (some typed) e = absurd (cc)
is_simple_receiver_inv none e = absurd (cc)

check-append :
    (bad : Bool) (e : CompileError) (xs ys : List CompileError)
    → Trait.check bad e (xs ++ ys) ≡ xs ++ Trait.check bad e ys
unfolding Trait.check
check-append true e xs ys = append_assoc xs ys (e ∷ [])
check-append false e xs ys = refl

check_self :
    (bad : Bool) (e : CompileError) (xs : List CompileError)
    → Trait.check bad e xs ≡ xs ++ Trait.check bad e []
check_self bad e xs = ap (Trait.check bad e) (sym (append-nil xs)) ∙ check-append bad e xs []

missing_default-append {ℓ} :
    {Tok : Type ℓ} (d : Option Tok) (xs ys : List CompileError)
    → Trait.missing_default d (xs ++ ys) ≡ xs ++ Trait.missing_default d ys
unfolding Trait.missing_default
missing_default-append none xs ys = append_assoc xs ys (no_constructor ∷ [])
missing_default-append (some c) xs ys = refl

not-false : (b : Bool) → not b ≡ false → b ≡ true
not-false true e = refl
not-false false e = absurd (cc)

ltb-false_le : (a b : ℕ) → ltb a b ≡ false → b ≤ a
ltb-false_le a b e = ground arith

check_inv :
    (bad : Bool) (e : CompileError) (xs : List CompileError)
    → Trait.check bad e xs ≡ []
    → (bad ≡ false) × (xs ≡ [])
unfolding Trait.check
check_inv true e xs h = absurd (push-ne-nil xs e h)
check_inv false e xs h = (refl, h)

missing_default_inv {ℓ} :
    {Tok : Type ℓ} (d : Option Tok) (xs : List CompileError)
    → Trait.missing_default d xs ≡ []
    → (constr : Tok) × (d ≡ some constr) × (xs ≡ [])
unfolding Trait.missing_default
missing_default_inv none xs h = absurd (push-ne-nil xs no_constructor h)
missing_default_inv (some c) xs h = (c, refl, h)

module _ {ℓ} {Tok : Type ℓ} (vis : Tok) where
  -- An item adds its errors to those there are.
  process_item-errors :
      (g : Generated Tok) (item : TraitItem Tok)
      → (process_item vis g item).errors
        ≡ g.errors ++ (process_item vis nothing_generated item).errors
  unfolding process_item Trait.process_kind process_orpc_method process_oqueue_method
  process_item-errors g (other_item t) = refl
  process_item-errors g (method m) = elim (Option-cases (of m.sig)) [
    | inl e ↦ rw (e, Trait.process_kind)
    | inr (orpc typ, e) ↦ rw (e, Trait.process_kind) (check_self _ too_many_arguments g.errors)
    | inr (oqueue typ, e) ↦
        rw (e, Trait.process_kind)
          (ap (Trait.missing_default m.default) (
              ap (Trait.check _ no_simple_receiver) (check_self _ not_only_receiver g.errors)
              ∙ check-append _ no_simple_receiver g.errors _)
            ∙ missing_default-append m.default g.errors _)
  ]

  -- An accepted item adds none.
  accepted_item :
      (item : TraitItem Tok) → Accepted item → (process_item vis nothing_generated item).errors ≡ []
  unfolding process_item Trait.process_kind process_orpc_method process_oqueue_method Trait.check
      Trait.missing_default is_simple_receiver
  accepted_item (other_item t) h = elim h [ ]
  accepted_item (method m) (rpc typ e (lo, hi) r) =
      rw (e, Trait.process_kind, r, ltb-false m.sig.inputs 1 lo, ltb-false 2 m.sig.inputs hi)
  accepted_item (method m) (queue typ constr e one r d) = rw (e, Trait.process_kind, r, one, d)

  accepted_item_inv :
      (item : TraitItem Tok) → (process_item vis nothing_generated item).errors ≡ [] → Accepted item
  unfolding process_item Trait.process_kind process_orpc_method process_oqueue_method Trait.check
      Trait.missing_default
  accepted_item_inv (other_item t) h = absurd (cc)
  accepted_item_inv (method m) h = elim (Option-cases (of m.sig)) [
    | inl e ↦ absurd (let f : wrong_return_type ∷ [] ≡ [] = rw (e, Trait.process_kind) at h in cc)
    | inr (orpc typ, e) ↦
        let (good, _) = check_inv _ too_many_arguments [] (rw (e, Trait.process_kind) at h) in
        let (counted, simple) = or-false _ (not (is_simple_receiver m.sig.receiver)) good in
        let (lo, hi) = or-false (ltb m.sig.inputs 1) (ltb 2 m.sig.inputs) counted in
        rpc typ e (ltb-false_le m.sig.inputs 1 lo, ltb-false_le 2 m.sig.inputs hi)
          (is_simple_receiver_inv m.sig.receiver (not-false _ simple))
    | inr (oqueue typ, e) ↦
        let (constr, d, checked) =
          missing_default_inv m.default _ (rw (e, Trait.process_kind) at h) in
        let (simple, counted) = check_inv _ no_simple_receiver _ checked in
        let (one, _) = check_inv _ not_only_receiver [] counted in
        queue typ constr e ((==_iff m.sig.inputs 1).0 (not-false _ one))
          (is_simple_receiver_inv m.sig.receiver (not-false _ simple)) d
  ]

  process_items-errors :
      (g : Generated Tok) (items : List (TraitItem Tok))
      → ((process_items vis g items).errors ≡ []) ↔ ((g.errors ≡ []) × All Accepted items)
  unfolding process_items
  process_items-errors g [] = ((λ h. (h, tt)), (λ h. h.0))
  process_items-errors g (item ∷ items) =
      let (only, enough) = process_items-errors (process_item vis g item) items in
      (
        (λ h.
            let (grown, rest) = only h in
            let (before, here) =
              append-nil_inv g.errors _ (sym (process_item-errors g item) ∙ grown) in
            (before, (accepted_item_inv item here, rest))),
        (λ h. enough (
          process_item-errors g item
              ∙ ap
                  (λ (e : List CompileError). e ++ (process_item vis nothing_generated item).errors)
                  h.0
              ∙ accepted_item item h.1.0,
          h.1.1,
        )),
      )

-- The expansion of a trait has no error exactly if every item is an RPC method with `&self` and at
-- most one other argument, or a method that has only `&self`, returns an `OQueueRef` and gives its
-- constructor.
pub orpc_trait_macro_impl-errors {ℓ} :
    {Tok : Type ℓ} (server : Tok) (input : ItemTrait Tok)
    → ((orpc_trait_macro_impl server input).errors ≡ []) ↔ All Accepted input.items
unfolding orpc_trait_macro_impl
orpc_trait_macro_impl-errors server input =
    let (only, enough) = process_items-errors input.vis nothing_generated input.items in
    ((λ h. (only h).1), (λ h. enough (refl, h)))
