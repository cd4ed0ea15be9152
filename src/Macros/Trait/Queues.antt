-- ===== src/Macros/Trait/Queues.antt =====
-- The queues that `orpc_trait` generates for a trait.
use Prim.Native.String.{String, ◌++◌ as concat}
use orpc_prototype.Prelude.{
  ◌≡◌, refl, inl, inr, Option, some, List, [], ◌∷◌, Option-cases, In, here, there, In-append_left,
  In-append_right,
}
use orpc_prototype.Macros.{orpc, oqueue, of}
use orpc_prototype.Macros.Trait
use orpc_prototype.Macros.Trait.{
  TraitItem, TraitItemMethod, ItemTrait, method, other_item, Generated, nothing_generated,
  process_orpc_method, process_oqueue_method, process_item, process_items, orpc_trait_macro_impl,
}

module _ {ℓ} {Tok : Type ℓ} (vis : Tok) where
  -- An initializer that is there stays.
  item_keeps :
      {f : String × Option Tok} (g : Generated Tok) (item : TraitItem Tok)
      → In f g.oqueue_initializers
      → In f (process_item vis g item).oqueue_initializers
  unfolding process_item Trait.process_kind process_orpc_method process_oqueue_method
  item_keeps g (other_item t) h = h
  item_keeps g (method m) h = elim (Option-cases (of m.sig)) [
    | inl e ↦ rw (e, Trait.process_kind) h
    | inr (orpc typ, e) ↦ rw (e, Trait.process_kind) h
    | inr (oqueue typ, e) ↦ rw (e, Trait.process_kind) (In-append_left _ h)
  ]

  items_keep :
      {f : String × Option Tok} (g : Generated Tok) (items : List (TraitItem Tok))
      → In f g.oqueue_initializers
      → In f (process_items vis g items).oqueue_initializers
  unfolding process_items
  items_keep g [] h = h
  items_keep g (item ∷ items) h = items_keep (process_item vis g item) items (item_keeps g item h)

  items_initialize :
      (g : Generated Tok) (items : List (TraitItem Tok)) (m : TraitItemMethod Tok) (typ : Tok)
      → of m.sig ≡ some (oqueue typ)
      → In (method m) items
      → In (m.sig.ident, m.default) (process_items vis g items).oqueue_initializers
  unfolding process_items process_item Trait.process_kind process_oqueue_method
  items_initialize g [] m typ k h = elim h [ ]
  items_initialize g (item ∷ items) m typ k (there h) =
      items_initialize (process_item vis g item) items m typ k h
  items_initialize g (item ∷ items) m typ k (here e) =
      items_keep (process_item vis g item) items
        (rw e (rw (k, Trait.process_kind) (In-append_right g.oqueue_initializers (here refl))))

-- The struct of queues has a field for every queue method, with the constructor that the trait gives.
pub initializer_lem {ℓ} :
    {Tok : Type ℓ} (server : Tok) (input : ItemTrait Tok) (m : TraitItemMethod Tok) (typ : Tok)
    → of m.sig ≡ some (oqueue typ)
    → In (method m) input.items
    → In (m.sig.ident, m.default) (orpc_trait_macro_impl server input).oqueue_initializers
unfolding orpc_trait_macro_impl
initializer_lem server input m typ k h =
    items_initialize input.vis nothing_generated input.items m typ k h

pub oqueues_struct_ident_lem {ℓ} :
    {Tok : Type ℓ} (server : Tok) (input : ItemTrait Tok)
    → (orpc_trait_macro_impl server input).oqueues_struct_ident ≡ concat input.ident "OQueues"
unfolding orpc_trait_macro_impl
oqueues_struct_ident_lem server input = refl
