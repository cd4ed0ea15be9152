-- ===== src/Macros/Accessors.antt =====
-- The expansions of the three attribute macros together: from where a generated accessor gets its queue.
use Prim.Native.String.{String, ◌++◌ as concat}
use orpc_prototype.Prelude.{
  ◌≡◌, refl, Option, none, some, List, map, In, In-map, names, field_of, field_of-In, DistinctNames,
}
use orpc_prototype.Macros.{Segment, oqueue, of, last}
use orpc_prototype.Macros.Trait
use orpc_prototype.Macros.Trait.{ItemTrait, TraitItemMethod, TraitExpansion, orpc_trait_macro_impl}
use orpc_prototype.Macros.Trait.Queues.{initializer_lem, oqueues_struct_ident_lem}
use orpc_prototype.Macros.Server.{ItemStruct, ServerExpansion, orpc_server_macro_impl}
use orpc_prototype.Macros.Server.Internals.{last-oqueues_path, internal_field, field_name-some}
use orpc_prototype.Macros.Impl
use orpc_prototype.Macros.Impl.{
  ItemImpl, ImplItem, ImplItemMethod, MethodImpl, Body, accessor, guarded, copied,
  orpc_impl_macro_impl,
}
use orpc_prototype.Macros.Impl.Methods.{implementations-In, body_for, orpc_impl_macro_impl-methods}

and_then {κ ι} : {A : Type κ} {B : Type ι} → Option A → (A → Option B) → Option B
and_then none f = none
and_then (some a) f = f a

module _ {ℓ} {Tok : Type ℓ} where
  -- The structs of queues by name, each with the initializers of its `Default`.
  abbrev pub queue_structs : List (TraitExpansion Tok) → List (String × List (String × Option Tok))
  queue_structs = map (λ (e : TraitExpansion Tok). (e.oqueues_struct_ident, e.oqueue_initializers))

  -- The expression that made the queue which a method returns: the field of the internal struct has
  -- the type that its path names, and its value is that type's default.
  pub queue_of : List (TraitExpansion Tok) → ServerExpansion Tok → Body Tok → Option Tok
  unfolding and_then
  queue_of traits server (accessor field name) =
      and_then (field_of server.oqueue_fields field) (λ path. and_then (last path) (λ segment.
        and_then (field_of (queue_structs traits) segment.ident)
          (λ queues. and_then (field_of queues name) (λ constr. constr))))
  queue_of traits server (guarded block) = none
  queue_of traits server (copied block) = none

  module _ (server : Tok) (defs : List (ItemTrait Tok)) (t : ItemTrait Tok)
      (m : TraitItemMethod Tok) (typ constr : Tok) (declared : In t defs)
      (apart : DistinctNames (names (queue_structs (map (orpc_trait_macro_impl server) defs))))
      (given : In (Trait.method m) t.items) (kind : of m.sig ≡ some (oqueue typ))
      (default : m.default ≡ some constr)
      (once : DistinctNames (names (orpc_trait_macro_impl server t).oqueue_initializers)) where
    -- The default of the struct of queues has the method's constructor.
    struct_default :
        field_of
          (queue_structs (map (orpc_trait_macro_impl server) defs))
          (concat t.ident "OQueues")
        ≡ some (orpc_trait_macro_impl server t).oqueue_initializers
    struct_default = field_of-In _ _ _ apart (
        rw oqueues_struct_ident_lem at (
          In-map {B = String × List (String × Option Tok)}
            (λ (e : TraitExpansion Tok). (e.oqueues_struct_ident, e.oqueue_initializers))
            (In-map (orpc_trait_macro_impl server) declared)))

    method_default :
        field_of (orpc_trait_macro_impl server t).oqueue_initializers m.sig.ident
        ≡ some (some constr)
    method_default =
        field_of-In _ m.sig.ident (some constr) once
          (rw default at (initializer_lem server t m typ kind given))

    queue_found :
        (traits : List (List (Segment Tok))) (item : ItemStruct Tok)
        → DistinctNames (names (orpc_server_macro_impl traits item).oqueue_fields)
        → (p : List (Segment Tok)) (s : Segment Tok) → In p traits
        → last p ≡ some s
        → s.ident ≡ t.ident
        → queue_of
            (map (orpc_trait_macro_impl server) defs)
            (orpc_server_macro_impl traits item)
            (accessor (concat t.ident "_oqueues") m.sig.ident)
          ≡ some constr
    unfolding queue_of and_then
    queue_found traits item distinct p s served ps same =
        let field =
          rw same at (field_of-In _ _ _ distinct (internal_field traits item p s ps served)) in
        let typed = rw same at (last-oqueues_path p s ps) in
        rw (field, typed, struct_default, method_default)

    -- Take trait definitions whose structs of queues have different names, a queue method of one of
    -- them with its constructor, where no two queue methods of that trait have the same name, a server
    -- whose traits include that one and whose fields for the traits have different names, and the impl
    -- of a trait of that name with a method of the same name that returns a queue. Then the impl that
    -- is generated has that method, and the queue that it returns is the one that the trait's
    -- constructor made.
    pub accessor_lem :
        (traits : List (List (Segment Tok))) (item : ItemStruct Tok)
        → DistinctNames (names (orpc_server_macro_impl traits item).oqueue_fields)
        → (p : List (Segment Tok)) (s : Segment Tok) → In p traits
        → last p ≡ some s
        → s.ident ≡ t.ident
        → (input : ItemImpl Tok) (q : List (Segment Tok)) (u : Segment Tok)
        → input.trait_path ≡ some q
        → last q ≡ some u
        → u.ident ≡ t.ident
        → (n : ImplItemMethod Tok) (typ' : Tok) → In (Impl.method n) input.items
        → n.sig.ident ≡ m.sig.ident
        → of n.sig ≡ some (oqueue typ')
        → (b : MethodImpl Tok) × In b (orpc_impl_macro_impl input).method_implementations
          × (b.sig ≡ n.sig)
          × (queue_of
                (map (orpc_trait_macro_impl server) defs)
                (orpc_server_macro_impl traits item)
                b.body
              ≡ some constr)
    accessor_lem traits item distinct p s served ps name_p input q u of_trait qu name_q n typ'
          written same k =
        let b : MethodImpl Tok = record {
          before = n.before;
          sig = n.sig;
          body = body_for q n (of n.sig);
        } in
        let (_, methods, _) = orpc_impl_macro_impl-methods q input of_trait in
        (
          b,
          rw methods (implementations-In q input.items n written),
          refl,
          rw (k, field_name-some q u qu, name_q, same)
              (queue_found traits item distinct p s served ps name_p),
        )
