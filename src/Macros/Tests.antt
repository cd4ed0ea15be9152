-- ===== src/Macros/Tests.antt =====
-- A trait with an RPC method and a queue, a server of it and its impl. Tokens are texts.
use Prim.Native.String.{String}
use orpc_prototype.Prelude.{
  ◌≡◌, ◌↔◌, refl, true, false, none, some, List, [], ◌∷◌, map, All, In, here, there,
}
use orpc_prototype.Macros.{
  Segment, Signature, self_argument, returns_path, of, oqueue, no_trait_name, unnamed_fields,
  no_constructor, not_only_receiver,
}
use orpc_prototype.Macros.Trait
use orpc_prototype.Macros.Trait.{ItemTrait, TraitItem, TraitItemMethod, orpc_trait_macro_impl}
use orpc_prototype.Macros.Trait.Accepts.{Accepted, orpc_trait_macro_impl-errors}
use orpc_prototype.Macros.Server.{ItemStruct, named, other_fields, orpc_server_macro_impl}
use orpc_prototype.Macros.Impl
use orpc_prototype.Macros.Impl.{
  ItemImpl, ImplItem, ImplItemMethod, MethodImpl, Body, accessor, verbatim, orpc_impl_macro_impl,
}
use orpc_prototype.Macros.Impl.Methods.{Supported, implementations, orpc_impl_macro_impl-methods}
use orpc_prototype.Macros.Accessors.{queue_of, accessor_lem}

abbrev segment : String → Segment String
segment i = record { ident = i; arguments = none }

abbrev returning : String → String → Signature String
returning name typ = record {
  ident = name;
  inputs = 1;
  receiver = some (self_argument true false);
  output = returns_path false (segment typ ∷ []) typ;
}

abbrev length_queue : TraitItemMethod String
length_queue = record {
  attrs = [];
  sig = returning "lengths" "OQueueRef";
  default = some "LockingQueue::new(8)";
}

abbrev cache_trait : ItemTrait String
cache_trait = record {
  before = "";
  vis = "pub";
  ident = "Cache";
  generics = "";
  supertraits = [];
  items =
      Trait.method (record { attrs = []; sig = returning "read" "Result"; default = none })
      ∷ Trait.method length_queue
      ∷ [];
}

abbrev memory : ItemStruct String
memory = record {
  before = "";
  vis = "pub";
  ident = "Memory";
  generics = "";
  fields = named ("blocks: usize" ∷ []);
}

abbrev cache_path : List (Segment String)
cache_path = segment "demo" ∷ segment "Cache" ∷ []

abbrev lengths : ImplItemMethod String
lengths = record { before = ""; sig = returning "lengths" "OQueueRef"; block = verbatim ";" ∷ [] }

abbrev cache_impl : ItemImpl String
cache_impl = record {
  before = "";
  trait_path = some (segment "Cache" ∷ []);
  self_ty = "Memory";
  items = Impl.method lengths ∷ [];
}

-- `of` tells a queue method by the last name of its return type.
kind_test : of (returning "lengths" "OQueueRef") ≡ some (oqueue "OQueueRef")
unfolding of
kind_test = refl

-- A method without a constructor and with two arguments gives two errors, in this order.
errors_test :
    (orpc_trait_macro_impl "::orpc::Server" (record cache_trait {
      items =
          Trait.method (record length_queue {
            sig = record (returning "q" "OQueueRef") { inputs = 2 };
            default = none;
          })
          ∷ [];
    })).errors
    ≡ not_only_receiver ∷ no_constructor ∷ []
unfolding orpc_trait_macro_impl
errors_test = refl

-- A path without a last name is reported once for each of the two passes, and then the fields.
server_errors_test :
    (orpc_server_macro_impl ([] ∷ []) (record memory { fields = other_fields ";" })).errors
    ≡ no_trait_name ∷ no_trait_name ∷ unnamed_fields ∷ []
unfolding orpc_server_macro_impl
server_errors_test = refl

orpc_trait_macro_impl-errors_example :
    ((orpc_trait_macro_impl "::orpc::Server" cache_trait).errors ≡ [])
    ↔ All Accepted cache_trait.items
orpc_trait_macro_impl-errors_example = orpc_trait_macro_impl-errors "::orpc::Server" cache_trait

orpc_impl_macro_impl-methods_example :
    ((orpc_impl_macro_impl cache_impl).trait_impl ≡ some (segment "Cache" ∷ []))
    × ((orpc_impl_macro_impl cache_impl).method_implementations
        ≡ implementations (segment "Cache" ∷ []) cache_impl.items)
    × (((orpc_impl_macro_impl cache_impl).errors ≡ [])
        ↔ All (Supported (segment "Cache" ∷ [])) cache_impl.items)
orpc_impl_macro_impl-methods_example =
    orpc_impl_macro_impl-methods (segment "Cache" ∷ []) cache_impl refl

accessor_lem_example :
    (b : MethodImpl String) × In b (orpc_impl_macro_impl cache_impl).method_implementations
    × (b.sig ≡ lengths.sig)
    × (queue_of
          (map (orpc_trait_macro_impl "::orpc::Server") (cache_trait ∷ []))
          (orpc_server_macro_impl (cache_path ∷ []) memory)
          b.body
        ≡ some "LockingQueue::new(8)")
unfolding of orpc_trait_macro_impl orpc_server_macro_impl
accessor_lem_example =
    accessor_lem "::orpc::Server" (cache_trait ∷ []) cache_trait length_queue "OQueueRef"
      "LockingQueue::new(8)" (here refl) (tt, tt) (there (here refl)) refl refl (tt, tt)
      (cache_path ∷ []) memory (tt, tt) cache_path (segment "Cache") (here refl) refl refl
      cache_impl (segment "Cache" ∷ []) (segment "Cache") refl refl refl lengths "OQueueRef"
      (here refl) refl refl
