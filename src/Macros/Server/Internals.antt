-- ===== src/Macros/Server/Internals.antt =====
-- The internal struct that `orpc_server` generates, and when its fields clash.
use Prim.Native.String.{String, ◌++◌ as concat}
use text.Mathlib.TextLemmas.{append_cancel_right}
use mathlib.Core.List.{append-nil}
use orpc_prototype.Prelude.{
  ◌≡◌, ◌↔◌, refl, inl, inr, Option-cases, sym, ap, ◌∙◌, Option, none, some, List, [], ◌∷◌, ◌++◌,
  All, In, here, there, names,
}
use orpc_prototype.Macros
use orpc_prototype.Macros.{
  Segment, last, CompileError, no_trait_name, unnamed_fields, make_oqueues_field_name, push-ne-nil,
  append-nil_inv,
}
use orpc_prototype.Macros.Server
use orpc_prototype.Macros.Server.{
  ItemStruct, Fields, named, other_fields, oqueues_path, oqueue_fields, oqueue_field_names,
  orpc_server_macro_impl,
}

module _ {ℓ} {Tok : Type ℓ} where
  make_oqueues_field_name-some :
      (errors : List CompileError) (path : List (Segment Tok)) (s : Segment Tok)
      → last path ≡ some s
      → make_oqueues_field_name errors path ≡ (concat s.ident "_oqueues", errors)
  unfolding make_oqueues_field_name Macros.oqueues_field_name
  make_oqueues_field_name-some errors path s e = rw e

  -- The name of the field that a path gives.
  abbrev pub field_name : List (Segment Tok) → String
  field_name path = (make_oqueues_field_name [] path).0

  pub field_name-some :
      (path : List (Segment Tok)) (s : Segment Tok)
      → last path ≡ some s
      → field_name path ≡ concat s.ident "_oqueues"
  field_name-some path s e =
      ap (λ (r : String × List CompileError). r.0) (make_oqueues_field_name-some [] path s e)

  -- The struct of queues is named by the last name of the trait's path.
  pub last-oqueues_path :
      (path : List (Segment Tok)) (s : Segment Tok)
      → last path ≡ some s
      → last (oqueues_path path) ≡ some (record s { ident = concat s.ident "OQueues" })
  unfolding oqueues_path
  last-oqueues_path [] s e = absurd (cc)
  last-oqueues_path (t ∷ []) s e = let same : t ≡ s = cc in rw same
  last-oqueues_path (t ∷ (u ∷ [])) s e = let same : u ≡ s = cc in rw same
  last-oqueues_path (t ∷ (u ∷ (v ∷ path))) s e = last-oqueues_path (u ∷ (v ∷ path)) s e

  -- Two trait paths give the same field exactly if they end in the same name.
  pub field_name-injective :
      (p q : List (Segment Tok)) (s t : Segment Tok)
      → last p ≡ some s
      → last q ≡ some t
      → (field_name p ≡ field_name q) ↔ (s.ident ≡ t.ident)
  field_name-injective p q s t e f =
      let a = field_name-some p s e in
      let b = field_name-some q t f in
      (
        (λ h. append_cancel_right s.ident t.ident "_oqueues" (sym a ∙ h ∙ b)),
        (λ h. a ∙ ap (λ (i : String). concat i "_oqueues") h ∙ sym b),
      )

  oqueue_fields-In :
      (errors : List CompileError) (traits : List (List (Segment Tok))) (path : List (Segment Tok))
      (s : Segment Tok)
      → last path ≡ some s
      → In path traits
      → In (concat s.ident "_oqueues", oqueues_path path) (oqueue_fields errors traits).0
  unfolding oqueue_fields
  oqueue_fields-In errors [] path s e h = elim h [ ]
  oqueue_fields-In errors (trait_ident ∷ traits) path s e (here same) =
      here (rw same (rw (make_oqueues_field_name-some errors path s e)))
  oqueue_fields-In errors (trait_ident ∷ traits) path s e (there h) =
      there (oqueue_fields-In (make_oqueues_field_name errors trait_ident).1 traits path s e h)

  oqueues_field_name-split :
      (errors : List CompileError) (o : Option (Segment Tok))
      → Macros.oqueues_field_name errors o
        ≡ ((Macros.oqueues_field_name [] o).0, errors ++ (Macros.oqueues_field_name [] o).1)
  unfolding Macros.oqueues_field_name
  oqueues_field_name-split errors none = refl
  oqueues_field_name-split errors (some s) = rw append-nil

  -- A path adds its errors to those there are, and its field does not depend on them.
  pub make_oqueues_field_name-split :
      (errors : List CompileError) (path : List (Segment Tok))
      → make_oqueues_field_name errors path
        ≡ (field_name path, errors ++ (make_oqueues_field_name [] path).1)
  unfolding make_oqueues_field_name
  make_oqueues_field_name-split errors path = oqueues_field_name-split errors (last path)

  oqueue_fields-names :
      (errors errors' : List CompileError) (traits : List (List (Segment Tok)))
      → names (oqueue_fields errors traits).0 ≡ (oqueue_field_names errors' traits).0
  unfolding oqueue_fields oqueue_field_names
  oqueue_fields-names errors errors' [] = refl
  oqueue_fields-names errors errors' (path ∷ traits) = rw (
    make_oqueues_field_name-split errors path,
    make_oqueues_field_name-split errors' path,
    oqueue_fields-names (errors ++ (make_oqueues_field_name [] path).1)
        (errors' ++ (make_oqueues_field_name [] path).1) traits,
  )

  -- A path that names a trait.
  abbrev pub HasName : List (Segment Tok) → Type ℓ
  HasName path = (s : Segment Tok) × (last path ≡ some s)

  pub named_lem :
      (path : List (Segment Tok)) → HasName path → (make_oqueues_field_name [] path).1 ≡ []
  named_lem path (s, e) =
      ap (λ (r : String × List CompileError). r.1) (make_oqueues_field_name-some [] path s e)

  pub named_inv :
      (path : List (Segment Tok)) → (make_oqueues_field_name [] path).1 ≡ [] → HasName path
  unfolding make_oqueues_field_name Macros.oqueues_field_name
  named_inv path h = elim (Option-cases (last path)) [
    | inl e ↦ absurd (let f : no_trait_name ∷ [] ≡ [] = rw e at h in cc)
    | inr found ↦ found
  ]

  -- A path after others leaves no error exactly if they left none and it names a trait.
  pub step_errors :
      (errors : List CompileError) (path : List (Segment Tok))
      → ((make_oqueues_field_name errors path).1 ≡ []) ↔ ((errors ≡ []) × HasName path)
  step_errors errors path =
      let e =
        ap (λ (r : String × List CompileError). r.1) (make_oqueues_field_name-split errors path) in
      (
        (λ h.
            let (before, own) = append-nil_inv errors _ (sym e ∙ h) in
            (before, named_inv path own)),
        (λ h.
            e
            ∙ ap (λ (x : List CompileError). x ++ (make_oqueues_field_name [] path).1) h.0
            ∙ named_lem path h.1),
      )

  oqueue_fields-errors :
      (errors : List CompileError) (traits : List (List (Segment Tok)))
      → ((oqueue_fields errors traits).1 ≡ []) ↔ ((errors ≡ []) × All HasName traits)
  unfolding oqueue_fields
  oqueue_fields-errors errors [] = ((λ h. (h, tt)), (λ h. h.0))
  oqueue_fields-errors errors (path ∷ traits) =
      let rest = oqueue_fields-errors (make_oqueues_field_name errors path).1 traits in
      let one = step_errors errors path in
      (
        (λ h. let (e, all) = rest.0 h in let (before, name) = one.0 e in (before, (name, all))),
        (λ h. rest.1 (one.1 (h.0, h.1.0), h.1.1)),
      )

  oqueue_field_names-errors :
      (errors : List CompileError) (traits : List (List (Segment Tok)))
      → ((oqueue_field_names errors traits).1 ≡ []) ↔ ((errors ≡ []) × All HasName traits)
  unfolding oqueue_field_names
  oqueue_field_names-errors errors [] = ((λ h. (h, tt)), (λ h. h.0))
  oqueue_field_names-errors errors (path ∷ traits) =
      let rest = oqueue_field_names-errors (make_oqueues_field_name errors path).1 traits in
      let one = step_errors errors path in
      (
        (λ h. let (e, all) = rest.0 h in let (before, name) = one.0 e in (before, (name, all))),
        (λ h. rest.1 (one.1 (h.0, h.1.0), h.1.1)),
      )

  server_fields-errors :
      (ident : String) (fields : Fields Tok) (errors : List CompileError)
      → ((Server.server_fields ident fields errors).1 ≡ [])
        ↔ ((errors ≡ []) × ((fs : List Tok) × (fields ≡ named fs)))
  unfolding Server.server_fields
  server_fields-errors ident (named fs) errors = ((λ h. (h, (fs, refl))), (λ h. h.0))
  server_fields-errors ident (other_fields t) errors =
      ((λ h. absurd (push-ne-nil errors unnamed_fields h)), (λ h. absurd (let e = h.1.1 in cc)))

  -- The fields that `new_with` initializes are those that the internal struct declares for the
  -- traits, in the same order. The expansion has no error exactly if every path has a last name and the
  -- server's fields are named.
  pub orpc_server_macro_impl-fields :
      (traits : List (List (Segment Tok))) (input : ItemStruct Tok)
      → (names (orpc_server_macro_impl traits input).oqueue_fields
          ≡ (orpc_server_macro_impl traits input).oqueue_field_names)
        × (((orpc_server_macro_impl traits input).errors ≡ [])
            ↔ (All HasName traits × ((fs : List Tok) × (input.fields ≡ named fs))))
  unfolding orpc_server_macro_impl
  orpc_server_macro_impl-fields traits input =
      let (only, enough) = oqueue_field_names-errors (oqueue_fields [] traits).1 traits in
      let all = oqueue_fields-errors [] traits in
      let fields = server_fields-errors (concat input.ident "ORPCInternal") input.fields _ in
      (
        oqueue_fields-names [] (oqueue_fields [] traits).1 traits,
        (
          (λ h. let (e, fs) = fields.0 h in ((only e).1, fs)),
          (λ h. fields.1 (enough (all.1 (refl, h.0), h.0), h.1)),
        ),
      )

  -- For every trait with a name the internal struct has a field, of the type of its queues.
  pub internal_field :
      (traits : List (List (Segment Tok))) (input : ItemStruct Tok) (path : List (Segment Tok))
      (s : Segment Tok)
      → last path ≡ some s
      → In path traits
      → In
          (concat s.ident "_oqueues", oqueues_path path)
          (orpc_server_macro_impl traits input).oqueue_fields
  unfolding orpc_server_macro_impl
  internal_field traits input path s e h = oqueue_fields-In [] traits path s e h
