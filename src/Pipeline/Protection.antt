-- ===== src/Pipeline/Protection.antt =====
-- Finalizers and the deletion protection, through `Common`.
use lieutenant_operator.Prelude.{
  String, ◌≡◌, refl, sym, ◌∙◌, true, false, not, ◌&&◌, some, List, [], ◌∷◌, arith, Dict, lookup,
  lookup-insert, contains, if◌then◌else◌, ◌==◌, eq_iff, eq_refl, Bool-cases, inl, inr, is_some,
}
use lieutenant_operator.Errors.{msg, wrap}
use lieutenant_operator.Api.Meta.{delete_protection_annotation}
use lieutenant_operator.Api.Object.{Object, cluster, get_meta, set_annotations, set_finalizers}
use lieutenant_operator.Kube.{Client, Library, FinalizerLaws}
use lieutenant_operator.Pipeline.{fail, State, run_pipeline}
use lieutenant_operator.Pipeline.Steps.{
  parse_bool, is_protected, protect, add_deletion_protection, handle_deletion, handle_finalizer,
  update_object, common,
}
use lieutenant_operator.Pipeline.Updating.{
  obj-update_object, finish, before_update, release, common_live, common_released,
}

-- The protection leaves every other annotation, and a value that is there already.
pub lookup-protect :
    (k : String) (a : Dict String)
    → lookup k (protect a) ≡ (
        if (delete_protection_annotation == k) && not (is_some (lookup k a))
        then some "true"
        else lookup k a)
unfolding protect
lookup-protect k a = ground (
  arith,
  eq_iff delete_protection_annotation k,
  lookup-insert delete_protection_annotation k "true" a,
)

-- What does not protect is one of the words for false: any other value does.
pub unprotected_value :
    (a : Dict String) (v : String)
    → lookup delete_protection_annotation a ≡ some v
    → is_protected a ≡ false
    → contains v ("0" ∷ "f" ∷ "F" ∷ "FALSE" ∷ "false" ∷ "False" ∷ []) ≡ true
unfolding is_protected parse_bool
unprotected_value a v h p = ground arith

pub get_meta-set_finalizers :
    (o : Object) (l : List String) → (get_meta (set_finalizers l o)).finalizers ≡ l
get_meta-set_finalizers (cluster c) l = refl
get_meta-set_finalizers _ l = refl

get_meta-set_annotations :
    (o : Object) (a : Dict String)
    → (get_meta (set_annotations a o)) ≡ record (get_meta o) { annotations = a }
get_meta-set_annotations (cluster c) l = refl
get_meta-set_annotations _ l = refl

annotations-set_finalizers :
    (o : Object) (l : List String)
    → (get_meta (set_finalizers l o)).annotations ≡ (get_meta o).annotations
annotations-set_finalizers (cluster c) l = refl
annotations-set_finalizers _ l = refl

module _ {W : Type 0} where
  pub ctx-add_deletion_protection : (s : State W) → (add_deletion_protection s).1.ctx ≡ s.ctx
  unfolding add_deletion_protection
  ctx-add_deletion_protection s = ground arith

  pub finalizers-add_deletion_protection :
      (s : State W)
      → (get_meta (add_deletion_protection s).1.obj).finalizers ≡ (get_meta s.obj).finalizers
  unfolding add_deletion_protection
  finalizers-add_deletion_protection s =
      ground (arith, get_meta-set_annotations s.obj (protect (get_meta s.obj).annotations))

  annotations-add_deletion_protection :
      (s : State W)
      → s.ctx.deleted ≡ false
      → s.ctx.use_deletion_protection ≡ true
      → (get_meta (add_deletion_protection s).1.obj).annotations
        ≡ protect (get_meta s.obj).annotations
  unfolding add_deletion_protection
  annotations-add_deletion_protection s d u = rw (d, u) (rw (get_meta-set_annotations s.obj) refl)

  obj-handle_finalizer :
      (lib : Library) (s : State W)
      → s.ctx.deleted ≡ false
      → (s.ctx.finalizer_name == "") ≡ false
      → (handle_finalizer lib s).1.obj
        ≡ set_finalizers
            (lib.add_finalizer (get_meta s.obj).finalizers s.ctx.finalizer_name).0
            s.obj
  unfolding handle_finalizer
  obj-handle_finalizer lib s d n = rw (d, n)

  annotations-handle_finalizer :
      (lib : Library) (s : State W)
      → (get_meta (handle_finalizer lib s).1.obj).annotations ≡ (get_meta s.obj).annotations
  unfolding handle_finalizer
  annotations-handle_finalizer lib s = ground (
    arith,
    annotations-set_finalizers s.obj
        (lib.add_finalizer (get_meta s.obj).finalizers s.ctx.finalizer_name).0,
    annotations-set_finalizers s.obj
        (lib.remove_finalizer (get_meta s.obj).finalizers s.ctx.finalizer_name).0,
  )

module _ {W : Type 0} (lib : Library) (cli : Client W) where
  -- While a deleted object is protected, `Common` fails and changes nothing, neither the object nor
  -- the world.
  pub common_protected :
      (s : State W)
      → s.ctx.deleted ≡ true
      → is_protected (get_meta s.obj).annotations ≡ true
      → common lib cli s ≡ (fail (wrap "step deletion failed" (msg "finalzier was not removed")), s)
  unfolding common run_pipeline handle_deletion
  common_protected s d p = ground arith

  pub obj-finish : (t : State W) → (finish lib cli (update_object lib cli t)).1.obj ≡ t.obj
  obj-finish t = ground (arith, obj-update_object lib cli t)

  -- Given what the finalizer functions document, for a deleted object that holds the finalizer `Common`
  -- keeps the finalizer exactly while the object is protected.
  pub finalizer-common_deleted :
      FinalizerLaws lib
      → (s : State W) → s.ctx.deleted ≡ true
      → contains s.ctx.finalizer_name (get_meta s.obj).finalizers ≡ true
      → contains s.ctx.finalizer_name (get_meta (common lib cli s).1.obj).finalizers
        ≡ is_protected (get_meta s.obj).annotations
  unfolding release
  finalizer-common_deleted laws s d c =
      elim (Bool-cases (is_protected (get_meta s.obj).annotations)) [
        | inl p ↦ rw (common_protected s d p) (c ∙ sym p)
        | inr p ↦
            rw
              (
                common_released lib cli s d (ground arith),
                obj-finish (release lib s),
                get_meta-set_finalizers s.obj,
                laws.contains-remove s.ctx.finalizer_name s.ctx.finalizer_name,
                eq_refl,
              )
              (sym p)
      ]

  -- Given what the finalizer functions document, where a finalizer is asked for, `Common` on an object
  -- that is not deleted leaves it with that finalizer and with every other one that it had, and no more.
  pub finalizer-common_live :
      FinalizerLaws lib
      → (s : State W) (f : String) → s.ctx.deleted ≡ false
      → (s.ctx.finalizer_name == "") ≡ false
      → contains f (get_meta (common lib cli s).1.obj).finalizers
        ≡ (if s.ctx.finalizer_name == f then true else contains f (get_meta s.obj).finalizers)
  unfolding before_update
  finalizer-common_live laws s f d n =
      let t = (add_deletion_protection s).1 in
      let e : t.ctx ≡ s.ctx = ctx-add_deletion_protection s in
      rw (common_live lib cli s d, obj-finish (before_update lib s), before_update)
        (rw
          (
            obj-handle_finalizer lib t (rw e d) (rw e n),
            get_meta-set_finalizers t.obj,
            e,
            finalizers-add_deletion_protection s,
          )
          (laws.contains-add s.ctx.finalizer_name f (get_meta s.obj).finalizers))

  -- With the protection switched on, an object that is not deleted leaves `Common` with its own
  -- annotation, or with the value `true` where it had none.
  pub annotation-common_live :
      (s : State W) (k : String)
      → s.ctx.deleted ≡ false
      → s.ctx.use_deletion_protection ≡ true
      → lookup k (get_meta (common lib cli s).1.obj).annotations
        ≡ lookup k (protect (get_meta s.obj).annotations)
  unfolding before_update
  annotation-common_live s k d u = rw (
    common_live lib cli s d,
    obj-finish (before_update lib s),
    annotations-handle_finalizer lib (add_deletion_protection s).1,
    annotations-add_deletion_protection s d u,
  )
