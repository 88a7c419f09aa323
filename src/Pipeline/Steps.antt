-- ===== src/Pipeline/Steps.antt =====
-- pipeline/steps.go and `Common` of pipeline/pipeline.go.
use lieutenant_operator.Prelude.{
  String, Bool, true, false, not, ◌&&◌, Option, none, some, List, [], ◌∷◌, ◌==◌, Dict, lookup,
  insert, value_of, contains, if◌then◌else◌,
}
use lieutenant_operator.Errors.{Error, msg, wrap, panicked, is_conflict}
use lieutenant_operator.Api.Meta.{is_zero, label_name_tenant, delete_protection_annotation}
use lieutenant_operator.Api.Object.{
  Object, get_meta, set_labels, set_annotations, set_finalizers, get_tenant_ref, get_spec,
  get_status,
}
use lieutenant_operator.Kube.{Client, Library, Resource}
use lieutenant_operator.Pipeline.{Result, continue, fail, State, Function, Step, run_pipeline}

-- `strconv.ParseBool`
unfoldable pub parse_bool : String → Option Bool
parse_bool s =
    if contains s ("1" ∷ "t" ∷ "T" ∷ "TRUE" ∷ "true" ∷ "True" ∷ [])
    then some true
    else if contains s ("0" ∷ "f" ∷ "F" ∷ "FALSE" ∷ "false" ∷ "False" ∷ [])
    then some false
    else none

-- `protected` of `handleDeletion`: what cannot be parsed protects.
unfoldable pub is_protected : Dict String → Bool
is_protected annotations = elim (lookup delete_protection_annotation annotations) [
  | none ↦ false
  | some value ↦ elim (parse_bool value) [ none ↦ true | some b ↦ b ]
]

-- The annotations with the protection, if there is none yet.
unfoldable pub protect : Dict String → Dict String
protect annotations = elim (lookup delete_protection_annotation annotations) [
  | none ↦ insert delete_protection_annotation "true" annotations
  | some _ ↦ annotations
]

-- The labels with the name of the tenant.
unfoldable pub with_tenant : String → Dict String → Dict String
with_tenant name labels =
    if value_of label_name_tenant labels == name
    then labels
    else insert label_name_tenant name labels

module _ {W : Type 0} where
  unfoldable pub add_deletion_protection : Function W
  add_deletion_protection s =
      if s.ctx.deleted
      then (continue, s)
      else if s.ctx.use_deletion_protection
      then (
        continue,
        record s { obj = set_annotations (protect (get_meta s.obj).annotations) s.obj },
      )
      else (continue, s)

  unfoldable pub add_tenant_label : Function W
  add_tenant_label s = (
    continue,
    record s {
      obj = set_labels (with_tenant (get_tenant_ref s.obj) (get_meta s.obj).labels) s.obj;
    },
  )

  unfoldable pub handle_deletion : Function W
  handle_deletion s =
      if not s.ctx.deleted
      then (continue, s)
      else if contains s.ctx.finalizer_name (get_meta s.obj).finalizers
          && not (is_protected (get_meta s.obj).annotations)
      then (continue, s)
      else (fail (msg "finalzier was not removed"), s)

  unfoldable pub check_if_deleted : Function W
  check_if_deleted s =
      if is_zero (get_meta s.obj).deletion_timestamp
      then (continue, s)
      else (continue, record s { ctx = record (s.ctx) { deleted = true } })

  -- A copy of the object: values are copied anyway.
  unfoldable pub deep_copy_original : Function W
  deep_copy_original s =
      (continue, record s { ctx = record (s.ctx) { original_object = some s.obj } })

unfoldable pub spec_and_meta_equal : Library → Object → Object → Bool
spec_and_meta_equal lib a b =
    if not (lib.meta_equal (get_meta a) (get_meta b))
    then false
    else if not (lib.spec_equal (get_spec a) (get_spec b))
    then false
    else true

-- A failed write: a conflict asks for another run, without an abort.
abbrev pub write_failed : String → Error → Result
write_failed what e =
    if is_conflict e
    then record { abort = false; err = none; requeue = true }
    else fail (wrap what e)

module _ {W : Type 0} (lib : Library) where
  unfoldable pub handle_finalizer : Function W
  handle_finalizer s =
      let f = s.ctx.finalizer_name in
      let l = (get_meta s.obj).finalizers in
      if not (f == "") && not s.ctx.deleted
      then (continue, record s { obj = set_finalizers (lib.add_finalizer l f).0 s.obj })
      else (continue, record s { obj = set_finalizers (lib.remove_finalizer l f).0 s.obj })

  module _ (cli : Client W) where
    update_status_of : Object → State W → Result × State W
    update_status_of original s =
        if not (lib.status_equal (get_status original) (get_status s.obj))
        then (let (e, _, w) = cli.update_status s.obj s.world in
            elim e [
              | some e' ↦ (write_failed "update status" e', record s { world = w })
              | none ↦
                  (record { abort = true; err = none; requeue = false }, record s { world = w })
            ])
        else (record { abort = true; err = none; requeue = false }, s)

    update_from : Object → State W → Result × State W
    unfolding update_status_of
    update_from original s =
        if not (spec_and_meta_equal lib s.obj original)
        then (let (e, w) = cli.update (Resource.custom s.obj) s.world in
            elim e [
              | some e' ↦ (write_failed "update" e', record s { world = w })
              | none ↦ update_status_of original (record s { world = w })
            ])
        else update_status_of original s

    -- Without `deep_copy_original` before it, the original object is nil and the step panics.
    unfoldable pub update_object : Function W
    unfolding update_from
    update_object s = elim s.ctx.original_object [
      | none ↦ (fail panicked, s)
      | some original ↦ update_from original s
    ]

    abbrev pub common_steps : List (Step W)
    common_steps =
        record { name = "deletion"; f = handle_deletion }
        ∷ record { name = "add deletion protection"; f = add_deletion_protection }
        ∷ record { name = "handle finalizer"; f = handle_finalizer }
        ∷ record { name = "update object"; f = update_object }
        ∷ []

    unfoldable pub common : Function W
    common = run_pipeline common_steps
