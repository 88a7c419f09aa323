-- ===== src/Pipeline/Updating.antt =====
-- When `updateObject` writes, and what becomes of a conflict.
use lieutenant_operator.Prelude.{
  ◌≡◌, true, false, not, ◌&&◌, none, some, arith, if◌then◌else◌, contains,
}
use lieutenant_operator.Errors.{Error, is_conflict}
use lieutenant_operator.Api.Object.{Object, get_status, get_meta, set_finalizers}
use lieutenant_operator.Kube.{Client, Library, Resource}
use lieutenant_operator.Pipeline.{Result, continue, State, run_pipeline, stops, stopped}
use lieutenant_operator.Pipeline.Steps.{
  handle_deletion, add_deletion_protection, handle_finalizer, spec_and_meta_equal, is_protected,
  update_object, common, common_steps,
}
use lieutenant_operator.Pipeline.Running.{requeue_needs_abort}

-- The state in which `updateObject` is reached, of an object that is not deleted.
unfoldable pub before_update : {W : Type 0} → Library → State W → State W
before_update lib s = (handle_finalizer lib (add_deletion_protection s).1).1

-- The same, of an object that is deleted and may be released: without the finalizer.
unfoldable pub release : {W : Type 0} → Library → State W → State W
release lib s = record s {
  obj =
      set_finalizers (lib.remove_finalizer (get_meta s.obj).finalizers s.ctx.finalizer_name).0
        s.obj;
}

module _ {W : Type 0} where
  handle_deletion_live : (s : State W) → s.ctx.deleted ≡ false → handle_deletion s ≡ (continue, s)
  unfolding handle_deletion
  handle_deletion_live s d = ground arith

  add_deletion_protection_passes : (s : State W) → (add_deletion_protection s).0 ≡ continue
  unfolding add_deletion_protection
  add_deletion_protection_passes s = ground arith

  handle_finalizer_passes : (lib : Library) (s : State W) → (handle_finalizer lib s).0 ≡ continue
  unfolding handle_finalizer
  handle_finalizer_passes lib s = ground arith

module _ {W : Type 0} (lib : Library) (cli : Client W) where
  -- The step writes to the world alone.
  pub obj-update_object : (s : State W) → (update_object lib cli s).1.obj ≡ s.obj
  unfolding update_object
  obj-update_object s = ground arith

  abort-update_object :
      (s : State W)
      → (update_object lib cli s).0.abort ≡ true
      → (update_object lib cli s).0.requeue ≡ false
  unfolding update_object
  abort-update_object s h = ground arith

  -- Whatever the object, the context and the answers of the server, `Common` never asks for a
  -- requeue, though `updateObject` does so on a conflict.
  pub common_never_requeues : (s : State W) → (common lib cli s).0.requeue ≡ false
  unfolding common handle_deletion add_deletion_protection handle_finalizer
  common_never_requeues s = requeue_needs_abort (common_steps lib cli) s (
    (λ t h. ground arith),
    ((λ t h. ground arith), ((λ t h. ground arith), ((λ t h. abort-update_object t h), tt))),
  )

  -- How the last step's result becomes that of `Common`.
  abbrev pub finish : Result × State W → Result × State W
  finish (r, t) = if stops r then (stopped "update object" r, t) else (continue, t)

  -- `Common` on an object that is not deleted.
  pub common_live :
      (s : State W)
      → s.ctx.deleted ≡ false
      → common lib cli s ≡ finish (update_object lib cli (before_update lib s))
  unfolding before_update common run_pipeline
  common_live s d = rw (
    handle_deletion_live s d,
    add_deletion_protection_passes s,
    handle_finalizer_passes lib (add_deletion_protection s).1,
  )

  -- `Common` on an object that is deleted and that may be released.
  pub common_released :
      (s : State W)
      → s.ctx.deleted ≡ true
      → contains s.ctx.finalizer_name (get_meta s.obj).finalizers
          && not (is_protected (get_meta s.obj).annotations)
        ≡ true
      → common lib cli s ≡ finish (update_object lib cli (release lib s))
  unfolding release common run_pipeline handle_deletion add_deletion_protection handle_finalizer
  common_released s d c = ground arith

  update_object_conflict :
      (t : State W) {original : Object} {e : Error} {w : W}
      → t.ctx.original_object ≡ some original
      → spec_and_meta_equal lib t.obj original ≡ false
      → cli.update (Resource.custom t.obj) t.world ≡ (some e, w)
      → is_conflict e ≡ true
      → update_object lib cli t
        ≡ (record { abort = false; err = none; requeue = true }, record t { world = w })
  unfolding update_object
  update_object_conflict t o ne u c = ground arith

  -- A conflict of the first write, of the metadata and the spec, ends `Common` like a success: no
  -- error, no requeue, and the status is not written.
  pub common_conflict :
      (s : State W) {original : Object} {e : Error} {w : W}
      → s.ctx.deleted ≡ false
      → (before_update lib s).ctx.original_object ≡ some original
      → spec_and_meta_equal lib (before_update lib s).obj original ≡ false
      → cli.update (Resource.custom (before_update lib s).obj) (before_update lib s).world
        ≡ (some e, w)
      → is_conflict e ≡ true
      → common lib cli s ≡ (continue, record (before_update lib s) { world = w })
  common_conflict s d o ne u c =
      rw (common_live s d, update_object_conflict (before_update lib s) o ne u c)

  -- Where the object is as it was read, the step aborts and writes nothing.
  pub update_object_unchanged :
      (s : State W) {original : Object}
      → s.ctx.original_object ≡ some original
      → spec_and_meta_equal lib s.obj original ≡ true
      → lib.status_equal (get_status original) (get_status s.obj) ≡ true
      → update_object lib cli s ≡ (record { abort = true; err = none; requeue = false }, s)
  unfolding update_object
  update_object_unchanged s o a b = ground arith
