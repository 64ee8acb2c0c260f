-- ===== src/Local/Shadow.antt =====
-- The name `cvar` of a thread-critical Local, under which `_thread_critical_storage` keeps its own
-- object.
use asgire.Prelude.{true, false, some, ◌≡◌, refl, list_eq}
use asgire.Prelude.Dict.{get, insert, get-insert}
use asgire.Text.{str}
use asgire.Local.{is_reserved}
use asgire.Local.Namespace.{Op, sets}
use asgire.Local.Critical.{
  plain, Thread, Variables, on_object, ensure_cvar_present, writes_reserved, async_access,
  sync_access, critical_access, critical_access_unreserved,
}

module _ {V : Type 0} where
  async_access_plain :
      (v : V) (op : Op V) (thread : Thread V) (vars : Variables V)
      → get (str "cvar") thread.attributes ≡ some (plain v)
      → (async_access op thread vars).0 ≡ on_object v
  unfolding async_access
  async_access_plain v op thread vars h = rw (ensure_cvar_present (plain v) thread h, h) refl

  after_write :
      (v : V) (thread : Thread V) (vars : Variables V)
      → (critical_access false (sets (str "cvar") v) thread vars).1.0
        ≡ record thread { attributes = insert (str "cvar") (plain v) thread.attributes }
  unfolding critical_access sync_access writes_reserved is_reserved
  after_write v thread vars = refl

  -- Where a thread without an event loop has written `v` to the name `cvar`, the next call of an
  -- accessor by the thread, where it is under an event loop and no write to a reserved name, is made
  -- on `v` itself.
  pub cvar_shadowed :
      (v : V) (op : Op V) (thread : Thread V) (vars vars' : Variables V)
      → writes_reserved op ≡ false
      → (critical_access true op
          (critical_access false (sets (str "cvar") v) thread vars).1.0
          vars').0
        ≡ on_object v
  cvar_shadowed v op thread vars vars' w =
      let attributes = insert (str "cvar") (plain v) thread.attributes in
      rw
        (
          after_write v thread vars,
          critical_access_unreserved op (record thread { attributes = attributes }) vars' w,
        )
        (async_access_plain v op (record thread { attributes = attributes }) vars'
          (get-insert (str "cvar") (str "cvar") (plain v) thread.attributes))
