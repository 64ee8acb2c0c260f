-- ===== src/Local/Tests.antt =====
-- Runs of a Local, and its theorems at concrete inputs.
use asgire.Prelude.{
  ℕ, List, [], ◌∷◌, Bool, true, false, none, some, ◌≡◌, refl, ◌=ℕ◌, list_eq, nat_eq, =ℕ_iff, arith,
  ap,
}
use asgire.Prelude.Dict.{get, insert, remove, IsDict}
use asgire.Text.{str}
use asgire.Local.{
  Storage, CValue, pair, object, Context, restore_context, owned, getattr, setattr, delattr,
  is_reserved,
}
use asgire.Local.Namespace.{
  Op, gets, sets, deletes, value, attribute_error, object_changed, done, access, replies, answers,
  visible, replies-eq-answers, replies-inherited,
}
use asgire.Local.Critical
use asgire.Local.Critical.{
  Answer, on_object, critical_access, async_access, cvar_access, ensure_cvar, writes_reserved,
}
use asgire.Local.Tasks.{
  Event, does, spawns, task_answers, space_answers, fresh_thread, task_answers-eq-space_answers,
}
use asgire.Local.Shadow.{cvar_shadowed}
use asgire.Local.Restored.{storage_of, replies-restore_context}

abbrev data_of_7 : Storage ℕ
data_of_7 = record { thread_id = 7; storage_data = (str "a", 1) ∷ [] }

abbrev ops : List (Op ℕ)
ops =
    gets (str "a")
    ∷ sets (str "b") 2
    ∷ deletes (str "a")
    ∷ gets (str "a")
    ∷ sets (str "_cvar") 3
    ∷ gets (str "b")
    ∷ []

own_replies :
    replies 7 ops (some data_of_7) ≡ value 1 ∷ done ∷ done ∷ attribute_error ∷ object_changed ∷ []
unfolding replies access owned getattr setattr delattr is_reserved get insert remove
own_replies = refl

inherited_replies :
    replies 8 ops (some data_of_7)
    ≡ attribute_error ∷ done ∷ attribute_error ∷ attribute_error ∷ object_changed ∷ []
unfolding replies access owned getattr setattr delattr is_reserved get insert remove
inherited_replies = refl

own_IsDict : IsDict (owned 7 (some data_of_7))
unfolding owned
own_IsDict = (tt, tt)

replies-eq-answers_example :
    replies 7 ops (some data_of_7) ≡ answers ops (visible 7 (some data_of_7))
replies-eq-answers_example = replies-eq-answers 7 ops (some data_of_7) own_IsDict

replies-inherited_example : replies 8 ops (some data_of_7) ≡ replies 8 ops none
replies-inherited_example = replies-inherited 8 ops data_of_7 (omega arith)

-- Objects are equal if they are the same, and tuples are never held to be.
abbrev same : CValue ℕ → CValue ℕ → Bool
same (object x) (object y) = x =ℕ y
same _ _ = false

same_sound : (v w : CValue ℕ) → same v w ≡ true → v ≡ w
same_sound (object x) (object y) h = ap (λ (n : ℕ). object n) ((=ℕ_iff x y).0 h)
same_sound (object x) (pair t) h = cc
same_sound (pair s) (object y) h = cc
same_sound (pair s) (pair t) h = cc

abbrev is_local : ℕ → Bool
is_local c = c =ℕ 1

abbrev context : Context ℕ
context = (1, pair data_of_7) ∷ (2, object 5) ∷ []

abbrev current : Context ℕ
current = (3, object 6) ∷ (2, object 4) ∷ []

context-IsDict : IsDict context
context-IsDict = ((omega arith, tt), (tt, tt))

context_has : get 1 context ≡ some (pair data_of_7)
unfolding get
context_has = refl

replies-restore_context_example :
    replies 8 ops (storage_of (get 1 (restore_context is_local same 8 context current)))
    ≡ replies 7 ops (some data_of_7)
replies-restore_context_example =
    replies-restore_context is_local same same_sound 8 1 context current data_of_7 ops
      context-IsDict (tt, tt) refl context_has

-- Task 1 writes, makes task 2 and deletes; task 2 still reads what it inherited.
abbrev events : List (Event ℕ)
events =
    does 1 (sets (str "a") 5)
    ∷ spawns 1 2
    ∷ does 1 (deletes (str "a"))
    ∷ does 1 (gets (str "a"))
    ∷ does 2 (gets (str "a"))
    ∷ does 3 (gets (str "a"))
    ∷ []

events_run :
    task_answers events fresh_thread (λ t n. none)
    ≡ Critical.done
      ∷ Critical.done
      ∷ Critical.attribute_error
      ∷ Critical.value 5
      ∷ Critical.attribute_error
      ∷ []
unfolding task_answers critical_access async_access cvar_access ensure_cvar writes_reserved
    is_reserved get insert remove
events_run = refl

task_answers-eq-space_answers_example :
    task_answers events fresh_thread (λ t n. none) ≡ space_answers events (λ t key. none)
task_answers-eq-space_answers_example =
    task_answers-eq-space_answers events (refl, (tt, (tt, (refl, (refl, (refl, tt))))))

abbrev read_a : Op ℕ
read_a = gets (str "a")

abbrev write_cvar : Op ℕ
write_cvar = sets (str "cvar") 8

reads_a : writes_reserved read_a ≡ false
unfolding writes_reserved
reads_a = refl

cvar_shadowed_example :
    (critical_access true read_a
      (critical_access false write_cvar fresh_thread (λ n. none)).1.0
      (λ n. none)).0
    ≡ on_object 8
cvar_shadowed_example = cvar_shadowed 8 read_a fresh_thread (λ n. none) (λ n. none) reads_a
