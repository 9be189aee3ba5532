-- ===== src/Json.antt =====
-- JSON values as Python reads them from a `jsonb` column, and the lookup `value.get(key)`.
use text.Mathlib.Text.{◌==◌}
use vvz_doc_store.Prelude.{ℕ, String, Bool, Option, none, some, if◌then◌else◌}
use vvz_doc_store.Text.{Text}

-- `num` is a number that equals a natural one; `other_num` is any other number.
mutual
  pub data Json : Type 0 where
    null : Json
    boolean : Bool → Json
    num : ℕ → Json
    other_num : Json
    str : Text → Json
    arr : Items → Json
    obj : Fields → Json

  pub data Items : Type 0 where
    nil : Items
    cons : Json → Items → Items

  pub data Fields : Type 0 where
    no_fields : Fields
    field : String → Json → Fields → Fields

abbrev pub get : String → Fields → Option Json
get k no_fields = none
get k (field j v fs) = if k == j then some v else get k fs

-- `d[k] = v`
abbrev pub put : String → Json → Fields → Fields
put k v no_fields = field k v no_fields
put k v (field j w fs) = if k == j then field j v fs else field j w (put k v fs)
