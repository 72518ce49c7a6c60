-- ===== src/Kanal/Json.antt =====
-- JSON values as Python's `json` hands them to core/turkish_code/kanal: a dict has each key once;
-- `null` is None. A number that is no integer is not modelled.
use turkish_code.Base.{ℕ, String, Bool, Option, none, some, if◌then◌else◌, str_eq}

mutual
  pub data Json : Type 0 where
    null : Json
    boolean : Bool → Json
    natural negative : ℕ → Json
    text : String → Json
    array : Items → Json
    object : Fields → Json

  pub data Items : Type 0 where
    no_items : Items
    item : Json → Items → Items

  pub data Fields : Type 0 where
    no_fields : Fields
    field : String → Json → Fields → Fields

-- `data.get(k)` before its default, None, is put in.
unfoldable pub find : String → Fields → Option Json
find k no_fields = none
find k (field j v fs) = if str_eq j k then some v else find k fs

abbrev pub or_null : Option Json → Json
or_null none = null
or_null (some v) = v

unfoldable pub get : String → Fields → Json
get k fs = or_null (find k fs)

-- A dict display that has the key only if the value is not None.
abbrev pub field_if : String → Json → Fields → Fields
field_if k null fs = fs
field_if k v fs = field k v fs
