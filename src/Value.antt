-- ===== src/Value.antt =====
-- The values of a message payload: what `umsgpack` unpacks (saltyrtc/server/typing2.py, `Payload`).
use Prim.Native.Char.{code}
use Prim.Native.String.{String}
use saltyrtc_server_python.Prelude.{
  ℕ, ℤ, pos, Bool, true, false, Option, none, some, List, [], ◌∷◌, Bytes, bytes_eq, if◌then◌else◌,
}

-- A text is the list of its code points.
abbrev pub Text : Type 0
Text = List ℕ

abbrev pub text : String → Text
text String.[] = []
text (String.◌∷◌ c s) = code c ∷ text s

-- A float is either equal to an integer, as `3001.0` is, or not.
mutual
  pub data Value : Type 0 where
    nil : Value
    bool : Bool → Value
    int : ℤ → Value
    float_of : ℤ → Value
    float_other : ℕ → Value
    str : Text → Value
    bin : Bytes → Value
    arr : Items → Value
    dict : Fields → Value
    ext : ℕ → Bytes → Value

  pub data Items : Type 0 where
    empty : Items
    item : Value → Items → Items

  pub data Fields : Type 0 where
    end : Fields
    field : Value → Value → Fields → Fields

abbrev pub is_key : Text → Value → Bool
is_key k (str t) = bytes_eq k t
is_key k _ = false

-- `payload.get(key)` at a text key; `None` stands for a missing key and for the value `None`.
unfoldable pub get : Text → Fields → Value
get k end = nil
get k (field j v rest) = if is_key k j then v else get k rest

-- `isinstance(value, int)`, with the value: a `bool` is an `int` in Python.
abbrev pub as_int : Value → Option ℤ
as_int (int z) = some z
as_int (bool true) = some (pos 1)
as_int (bool false) = some (pos 0)
as_int _ = none

-- The integer that a value is equal to under `==`.
abbrev pub numeric : Value → Option ℤ
numeric (float_of z) = some z
numeric v = as_int v

abbrev pub as_bytes : Value → Option Bytes
as_bytes (bin b) = some b
as_bytes _ = none

abbrev pub is_str : Value → Bool
is_str (str t) = true
is_str _ = false
