-- ===== src/Worker/Protocol.antt =====
-- internal/worker/protocol.go: the messages between Go and a Python worker. A field that the JSON
-- form may leave out has its zero value.
use chrysalis.Base.{Bool, false, List, [], Option, none, Text, codes, Result}
use chrysalis.Base.Int.{ℤ, pos}
use chrysalis.Wire.{Bytes}

-- A value of the type `interface{}`, as package encoding/json fills it.
mutual
  pub data Json : Type 0 where
    null : Json
    bool : Bool → Json
    number : Text → Json
    string : Text → Json
    array : Elements → Json
    object : Fields → Json

  pub data Elements : Type 0 where
    no_elements : Elements
    element : Json → Elements → Elements

  pub data Fields : Type 0 where
    no_fields : Fields
    field : Text → Json → Fields → Fields

-- An argument or a return value. `kind` is the field Type.
pub record Arg : Type 0 where
  pub kind : Text
  pub value : Json
  pub shm_handle : ℤ
  pub shape : List ℤ
  pub dtype : Text
  pub cb_id : ℤ
  pub b64 : Text

abbrev pub kind_scalar : Text
kind_scalar = codes "scalar"

abbrev pub kind_list : Text
kind_list = codes "list"

abbrev pub kind_dict : Text
kind_dict = codes "dict"

abbrev pub kind_ndarray : Text
kind_ndarray = codes "ndarray"

abbrev pub kind_callback : Text
kind_callback = codes "callback"

-- The zero value of Arg, from which the code's literals start.
abbrev pub no_arg : Arg
no_arg = record {
  kind = [];
  value = null;
  shm_handle = pos 0;
  shape = [];
  dtype = [];
  cb_id = pos 0;
  b64 = [];
}

pub record Message : Type 0 where
  pub id : Text
  pub type : Text
  pub func : Text
  pub target : Text
  pub args : List Arg
  pub kwargs : List (Text × Arg)
  pub value : Option Arg
  pub is_module : Bool
  pub is_callable : Bool
  pub error : Text
  pub message : Text
  pub cb_id : ℤ

abbrev pub no_message : Message
no_message = record {
  id = [];
  type = [];
  func = [];
  target = [];
  args = [];
  kwargs = [];
  value = none;
  is_module = false;
  is_callable = false;
  error = [];
  message = [];
  cb_id = pos 0;
}

-- Marshal and Unmarshal of package encoding/json at the type Message.
pub record Codec : Type 0 where
  pub marshal : Message → Result Text Bytes
  pub unmarshal : Bytes → Result Text Message
