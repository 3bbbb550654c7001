-- ===== src/Store/Values.antt =====
-- The JSON values that rows and commands carry in their dictionaries (`dict[str, Any]`), as far as
-- app/stores and app/workers read them.
use trustguard_rag.Prelude.{
  Bool, true, false, Option, none, some, List, [], ◌∷◌, String, str_eq, if◌then◌else◌,
}

-- `other` is a number, a list or a dict, with its truth value and its `str()`.
pub data Value : Type 0 where
  null : Value
  flag : Bool → Value
  text : String → Value
  other : Bool → String → Value

abbrev pub Dict : Type 0
Dict = List (String × Value)

-- `bool(value)`.
abbrev pub truthy : Value → Bool
truthy null = false
truthy (flag b) = b
truthy (text s) = if str_eq s "" then false else true
truthy (other b s) = b

-- `str(value)`.
abbrev pub str : Value → String
str null = "None"
str (flag b) = if b then "True" else "False"
str (text s) = s
str (other b s) = s

-- `d.get(key)`.
unfoldable pub get : String → Dict → Value
get k [] = null
get k ((j, v) ∷ d) = if str_eq j k then v else get k d

-- `d[key] = value`.
unfoldable pub put : String → Value → Dict → Dict
put k v [] = (k, v) ∷ []
put k v ((j, w) ∷ d) = if str_eq j k then (j, v) ∷ d else (j, w) ∷ put k v d

-- `options or {}`.
abbrev pub or_empty : Option Dict → Dict
or_empty none = []
or_empty (some d) = d

-- `value or default` read as a text.
abbrev pub str_or : Value → String → String
str_or v d = if truthy v then str v else d

-- A nullable column set to `value`.
abbrev pub to_column : Value → Option String
to_column null = none
to_column v = some (str v)
