-- ===== src/Llm/Json.antt =====
-- The values of a dynamic language that travel in tool arguments: what json.loads returns.
use emma.Common.{
  ℕ, Bool, true, false, Option, none, some, ◌++◌, Text, text_eq, lit, decimal, if◌then◌else◌,
}

-- A float is its sign, its integer part (what `int` keeps) and the digits behind the point.
mutual
  pub data Json : Type 0 where
    null : Json
    bool : Bool → Json
    int : (negative : Bool) → ℕ → Json
    float : (negative : Bool) → (whole : ℕ) → (fraction : Text) → Json
    str : Text → Json
    arr : Items → Json
    obj : Fields → Json

  pub data Items : Type 0 where
    nil : Items
    cons : Json → Items → Items

  pub data Fields : Type 0 where
    end : Fields
    field : Text → Json → Fields → Fields

-- `d.get(key)`. Keys are distinct in a dictionary, so the first is the one.
unfoldable pub get : Text → Fields → Option Json
get key end = none
get key (field k v fs) = if text_eq k key then some v else get key fs

-- `str(value)`; `show` is Python's print of a list or a dict.
unfoldable pub str_of : (Json → Text) → Json → Text
str_of show null = lit "None"
str_of show (bool true) = lit "True"
str_of show (bool false) = lit "False"
str_of show (int negative n) = if negative then lit "-" ++ decimal n else decimal n
str_of show (float negative whole fraction) =
    let digits = decimal whole ++ (lit "." ++ fraction) in
    if negative then lit "-" ++ digits else digits
str_of show (str text) = text
str_of show (arr items) = show (arr items)
str_of show (obj fields) = show (obj fields)
