-- ===== src/Introspection.antt =====
-- tools/introspection.py: the version and the inventory of the tools, as EMMA reports them.
-- The gate and the tools are functions of a world `W`, as in the router.
use emma.Common.{
  ◌&&◌, ℕ, ◌==◌, Bool, true, false, not, Option, none, some, List, [], ◌∷◌, ◌++◌, Text, lit,
  newline, join, decimal, length, map, select, mem_text, is_empty, Result, ok, err, Exc,
  if◌then◌else◌,
}
use emma.Llm.Json.{Json, null, bool, int, float, str, arr, obj, nil, cons, Fields, end, field, get}
use emma.Router.{Tool}
use emma.Router.Tools.{gate_answer}
pub mod Listing
mod Tests

-- `bool(value)`
unfoldable pub truthy : Json → Bool
truthy null = false
truthy (bool b) = b
truthy (int negative n) = not (n == 0)
truthy (float negative whole fraction) =
    not ((whole == 0) && is_empty (select (λ c. not (c == 48)) fraction))
truthy (str text) = not (is_empty text)
truthy (arr nil) = false
truthy (arr (cons item items)) = true
truthy (obj end) = false
truthy (obj (field key value fields)) = true

-- `bool(arguments.get("detailed", False))`
unfoldable pub wants_detail : Fields → Bool
unfolding truthy
wants_detail arguments = elim (get (lit "detailed") arguments) [
  | none ↦ false
  | some value ↦ truthy value
]

module _ {W : Type 0} where
  -- `ToolInventory._switched_off`
  unfoldable pub switched_off : Option (W → Result Exc (List Text) × W) → W → List Text × W
  switched_off none w = ([], w)
  switched_off (some disabled) w = gate_answer (disabled w)

  -- `label`
  unfoldable pub label : List Text → Tool W → Text
  label off tool = if mem_text tool.name off then tool.name ++ lit " (disattivato)" else tool.name

  -- `set & registered`: each name once, if the gate answers a set.
  unfoldable pub off_and_registered : List Text → List (Tool W) → List Text
  off_and_registered off tools = select (λ name. mem_text name (map (λ t. t.name) tools)) off

  unfoldable pub opening : List Text → List (Tool W) → Text
  opening off tools =
      (if length tools == 1
        then lit "Ho 1 strumento"
        else lit "Ho " ++ (decimal (length tools) ++ lit " strumenti"))
      ++ (if is_empty off
          then []
          else lit ", di cui " ++ (decimal (length off) ++ lit " disattivati"))

  unfoldable pub detail_line : List Text → Tool W → Text
  unfolding label
  detail_line off tool = lit "- " ++ (label off tool ++ (lit ": " ++ tool.description))

  -- The text of the listing.
  unfoldable pub listing : Bool → List Text → List (Tool W) → Text
  unfolding label opening detail_line
  listing detailed off tools =
      if detailed
      then join newline ((opening off tools ++ lit ":") ∷ map (detail_line off) tools)
      else opening off tools ++ (lit ": " ++ (join (lit ", ") (map (label off) tools) ++ lit "."))

  -- `ToolInventory.run`
  unfoldable pub run_inventory :
      Option (W → Result Exc (List Text) × W) → List (Tool W) → Fields → W → Result Exc Text × W
  unfolding switched_off off_and_registered listing wants_detail
  run_inventory gate [] arguments w =
      (ok (lit "Non lo so: l'elenco degli strumenti non mi e' stato passato."), w)
  run_inventory gate (t ∷ ts) arguments w =
      let (off, w') = switched_off gate w in
      (ok (listing (wants_detail arguments) (off_and_registered off (t ∷ ts)) (t ∷ ts)), w')
