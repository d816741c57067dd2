-- ===== src/Introspection/Tests.antt =====
-- The inventory of two tools, one of them switched off, with a name that is off and no longer registered.
use emma.Common.{
  ℕ, ◌+◌, ◌≡◌, refl, true, false, Option, none, some, List, [], ◌∷◌, Text, lit, ok, err, Result,
  Exc, All,
}
use emma.Llm.Json.{Fields, end, field, bool}
use emma.Router.{Tool}
use emma.Introspection.{run_inventory, switched_off, wants_detail}
use emma.Introspection.Listing.{Named, run_inventory_lem}

abbrev tool_named : Text → Tool ℕ
tool_named name = record {
  name = name;
  description = lit "d";
  input_schema = end;
  run = λ arguments w. (ok [], w);
}

abbrev gate : Option (ℕ → Result Exc (List Text) × ℕ)
gate = some (λ w. (ok (lit "b" ∷ lit "gone" ∷ []), w + 1))

abbrev two : List (Tool ℕ)
two = tool_named (lit "a") ∷ tool_named (lit "b") ∷ []

run_inventory_lem_example :
    (reply : Text) × (run_inventory gate two end 0 ≡ (ok reply, (switched_off gate 0).1))
    × All (Named (wants_detail end) (switched_off gate 0).0 reply) two
run_inventory_lem_example =
    run_inventory_lem gate (tool_named (lit "a")) (tool_named (lit "b") ∷ []) end 0

listed :
    run_inventory gate two end 0
    ≡ (ok (lit "Ho 2 strumenti, di cui 1 disattivati: a, b (disattivato)."), 1)
unfolding run_inventory switched_off emma.Introspection.off_and_registered
    emma.Introspection.listing emma.Introspection.label emma.Introspection.opening wants_detail
    emma.Llm.Json.get emma.Common.select emma.Common.mem_text emma.Common.text_eq emma.Common.join
    emma.Common.decimal lit
listed = refl

detailed :
    run_inventory none (tool_named (lit "a") ∷ []) (field (lit "detailed") (bool true) end) 0
    ≡ (ok (lit "Ho 1 strumento:\n- a: d"), 0)
unfolding run_inventory switched_off emma.Introspection.off_and_registered
    emma.Introspection.listing emma.Introspection.label emma.Introspection.opening
    emma.Introspection.detail_line wants_detail emma.Introspection.truthy emma.Llm.Json.get
    emma.Common.select emma.Common.mem_text emma.Common.text_eq emma.Common.join emma.Common.decimal
    lit
detailed = refl
