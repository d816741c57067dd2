-- ===== src/Introspection/Listing.antt =====
-- That the inventory of tools/introspection.py names every tool, and which are switched off.
use emma.Common.{
  ◌≡◌, refl, sym, ap, ◌∙◌, inl, inr, Bool, true, false, Option, List, [], ◌∷◌, ◌++◌, Text, lit,
  newline, join, join-Contains, Contains, Contains-self, Contains-refl, text_eq, text_eq_iff,
  text_eq_refl, arith, Contains-append, Contains-trans, map, mem_text, All, select, Result, ok, Exc,
  Bool-cases, if◌then◌else◌,
}
use emma.Llm.Json.{Fields}
use emma.Router.{Tool}
use emma.Introspection.{
  switched_off, label, off_and_registered, opening, detail_line, listing, wants_detail,
  run_inventory,
}

-- A name that is off and registered is off, for a tool that is registered.
mem-select :
    (name : Text) (names off : List Text)
    → mem_text name names ≡ true
    → mem_text name (select (λ m. mem_text m names) off) ≡ mem_text name off
unfolding mem_text select
mem-select name names [] h = refl
mem-select name names (m ∷ off) h = elim (Bool-cases (text_eq name m)) [
  | inl e ↦
      let kept : mem_text m names ≡ true =
        ap (λ (t : Text). mem_text t names) (sym ((text_eq_iff name m).0 e)) ∙ h in
      rw (select, kept, mem_text, e) refl
  | inr e ↦ elim (Bool-cases (mem_text m names)) [
    | inl k ↦ rw (select, k, mem_text, e) (mem-select name names off h)
    | inr k ↦ rw (select, k, mem_text, e) (mem-select name names off h)
  ]
]

module _ {W : Type 0} where
  -- How a tool stands in the listing: its name, and the mark behind it if it is off; with what it is for, if that is
  -- asked.
  abbrev pub marked : List Text → Tool W → Text
  marked off tool = if mem_text tool.name off then tool.name ++ lit " (disattivato)" else tool.name

  pub record Named (detailed : Bool) (off : List Text) (reply : Text) (tool : Tool W) : Type 0 where
    pub name : Contains (marked off tool) reply
    pub purpose : detailed ≡ true → Contains tool.description reply

  detail_line-Named :
      (off : List Text) (tool : Tool W)
      → Contains (marked off tool) (detail_line off tool)
        × Contains tool.description (detail_line off tool)
  unfolding detail_line label
  detail_line-Named off tool = (
    Contains-append (lit "- ") (Contains-self (marked off tool) (lit ": " ++ tool.description)),
    Contains-append (lit "- ") (
        Contains-append (marked off tool)
          (Contains-append (lit ": ") (Contains-refl tool.description))),
  )

  details-Named :
      (off : List Text) (tools : List (Tool W)) (reply : Text)
      → All (λ line. Contains line reply) (map (detail_line off) tools)
      → All (Named true off reply) tools
  details-Named off [] reply h = tt
  details-Named off (t ∷ ts) reply h = (
    record {
      name = Contains-trans (detail_line-Named off t).0 h.0;
      purpose = λ e. Contains-trans (detail_line-Named off t).1 h.0;
    },
    details-Named off ts reply h.1,
  )

  names-Named :
      (off : List Text) (tools : List (Tool W)) (t reply : Text)
      → Contains t reply
      → All (λ line. Contains line t) (map (label off) tools)
      → All (Named false off reply) tools
  unfolding label
  names-Named off [] t reply c h = tt
  names-Named off (tool ∷ ts) t reply c h =
      (record { name = Contains-trans h.0 c; purpose = λ e. cc }, names-Named off ts t reply c h.1)

  listing-Named :
      (detailed : Bool) (off : List Text) (tools : List (Tool W))
      → All (Named detailed off (listing detailed off tools)) tools
  unfolding listing
  listing-Named true off tools =
      details-Named off tools _
        (join-Contains newline ((opening off tools ++ lit ":") ∷ map (detail_line off) tools)).1
  listing-Named false off tools =
      let names = join (lit ", ") (map (label off) tools) in
      names-Named off tools names _
        (Contains-append (opening off tools)
          (Contains-append (lit ": ") (Contains-self names (lit "."))))
        (join-Contains (lit ", ") (map (label off) tools))

  registered :
      (tools more : List (Tool W))
      → All (λ t. mem_text t.name (map (λ u. u.name) more) ≡ true) tools
      → (t : Tool W) → All (λ u. mem_text u.name (map (λ v. v.name) (t ∷ more)) ≡ true) tools
  unfolding mem_text
  registered [] more h t = tt
  registered (u ∷ us) more h t = (ground (arith, h.0), registered us more h.1 t)

  all_registered :
      (tools : List (Tool W)) → All (λ t. mem_text t.name (map (λ u. u.name) tools) ≡ true) tools
  unfolding mem_text
  all_registered [] = tt
  all_registered (t ∷ ts) =
      (rw (mem_text, text_eq_refl t.name) refl, registered ts ts (all_registered ts) t)

  remarked :
      (detailed : Bool) (off : List Text) (names : List Text) (reply : Text) (tools : List (Tool W))
      → All (λ t. mem_text t.name names ≡ true) tools
      → All (Named detailed (select (λ m. mem_text m names) off) reply) tools
      → All (Named detailed off reply) tools
  remarked detailed off names reply [] h k = tt
  remarked detailed off names reply (t ∷ ts) h k = (
    record { name = rw (mem-select t.name names off h.0) at k.0.name; purpose = k.0.purpose },
    remarked detailed off names reply ts h.1 k.1,
  )

  -- Given the tools that the router has, `list_tools` answers whatever the gate does, a gate that raises included,
  -- and names every one of them; a tool that the gate says is off has the mark behind its name. If details are
  -- asked for, it says of every tool what it is for.
  pub run_inventory_lem :
      (gate : Option (W → Result Exc (List Text) × W)) (tool : Tool W) (tools : List (Tool W))
      (arguments : Fields) (w : W)
      → (reply : Text) × (run_inventory gate (tool ∷ tools) arguments w
          ≡ (ok reply, (switched_off gate w).1))
        × All (Named (wants_detail arguments) (switched_off gate w).0 reply) (tool ∷ tools)
  unfolding run_inventory off_and_registered
  run_inventory_lem gate tool tools arguments w =
      let off = (switched_off gate w).0 in
      let all : List (Tool W) = tool ∷ tools in
      let names : List Text = map (λ t. t.name) all in
      let shown = select (λ m. mem_text m names) off in
      (
        listing (wants_detail arguments) shown all,
        refl,
        remarked (wants_detail arguments) off names _ all (all_registered all)
            (listing-Named (wants_detail arguments) shown all),
      )
