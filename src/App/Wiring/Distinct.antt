-- ===== src/App/Wiring/Distinct.antt =====
-- That the names of the tools that main.py registers are all different, so that the router takes them.
use emma.Common.{ℕ, ◌≡◌, refl, some, List, Text, lit, lookup, insert, text_eq, map, All, ok, Dict}
use emma.Router.{Tool, index_tools, tools_by_name}
use emma.ToolState.{protected}
use emma.App.Catalogue.{
  Assistant, Outside, request_development, work_status, answer_question, abandon_development,
  running_version, list_tools, remember_fact, forget_fact, current_time, remove_tool, enable_tool,
}
use emma.App.Wiring.{Complete, all_tools, other_tools, undescribed, router_of}

abbrev pub index_of : List (Tool Assistant) → Dict (Tool Assistant)
index_of tools = map (λ t. (t.name, t)) tools

module _ (o : Outside) (complete : Complete) (system_prompt : Text) (now : Assistant → ℕ) where
  pub tools_by_name_lem :
      tools_by_name (router_of o complete system_prompt now) ≡ ok (index_of (all_tools o))
  unfolding tools_by_name index_tools router_of all_tools other_tools undescribed lookup insert
      text_eq lit request_development work_status answer_question abandon_development
      running_version list_tools remember_fact forget_fact current_time remove_tool enable_tool
  tools_by_name_lem = refl

  -- The router takes the tools of the program: it is built without the ValueError of a name that comes twice, it
  -- finds every tool under its name, and each tool that is protected from being switched off is one of them.
  pub all_tools-registered :
      (index : Dict (Tool Assistant)) × (tools_by_name (router_of o complete system_prompt now)
        ≡ ok index)
      × All (λ t. lookup t.name index ≡ some t) (all_tools o)
      × All (λ name. (t : Tool Assistant) × (lookup name index ≡ some t)) protected
  unfolding all_tools other_tools undescribed lookup text_eq lit request_development work_status
      answer_question abandon_development running_version list_tools remember_fact forget_fact
      current_time remove_tool enable_tool
  all_tools-registered = (
    index_of (all_tools o),
    tools_by_name_lem,
    (refl, (refl, (refl, (refl, (refl, (refl, (refl, (refl, (refl, (refl, (refl, tt))))))))))),
    ((list_tools (undescribed o), refl), ((enable_tool o, refl), tt)),
  )
