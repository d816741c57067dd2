-- ===== src/App/Switches/Registered.antt =====
-- What the tools of main.py are called, that `remove_tool` and `enable_tool` are among them, and what these two do to the switches.
use emma.Common.{
  ◌≡◌, refl, true, false, some, List, [], ◌∷◌, Text, lit, text_eq, mem_text, is_empty, lookup,
}
use emma.Llm.Json.{Fields}
use emma.Router.{Tool}
use emma.Router.Tools.Gate.{names}
use emma.ToolState.{protected}
use emma.ToolState.Removal.{run_remove, run_enable}
use emma.App.Catalogue.{
  desk_of, Assistant, Outside, request_development, work_status, answer_question,
  abandon_development, running_version, list_tools, remember_fact, forget_fact, current_time,
  remove_tool, enable_tool,
}
use emma.App.Wiring.{all_tools, other_tools, undescribed}
use emma.App.Wiring.Distinct.{index_of}

pub registered_named :
    (o : Outside) (name : Text) → mem_text name (names (all_tools o)) ≡ true → is_empty name ≡ false
unfolding all_tools other_tools undescribed mem_text text_eq lit request_development work_status
    answer_question abandon_development running_version list_tools remember_fact forget_fact
    current_time remove_tool enable_tool
registered_named o [] h = cc
registered_named o (c ∷ cs) h = refl

pub found_named :
    (o : Outside) (name : Text) (t : Tool Assistant)
    → lookup name (index_of (all_tools o)) ≡ some t
    → is_empty name ≡ false
unfolding all_tools other_tools undescribed lookup text_eq lit request_development work_status
    answer_question abandon_development running_version list_tools remember_fact forget_fact
    current_time remove_tool enable_tool
found_named o [] t h = cc
found_named o (c ∷ cs) t h = refl

pub enable_tool-protected : mem_text (lit "enable_tool") protected ≡ true
unfolding mem_text text_eq lit
enable_tool-protected = refl

pub same_names : (o : Outside) → names (undescribed o) ≡ names (all_tools o)
unfolding all_tools other_tools undescribed lit request_development work_status answer_question
    abandon_development running_version list_tools remember_fact forget_fact current_time
    remove_tool enable_tool
same_names o = refl

module _ (o : Outside) where
  pub remove_tool-found :
      lookup (lit "remove_tool") (index_of (all_tools o))
      ≡ some (remove_tool o (names (undescribed o)))
  unfolding all_tools other_tools undescribed lookup text_eq lit request_development work_status
      answer_question abandon_development running_version list_tools remember_fact forget_fact
      current_time remove_tool enable_tool
  remove_tool-found = refl

  pub enable_tool-found : lookup (lit "enable_tool") (index_of (all_tools o)) ≡ some (enable_tool o)
  unfolding all_tools other_tools undescribed lookup text_eq lit request_development work_status
      answer_question abandon_development running_version list_tools remember_fact forget_fact
      current_time remove_tool enable_tool
  enable_tool-found = refl

  pub remove_tool-state :
      (known : List Text) (arguments : Fields) (w : Assistant)
      → ((remove_tool o known).run arguments w).1.state
        ≡ (run_remove o.show known arguments w.now (desk_of w)).1.state
  unfolding remove_tool
  remove_tool-state known arguments w = refl

  pub enable_tool-state :
      (arguments : Fields) (w : Assistant)
      → ((enable_tool o).run arguments w).1.state
        ≡ (run_enable o.show arguments (desk_of w)).1.state
  unfolding enable_tool
  enable_tool-state arguments w = refl
