-- ===== src/Memory/Tests.antt =====
-- Runs of the in-process store of core/memory.py.
use emma.Common.{ℕ, ◌≤◌, ◌≡◌, refl, List, [], ◌∷◌, ok, lit, length}
use emma.Llm.{user, assistant}
use emma.Memory.{StoredMessage, InMemory, window, in_memory, append, get_history}
use emma.Memory.Window.{IsCut, window_longest, window-window}

abbrev said : StoredMessage
said = record { role = user; content = lit "ciao" }

abbrev replied : StoredMessage
replied = record { role = assistant; content = lit "ciao a te" }

abbrev talk : List StoredMessage
talk = said ∷ replied ∷ said ∷ []

orphan_dropped : window 2 talk ≡ said ∷ []
unfolding window
orphan_dropped = refl

abbrev empty : InMemory
empty = record { max_messages = 20; conversations = [] }

append_then_read : get_history (append empty (lit "1") said) (lit "1") ≡ said ∷ []
unfolding append get_history window emma.Common.lookup emma.Common.insert emma.Common.text_eq lit
append_then_read = refl

in_memory_of_twenty : in_memory 20 ≡ ok empty
unfolding in_memory
in_memory_of_twenty = refl

window_longest_example :
    IsCut 2 talk (window 2 talk)
    × ((suf : List StoredMessage) → IsCut 2 talk suf → length suf ≤ length (window 2 talk))
window_longest_example = window_longest 2 talk

pruned_twice : window 2 (window 2 talk) ≡ window 2 talk
pruned_twice = window-window 2 talk
