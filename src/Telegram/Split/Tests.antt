-- ===== src/Telegram/Split/Tests.antt =====
-- Runs of `_split_message` at concrete inputs, and its theorems applied there.
use emma.Common.{ℕ, ◌*◌, ◌≤◌, ◌≡◌, refl, List, [], ◌∷◌, Text, lit, length, All, arith}
use emma.Telegram.Split.{split_message}
use emma.Telegram.Split.Chunks.{split_message-fits}
use emma.Telegram.Split.Visible.{visible, concat, visible-split_message}
use emma.Telegram.Split.Units.{utf16_length, split_message-units}

-- Two paragraphs.
abbrev paragraphs : Text
paragraphs = 97 ∷ 98 ∷ 99 ∷ 100 ∷ 10 ∷ 10 ∷ 101 ∷ 102 ∷ 103 ∷ []

-- The cut steps back to the first newline of the blank line, and the second opens the next chunk.
kept_blank_line :
    split_message 6 paragraphs ≡ (97 ∷ 98 ∷ 99 ∷ 100 ∷ []) ∷ (10 ∷ 101 ∷ 102 ∷ 103 ∷ []) ∷ []
unfolding split_message emma.Telegram.Split.split_from emma.Telegram.Split.newline_cut
    emma.Telegram.Split.step_back emma.Telegram.Split.rfind_newline emma.Telegram.Split.char_at
    emma.Common.rstrip emma.Common.is_space
kept_blank_line = refl

split_message-fits_example : All (λ chunk. length chunk ≤ 6) (split_message 6 paragraphs)
split_message-fits_example = split_message-fits 6 paragraphs (omega arith)

visible-split_message_example : visible (concat (split_message 6 paragraphs)) ≡ visible paragraphs
visible-split_message_example = visible-split_message 6 paragraphs

abbrev smiles : Text
smiles = 128512 ∷ 128513 ∷ []

split_message-units_instance :
    (split_message 2 smiles ≡ smiles ∷ []) × (utf16_length smiles ≡ 2 * 2)
split_message-units_instance =
    split_message-units 2 smiles (omega arith) (omega arith, (omega arith, tt))
