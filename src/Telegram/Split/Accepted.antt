-- ===== src/Telegram/Split/Accepted.antt =====
-- Which of the chunks of adapters/telegram.py Telegram takes, by its documented limits: a text that shows something,
-- of 4096 UTF-16 units at most.
use emma.Common.{
  ℕ, zero, suc, ◌≤◌, ◌<◌, ◌≡◌, refl, ap, sym, ◌∙◌, inl, inr, Bool, true, not, ◌&&◌, List, [], ◌∷◌,
  ◌++◌, Text, length, take, drop, is_empty, is_space, rstrip, select, All, ltb, leb, arith,
  Bool-cases, Option-cases, List-cases,
}
use emma.Telegram.Split.{max_message_length, newline_cut, split_from, split_message}
use emma.Telegram.Split.Units.{utf16_length}
use emma.Telegram.Split.Chunks.{split_message-fits}
use emma.Telegram.Split.Visible.{visible, concat, visible-append, visible-split_message}

abbrev pub telegram_limit : ℕ
telegram_limit = 4096

unfoldable pub is_accepted : Text → Bool
is_accepted text = not (is_empty (visible text)) && leb (utf16_length text) telegram_limit

-- The characters lie in the first plane, where each is one UTF-16 unit.
abbrev pub InFirstPlane : Text → Type 0
InFirstPlane text = All (λ c. c < 65536) text

utf16_length-same : (text : Text) → InFirstPlane text → utf16_length text ≡ length text
unfolding utf16_length
utf16_length-same [] h = refl
utf16_length-same (c ∷ cs) h =
    let e : ltb c 65536 ≡ true = ground (arith, h.0) in
    rw e (omega (arith, utf16_length-same cs h.1))

InFirstPlane-take : (n : ℕ) (text : Text) → InFirstPlane text → InFirstPlane (take n text)
InFirstPlane-take zero text h = tt
InFirstPlane-take (suc n) [] h = tt
InFirstPlane-take (suc n) (c ∷ cs) h = (h.0, InFirstPlane-take n cs h.1)

InFirstPlane-drop : (n : ℕ) (text : Text) → InFirstPlane text → InFirstPlane (drop n text)
InFirstPlane-drop zero text h = h
InFirstPlane-drop (suc n) [] h = tt
InFirstPlane-drop (suc n) (c ∷ cs) h = InFirstPlane-drop n cs h.1

InFirstPlane-rstrip : (text : Text) → InFirstPlane text → InFirstPlane (rstrip text)
unfolding rstrip
InFirstPlane-rstrip [] h = tt
InFirstPlane-rstrip (c ∷ cs) h = elim (Bool-cases (is_space c && is_empty (rstrip cs))) [
  | inl e ↦ rw e tt
  | inr e ↦ rw e (h.0, InFirstPlane-rstrip cs h.1)
]

InFirstPlane-split_from :
    (fuel limit : ℕ) (text : Text)
    → InFirstPlane text
    → All InFirstPlane (split_from fuel limit text)
unfolding split_from
InFirstPlane-split_from zero limit text h = (h, tt)
InFirstPlane-split_from (suc fuel) limit text h = elim (Bool-cases (ltb limit (length text))) [
  | inr e ↦ rw e (h, tt)
  | inl e ↦ elim (Option-cases (newline_cut limit (take limit text))) [
    | inl f ↦
        rw (split_from, e, f)
          (
            InFirstPlane-rstrip _ (InFirstPlane-take limit text h),
            InFirstPlane-split_from fuel limit _ (InFirstPlane-drop limit text h),
          )
    | inr (cut, f) ↦
        rw (split_from, e, f)
          (
            InFirstPlane-rstrip _ (InFirstPlane-take cut text h),
            InFirstPlane-split_from fuel limit _ (InFirstPlane-drop (suc cut) text h),
          )
  ]
]

-- What is left out of such chunks shows nothing.
visible-accepted :
    (chunks : List Text)
    → All InFirstPlane chunks
    → All (λ chunk. length chunk ≤ max_message_length) chunks
    → visible (concat (select is_accepted chunks)) ≡ visible (concat chunks)
unfolding select concat is_accepted
visible-accepted [] h k = refl
visible-accepted (chunk ∷ chunks) h k =
    let fits : leb (utf16_length chunk) telegram_limit ≡ true =
      rw (utf16_length-same chunk h.0) (ground (arith, k.0)) in
    let rest = visible-accepted chunks h.1 k.1 in
    elim (List-cases (visible chunk)) [
      | inl e ↦ rw e (
          rest
          ∙ sym (visible-append chunk (concat chunks) ∙ ap (λ v. v ++ visible (concat chunks)) e))
      | inr (c, cs, e) ↦
          rw (e, fits)
            (visible-append chunk (concat (select is_accepted chunks))
              ∙ ap (λ v. visible chunk ++ v) rest
              ∙ sym (visible-append chunk (concat chunks)))
    ]

InFirstPlane-split_message :
    (limit : ℕ) (text : Text) → InFirstPlane text → All InFirstPlane (split_message limit text)
unfolding split_message
InFirstPlane-split_message limit [] h = (tt, tt)
InFirstPlane-split_message limit (c ∷ cs) h =
    InFirstPlane-split_from (length (c ∷ cs)) limit (c ∷ cs) h

-- The chunks of a message in the first plane that Telegram takes hold all that the message shows.
pub accepted-visible :
    (text : Text)
    → InFirstPlane text
    → visible (concat (select is_accepted (split_message max_message_length text))) ≡ visible text
accepted-visible text h =
    visible-accepted (split_message max_message_length text)
      (InFirstPlane-split_message max_message_length text h)
      (split_message-fits max_message_length text (omega arith))
    ∙ visible-split_message max_message_length text
