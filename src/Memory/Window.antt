-- ===== src/Memory/Window.antt =====
-- The sliding window of core/memory.py, and a description of it as a cut.
use emma.Common.{
  ℕ, zero, suc, ◌-◌, ◌≤◌, ◌≡◌, refl, ap, sym, List, [], ◌∷◌, ◌++◌, arith, ◌∙◌, append_assoc,
  Bool-cases, inl, inr, length, drop, take, ltb, false, length-drop, length-append,
  take-append-drop, if◌then◌else◌,
}
use emma.Llm.{Role, user, assistant}
use emma.Memory.{StoredMessage, drop_orphans, window}

abbrev pub StartsWithUser : List StoredMessage → Type 0
StartsWithUser [] = Unit
StartsWithUser (m ∷ ms) = m.role ≡ user

drop_orphans-StartsWithUser : (ms : List StoredMessage) → StartsWithUser (drop_orphans ms)
unfolding drop_orphans
drop_orphans-StartsWithUser [] = tt
drop_orphans-StartsWithUser (m ∷ ms) = ground (arith, drop_orphans-StartsWithUser ms)

length-drop_orphans-le : (ms : List StoredMessage) → length (drop_orphans ms) ≤ length ms
unfolding drop_orphans
length-drop_orphans-le [] = omega arith
length-drop_orphans-le (m ∷ ms) = ground (arith, length-drop_orphans-le ms)

drop_orphans_of_starts : (ms : List StoredMessage) → StartsWithUser ms → drop_orphans ms ≡ ms
unfolding drop_orphans
drop_orphans_of_starts [] h = refl
drop_orphans_of_starts (m ∷ ms) h = ground arith

pub length-window-le : (max : ℕ) (ms : List StoredMessage) → length (window max ms) ≤ max
unfolding window
length-window-le max ms = ground (
  arith,
  length-drop_orphans-le ms,
  length-drop_orphans-le (drop (length ms - max) ms),
  length-drop (length ms - max) ms,
)

pub window-StartsWithUser : (max : ℕ) (ms : List StoredMessage) → StartsWithUser (window max ms)
unfolding window
window-StartsWithUser max ms =
    drop_orphans-StartsWithUser (if ltb max (length ms) then drop (length ms - max) ms else ms)

pub window_of_fits :
    (max : ℕ) (ms : List StoredMessage) → length ms ≤ max → StartsWithUser ms → window max ms ≡ ms
unfolding window
window_of_fits max ms h s =
    let e : ltb max (length ms) ≡ false = ground arith in rw e (drop_orphans_of_starts ms s)

-- Pruning a window again changes nothing, as the interface demands.
pub window-window : (max : ℕ) (ms : List StoredMessage) → window max (window max ms) ≡ window max ms
window-window max ms =
    window_of_fits max (window max ms) (length-window-le max ms) (window-StartsWithUser max ms)

drop-append {ℓ} :
    {A : Type ℓ} (k : ℕ) (xs ys : List A) → k ≤ length xs → drop k (xs ++ ys) ≡ drop k xs ++ ys
drop-append zero xs ys h = refl
drop-append (suc k) [] ys h = absurd (omega arith)
drop-append (suc k) (x ∷ xs) ys h = drop-append k xs ys (omega arith)

drop_orphans-longest :
    (pre suf : List StoredMessage)
    → StartsWithUser suf
    → length suf ≤ length (drop_orphans (pre ++ suf))
unfolding drop_orphans
drop_orphans-longest [] suf h = rw (drop_orphans_of_starts suf h) (omega arith)
drop_orphans-longest (m ∷ pre) suf h =
    ground (arith, drop_orphans-longest pre suf h, length-append pre suf)

drop_orphans-suffix :
    (ms : List StoredMessage) → (pre : List StoredMessage) × (ms ≡ pre ++ drop_orphans ms)
unfolding drop_orphans
drop_orphans-suffix [] = ([], refl)
drop_orphans-suffix (m ∷ ms) =
    let (pre, e) = drop_orphans-suffix ms in orphan_suffix m ms (drop_orphans ms) pre e m.role
  where
    orphan_suffix :
        (m : StoredMessage) (ms rest pre : List StoredMessage)
        → ms ≡ pre ++ rest
        → (r : Role)
        → (p : List StoredMessage) × (m ∷ ms ≡ p ++ (elim r [ user ↦ m ∷ ms | assistant ↦ rest ]))
    orphan_suffix m ms rest pre e user = ([], refl)
    orphan_suffix m ms rest pre e assistant = (m ∷ pre, ap (◌∷◌ m) e)

-- What the length test leaves.
unfoldable pub cut : (max : ℕ) (ms : List StoredMessage) → List StoredMessage
cut max ms = if ltb max (length ms) then drop (length ms - max) ms else ms

cut-suffix :
    (max : ℕ) (ms : List StoredMessage) → (pre : List StoredMessage) × (ms ≡ pre ++ cut max ms)
unfolding cut
cut-suffix max ms = elim (Bool-cases (ltb max (length ms))) [
  | inl e ↦ (take (length ms - max) ms, rw e (sym (take-append-drop (length ms - max) ms)))
  | inr e ↦ ([], rw e refl)
]

-- A cut of a conversation that a request may carry: a suffix within the limit that does not start
-- with the assistant.
pub record IsCut (max : ℕ) (ms suf : List StoredMessage) : Type 0 where
  pub dropped : List StoredMessage
  pub is_suffix : ms ≡ dropped ++ suf
  pub bound : length suf ≤ max
  pub starts : StartsWithUser suf

pub window-cut : (max : ℕ) (ms : List StoredMessage) → window max ms ≡ drop_orphans (cut max ms)
unfolding window cut
window-cut max ms = refl

window-suffix :
    (max : ℕ) (ms : List StoredMessage) → (pre : List StoredMessage) × (ms ≡ pre ++ window max ms)
unfolding window cut
window-suffix max ms =
    let (p, e) = cut-suffix max ms in
    let (q, f) = drop_orphans-suffix (cut max ms) in
    (p ++ q, e ∙ ap (λ (r : List StoredMessage). p ++ r) f ∙ sym (append_assoc p q _))

length-cut-append :
    (max : ℕ) (pre suf : List StoredMessage)
    → length suf ≤ max
    → (rest : List StoredMessage) × (cut max (pre ++ suf) ≡ rest ++ suf)
unfolding cut
length-cut-append max pre suf h = elim (Bool-cases (ltb max (length (pre ++ suf)))) [
  | inl e ↦ (
    drop (length (pre ++ suf) - max) pre,
    rw e (drop-append _ pre suf (omega (arith, length-append pre suf))),
  )
  | inr e ↦ (pre, rw e refl)
]

-- The window is a cut, and no cut is longer: a cut is an end of the conversation, no longer than
-- the limit, that is empty or starts with a message of the user.
pub window_longest :
    (max : ℕ) (ms : List StoredMessage)
    → IsCut max ms (window max ms)
      × ((suf : List StoredMessage) → IsCut max ms suf → length suf ≤ length (window max ms))
unfolding window cut
window_longest max ms = (
  let (pre, e) = window-suffix max ms in
      record {
        dropped = pre;
        is_suffix = e;
        bound = length-window-le max ms;
        starts = window-StartsWithUser max ms;
      },
  λ suf c.
      let (rest, e) = length-cut-append max c.dropped suf c.bound in
      rw c.is_suffix (rw e (drop_orphans-longest rest suf c.starts)),
)
