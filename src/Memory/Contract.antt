-- ===== src/Memory/Contract.antt =====
-- core/memory.py: ConversationMemory, the interface of the stores, with what its documentation promises, and the two
-- stores that keep it.
use emma.Common.{
  ℕ, ◌≡◌, refl, ap, sym, ◌∙◌, inl, inr, true, false, List, Text, text_eq, text_eq_refl, Result, ok,
  Exc, ok_injective, text_eq_iff, ap₂, Bool-cases, if◌then◌else◌,
}
use emma.Memory
use emma.Memory.{StoredMessage, InMemory, window}
use mathlib.Core.Path.{subst}
use emma.Memory.Window.{window-window}
use emma.Memory.Histories.{get_history-append, get_history-prune_locked, max_messages-prune_locked}
use emma.Memory.Sqlite
use emma.Memory.Sqlite.{Sqlite, prune_locked}
use emma.Memory.Sqlite.Rows.{history}
use emma.Memory.Sqlite.Pruning.{Ascending-prune_rows, history-prune_rows}
use emma.Memory.Sqlite.Refines.{IsValid, append_lem}

-- What a method leaves: it does not raise, the store stays usable, and what another conversation reads is as before.
pub record Leaves {S : Type 0} (Usable : S → Type 0)
    (read : S → Text → Result Exc (List StoredMessage)) (c : Text) (s : S) (out : Result Exc S)
    : Type 0 where
  pub left : S
  pub returned : out ≡ ok left
  pub usable : Usable left
  pub isolated : (d : Text) → text_eq c d ≡ false → read left d ≡ read s d

-- The methods, and the promises of their documentation.
pub record ConversationMemory (S : Type 0) : Type 1 where
  pub Usable : S → Type 0
  pub get_history : S → Text → Result Exc (List StoredMessage)
  pub append : S → Text → StoredMessage → ℕ → Result Exc S
  pub prune : S → Text → Result Exc S
  pub appends :
      (s : S) (c : Text) (m : StoredMessage) (now : ℕ)
      → Usable s
      → Leaves Usable get_history c s (append s c m now)
  pub prunes : (s : S) (c : Text) → Usable s → Leaves Usable get_history c s (prune s c)
  -- Pruning twice in a row changes nothing.
  pub prunes_once :
      (s s' s'' : S) (c : Text)
      → Usable s
      → prune s c ≡ ok s'
      → prune s' c ≡ ok s''
      → (d : Text) → get_history s'' d ≡ get_history s' d

pub prune_lem : (s : InMemory) (c : Text) → Memory.prune s c ≡ Memory.prune_locked s c
unfolding Memory.prune
prune_lem s c = refl

-- Another conversation than the one that is cut.
pub other_if :
    {A : Type 0} (c d : Text) (a b : A) → text_eq c d ≡ false → (if text_eq c d then a else b) ≡ b
other_if c d a b e = rw e refl

pub in_memory_prunes_once :
    (s : InMemory) (c d : Text)
    → Memory.get_history (Memory.prune (Memory.prune s c) c) d
      ≡ Memory.get_history (Memory.prune s c) d
in_memory_prunes_once s c d =
    let s' = Memory.prune_locked s c in
    let own : Memory.get_history s' c ≡ window s.max_messages (Memory.get_history s c) =
      rw text_eq_refl at (get_history-prune_locked s c c) in
    rw (prune_lem s c, prune_lem s' c)
      (elim (Bool-cases (text_eq c d)) [
        | inr e ↦ get_history-prune_locked s' c d ∙ other_if c d _ _ e
        | inl e ↦
            let same : c ≡ d = (text_eq_iff c d).0 e in
            let twice : Memory.get_history (Memory.prune_locked s' c) c
                ≡ window s'.max_messages (Memory.get_history s' c) =
              rw text_eq_refl at (get_history-prune_locked s' c c) in
            subst (λ x. Memory.get_history (Memory.prune_locked s' c) x ≡ Memory.get_history s' x)
              same
              (twice
                ∙ ap₂ window (max_messages-prune_locked s c) own
                ∙ window-window s.max_messages (Memory.get_history s c)
                ∙ sym own)
      ])

-- InMemoryConversationMemory, of which every state is usable.
abbrev pub in_memory_keeps : ConversationMemory InMemory
in_memory_keeps = record {
  Usable = λ s. Unit;
  get_history = λ s c. ok (Memory.get_history s c);
  append = λ s c m now. ok (Memory.append s c m);
  prune = λ s c. ok (Memory.prune s c);
  appends = λ s c m now h. record {
    left = Memory.append s c m;
    returned = refl;
    usable = tt;
    isolated = λ d e. ap ok (get_history-append s c d m ∙ other_if c d _ _ e);
  };
  prunes = λ s c h. record {
    left = Memory.prune s c;
    returned = refl;
    usable = tt;
    isolated = λ d e. ap ok (
        ap (λ x. Memory.get_history x d) (prune_lem s c)
        ∙ (get_history-prune_locked s c d ∙ other_if c d _ _ e));
  };
  prunes_once = λ s s' s'' c h e f d.
      let once : Memory.prune s c ≡ s' = ok_injective e in
      let twice : Memory.prune s' c ≡ s'' = ok_injective f in
      ap ok (
        subst (λ x. Memory.get_history x d ≡ Memory.get_history s' d) twice
          (subst (λ x. Memory.get_history (Memory.prune x c) d ≡ Memory.get_history x d) once
            (in_memory_prunes_once s c d)));
}

-- What an open store reads.
pub reads :
    (s : Sqlite) (d : Text) → s.is_open ≡ true → Sqlite.get_history s d ≡ ok (history d s.rows)
unfolding Sqlite.get_history
reads s d o = rw o refl

pub pruned : (s : Sqlite) (c : Text) → s.is_open ≡ true → Sqlite.prune s c ≡ ok (prune_locked s c)
unfolding Sqlite.prune
pruned s c o = rw o refl

module _ (s : Sqlite) (c : Text) (h : IsValid s) where
  pub prune_locked-IsValid : IsValid (prune_locked s c)
  unfolding prune_locked
  prune_locked-IsValid = record {
    opened = h.opened;
    ascending = Ascending-prune_rows 0 s.last_id c s.max_messages s.rows h.ascending;
  }

  pub history-prune_locked :
      (d : Text)
      → history d (prune_locked s c).rows
        ≡ (if text_eq c d then window s.max_messages (history c s.rows) else history d s.rows)
  unfolding prune_locked
  history-prune_locked d = history-prune_rows 0 s.last_id c s.max_messages d s.rows h.ascending

prune_locked-max : (s : Sqlite) (c : Text) → (prune_locked s c).max_messages ≡ s.max_messages
unfolding prune_locked
prune_locked-max s c = refl

pub sqlite_prunes_once :
    (s : Sqlite) (c d : Text)
    → IsValid s
    → history d (prune_locked (prune_locked s c) c).rows ≡ history d (prune_locked s c).rows
sqlite_prunes_once s c d h =
    let s' = prune_locked s c in
    let h' = prune_locked-IsValid s c h in
    let own : history c s'.rows ≡ window s.max_messages (history c s.rows) =
      rw text_eq_refl at (history-prune_locked s c h c) in
    elim (Bool-cases (text_eq c d)) [
      | inr e ↦ history-prune_locked s' c h' d ∙ other_if c d _ _ e
      | inl e ↦
          let same : c ≡ d = (text_eq_iff c d).0 e in
          let twice : history c (prune_locked s' c).rows
              ≡ window s'.max_messages (history c s'.rows) =
            rw text_eq_refl at (history-prune_locked s' c h' c) in
          subst (λ x. history x (prune_locked s' c).rows ≡ history x s'.rows) same
            (twice
              ∙ ap₂ window (prune_locked-max s c) own
              ∙ window-window s.max_messages (history c s.rows)
              ∙ sym own)
    ]

-- SqliteConversationMemory, which is usable when it is open and its ids ascend.
abbrev pub sqlite_keeps : ConversationMemory Sqlite
sqlite_keeps = record {
  Usable = IsValid;
  get_history = Sqlite.get_history;
  append = Sqlite.append;
  prune = Sqlite.prune;
  appends = λ s c m now h.
      let (s', e, h', k) = append_lem s c m now h in
      record {
        left = s';
        returned = e;
        usable = h';
        isolated = λ d n.
            reads s' d h'.opened ∙ (ap ok (k d ∙ other_if c d _ _ n) ∙ sym (reads s d h.opened));
      };
  prunes = λ s c h.
      let h' = prune_locked-IsValid s c h in
      record {
        left = prune_locked s c;
        returned = pruned s c h.opened;
        usable = h';
        isolated = λ d n.
            reads (prune_locked s c) d h'.opened
            ∙ (ap ok (history-prune_locked s c h d ∙ other_if c d _ _ n)
                ∙ sym (reads s d h.opened));
      };
  prunes_once = λ s s' s'' c h e f d.
      let h' = prune_locked-IsValid s c h in
      let h'' = prune_locked-IsValid (prune_locked s c) c h' in
      let once : prune_locked s c ≡ s' = ok_injective (sym (pruned s c h.opened) ∙ e) in
      let twice : prune_locked s' c ≡ s'' =
        ok_injective (sym (pruned s' c ((subst IsValid once h').opened)) ∙ f) in
      let same : Sqlite.get_history (prune_locked (prune_locked s c) c) d
          ≡ Sqlite.get_history (prune_locked s c) d =
        reads (prune_locked (prune_locked s c) c) d h''.opened
        ∙ (ap ok (sqlite_prunes_once s c d h) ∙ sym (reads (prune_locked s c) d h'.opened)) in
      subst (λ x. Sqlite.get_history x d ≡ Sqlite.get_history s' d) twice
        (subst (λ x. Sqlite.get_history (prune_locked x c) d ≡ Sqlite.get_history x d) once same);
}
