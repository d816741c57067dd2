-- ===== src/Version/Drift.antt =====
-- What `modified_since_deploy` of core/version.py reports.
use emma.Common.{
  ℕ, ◌+◌, ◌<◌, ◌≡◌, ◌⊎◌, ◌↔◌, refl, ap, sym, ◌∙◌, inl, inr, true, false, not, Option, none, some,
  List, [], ◌∷◌, Text, lit, text_eq, text_eq_iff, mem_text, any, All, ltb, ltb→lt, lt→ltb, is_empty,
  ok, Bool-cases, Option-cases, Dict, arith, ◌&&◌, ◌||◌,
}
use emma.Config.{Reading}
use emma.Version.{
  Moment, Entry, changes_on_its_own, stamp_filename, last_part, relative, is_newer, text_lt,
  insert_sorted, sorted, newer_files, read_stamp, get_or, modified_since_deploy,
}

-- A file that changed after the deploy: no part of its path, its own name
-- included, is one that changes on its own, it is not the stamp, and its time can be read and is more than a second past the deploy's.
pub record Evidence (deployed_at : ℕ) (entry : Entry) : Type 0 where
  pub of_the_code : All (λ part. mem_text part changes_on_its_own ≡ false) entry.parts
  pub not_the_stamp : text_eq (last_part entry.parts) stamp_filename ≡ false
  pub a_file : entry.is_file ≡ true
  pub changed : ℕ
  pub read : entry.mtime ≡ some changed
  pub later : deployed_at + 1000000 < changed

-- A predicate of some element, by recursion.
abbrev pub Some {ℓ} : {A : Type ℓ} → (A → Type 0) → List A → Type 0
Some P [] = ⊥
Some P (x ∷ xs) = P x ⊎ Some P xs

-- No text stands before a smaller one.
abbrev pub Ordered : List Text → Type 0
Ordered [] = Unit {0}
Ordered (t ∷ []) = Unit {0}
Ordered (t ∷ u ∷ us) = (text_lt u t ≡ false) × Ordered (u ∷ us)

text_lt_asym : (s t : Text) → text_lt s t ≡ true → text_lt t s ≡ false
unfolding text_lt
text_lt_asym [] [] h = cc
text_lt_asym [] (d ∷ ds) h = refl
text_lt_asym (c ∷ cs) [] h = cc
text_lt_asym (c ∷ cs) (d ∷ ds) h = ground (arith, text_lt_asym cs ds)

insert_sorted-Ordered : (t : Text) (us : List Text) → Ordered us → Ordered (insert_sorted t us)
unfolding insert_sorted
insert_sorted-Ordered t [] o = tt
insert_sorted-Ordered t (u ∷ []) o = elim (Bool-cases (text_lt u t)) [
  | inl e ↦ rw e (text_lt_asym u t e, tt)
  | inr e ↦ rw e (e, tt)
]
insert_sorted-Ordered t (u ∷ v ∷ vs) o = elim (Bool-cases (text_lt u t)) [
  | inl e ↦ rw e (behind (text_lt_asym u t e) (insert_sorted-Ordered t (v ∷ vs) o.1))
  | inr e ↦ rw e (e, o)
]
  where
    behind :
        text_lt t u ≡ false
        → Ordered (insert_sorted t (v ∷ vs))
        → Ordered (u ∷ insert_sorted t (v ∷ vs))
    behind a i = elim (Bool-cases (text_lt v t)) [
      | inl e ↦ rw e (o.0, (rw e at i))
      | inr e ↦ rw e (a, (rw e at i))
    ]

sorted-Ordered : (ts : List Text) → Ordered (sorted ts)
unfolding sorted
sorted-Ordered [] = tt
sorted-Ordered (t ∷ ts) = insert_sorted-Ordered t (sorted ts) (sorted-Ordered ts)

mem-insert_sorted :
    (s t : Text) (us : List Text) → mem_text s (insert_sorted t us) ≡ (text_eq s t || mem_text s us)
unfolding insert_sorted mem_text
mem-insert_sorted s t [] = refl
mem-insert_sorted s t (u ∷ us) = ground (arith, mem-insert_sorted s t us)

mem-sorted : (s : Text) (ts : List Text) → mem_text s (sorted ts) ≡ mem_text s ts
unfolding sorted mem_text
mem-sorted s [] = refl
mem-sorted s (t ∷ ts) =
    mem-insert_sorted s t (sorted ts) ∙ ap (λ b. text_eq s t || b) (mem-sorted s ts)

any_All :
    (parts : List Text)
    → any (λ part. mem_text part changes_on_its_own) parts ≡ false
    → All (λ part. mem_text part changes_on_its_own ≡ false) parts
unfolding any
any_All [] h = tt
any_All (p ∷ ps) h = (ground arith, any_All ps (ground arith))

All_any :
    (parts : List Text)
    → All (λ part. mem_text part changes_on_its_own ≡ false) parts
    → any (λ part. mem_text part changes_on_its_own) parts ≡ false
unfolding any
All_any [] h = refl
All_any (p ∷ ps) h = rw (any, h.0) (All_any ps h.1)

-- The test as a conjunction, where the time can be read.
is_newer-read :
    (deployed_at changed : ℕ) (entry : Entry)
    → entry.mtime ≡ some changed
    → is_newer deployed_at entry ≡ (
        not (any (λ part. mem_text part changes_on_its_own) entry.parts)
        && (not (text_eq (last_part entry.parts) stamp_filename)
            && (entry.is_file && ltb (deployed_at + 1000000) changed)))
unfolding is_newer
is_newer-read deployed_at changed entry m = rw (is_newer, m) refl

is_newer-unread :
    (deployed_at : ℕ) (entry : Entry) → entry.mtime ≡ none → is_newer deployed_at entry ≡ false
unfolding is_newer
is_newer-unread deployed_at entry m = rw (is_newer, m) (ground arith)

is_newer-Evidence :
    (deployed_at : ℕ) (entry : Entry)
    → is_newer deployed_at entry ≡ true
    → Evidence deployed_at entry
is_newer-Evidence deployed_at entry h = elim (Option-cases entry.mtime) [
  | inl m ↦ let never = is_newer-unread deployed_at entry m in cc
  | inr (changed, m) ↦
      let tests = sym (is_newer-read deployed_at changed entry m) ∙ h in
      record {
        of_the_code = any_All entry.parts (ground arith);
        not_the_stamp = ground arith;
        a_file = ground arith;
        changed = changed;
        read = m;
        later = ltb→lt _ _ (ground arith);
      }
]

Evidence-is_newer :
    (deployed_at : ℕ) (entry : Entry)
    → Evidence deployed_at entry
    → is_newer deployed_at entry ≡ true
Evidence-is_newer deployed_at entry v =
    is_newer-read deployed_at v.changed entry v.read
    ∙ (rw (All_any entry.parts v.of_the_code, v.not_the_stamp, v.a_file, lt→ltb _ _ v.later) refl)

newer_files_sound :
    (deployed_at : ℕ) (t : Text) (entries : List Entry)
    → mem_text t (newer_files deployed_at entries) ≡ true
    → Some (λ entry. (t ≡ relative entry) × Evidence deployed_at entry) entries
unfolding newer_files mem_text
newer_files_sound deployed_at t [] h = cc
newer_files_sound deployed_at t (entry ∷ entries) h =
    elim (Bool-cases (is_newer deployed_at entry)) [
      | inr e ↦ inr (newer_files_sound deployed_at t entries (rw e at h))
      | inl e ↦ elim (Bool-cases (text_eq t (relative entry))) [
        | inl same ↦ inl ((text_eq_iff _ _).0 same, is_newer-Evidence deployed_at entry e)
        | inr other ↦ inr (newer_files_sound deployed_at t entries (rw (e, other) at h))
      ]
    ]

newer_files_complete :
    (deployed_at : ℕ) (t : Text) (entries : List Entry)
    → Some (λ entry. (t ≡ relative entry) × Evidence deployed_at entry) entries
    → mem_text t (newer_files deployed_at entries) ≡ true
unfolding newer_files mem_text
newer_files_complete deployed_at t [] h = absurd h
newer_files_complete deployed_at t (entry ∷ entries) (inl (same, v)) =
    let e = Evidence-is_newer deployed_at entry v in
    let f = (text_eq_iff t (relative entry)).1 same in rw (newer_files, e, mem_text, f) refl
newer_files_complete deployed_at t (entry ∷ entries) (inr h) =
    let rest = newer_files_complete deployed_at t entries h in
    elim (Bool-cases (is_newer deployed_at entry)) [
      | inl e ↦ rw (newer_files, e, mem_text, rest) (ground arith)
      | inr e ↦ rw (newer_files, e, rest) refl
    ]

-- With a stamp whose build time can be read, `modified_since_deploy` answers; what it answers is in order, and a
-- path is in it exactly if it is the relative path of a file of the code that changed more than a second after the
-- deploy: no part of its path, its own name included, is one that changes on its own, it is not the
-- stamp, and its time can be read.
pub modified_since_deploy_lem :
    (fromisoformat : Text → Option Moment) (reading : Reading) (entries : List Entry)
    (stamp : Dict Text) (moment : Moment)
    → read_stamp reading ≡ ok stamp
    → is_empty (get_or (lit "built") stamp []) ≡ false
    → fromisoformat (get_or (lit "built") stamp []) ≡ some moment
    → (files : List Text) × (modified_since_deploy fromisoformat reading entries ≡ ok files)
      × Ordered files
      × ((t : Text)
          → (mem_text t files ≡ true)
            ↔ Some (λ entry. (t ≡ relative entry) × Evidence moment.timestamp entry) entries)
unfolding modified_since_deploy
modified_since_deploy_lem fromisoformat reading entries stamp moment r given m =
    let newer = newer_files moment.timestamp entries in
    (
      sorted newer,
      rw (modified_since_deploy, r, given, m) refl,
      sorted-Ordered newer,
      λ t. (
        λ h. newer_files_sound moment.timestamp t entries (sym (mem-sorted t newer) ∙ h),
        λ h. mem-sorted t newer ∙ newer_files_complete moment.timestamp t entries h,
      ),
    )
