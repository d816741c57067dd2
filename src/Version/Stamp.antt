-- ===== src/Version/Stamp.antt =====
-- That `_read_stamp` of core/version.py reads back what a deploy writes.
use emma.Common.{
  ℕ, ◌≡◌, refl, ap, sym, ◌∙◌, Bool, false, some, List, [], ◌∷◌, ◌++◌, append_assoc, Text, strip,
  insert, Dict, All, ok, arith, ◌==◌, ◌&&◌, if◌then◌else◌,
}
use emma.Config.{contents}
use emma.Version.{
  is_line_end, in_first, starts_newline, split_lines, partition, put_line, put_lines, read_stamp,
}

-- `key=value` lines, as scripts/deploy.sh writes them.
pub written : List (Text × Text) → Text
written [] = []
written ((k, v) ∷ pairs) = k ++ (61 ∷ (v ++ (10 ∷ written pairs)))

-- The pairs as a dictionary, the later of two with the same key winning.
pub dict_of : List (Text × Text) → Dict Text → Dict Text
dict_of [] d = d
dict_of ((k, v) ∷ pairs) d = dict_of pairs (insert k v d)

-- What the key and the value of a line keep from meaning something else: no blanks at their ends, no end of a line
-- in them, and no equals sign in the key.
pub record IsPlain (pair : Text × Text) : Type 0 where
  pub key_stripped : strip pair.0 ≡ pair.0
  pub value_stripped : strip pair.1 ≡ pair.1
  pub key_in_line : All (λ c. is_line_end c ≡ false) pair.0
  pub value_in_line : All (λ c. is_line_end c ≡ false) pair.1
  pub key_before : All (λ c. (c == 61) ≡ false) pair.0

partition-append :
    (k v : Text) → All (λ c. (c == 61) ≡ false) k → partition (k ++ (61 ∷ v)) ≡ some (k, v)
unfolding partition
partition-append [] v h = refl
partition-append (c ∷ k) v h = rw (partition, h.0, partition-append k v h.1) refl

not_return : (c : ℕ) → is_line_end c ≡ false → (c == 13) ≡ false
unfolding is_line_end
not_return c h = ground arith

split_lines-cons :
    (c : ℕ) (cs : Text) → is_line_end c ≡ false → split_lines (c ∷ cs) ≡ in_first c (split_lines cs)
unfolding split_lines
split_lines-cons c cs h =
    let rest = split_lines cs in
    let ends : List Text = [] ∷ rest in
    let goes : List Text = in_first c rest in
    ap (λ (b : Bool). if b && starts_newline cs then rest else if is_line_end c then ends else goes)
      (not_return c h)
    ∙ ap (λ (b : Bool). if b then ends else goes) h

split_lines-append :
    (l rest : Text)
    → All (λ c. is_line_end c ≡ false) l
    → split_lines (l ++ (10 ∷ rest)) ≡ l ∷ split_lines rest
unfolding split_lines
split_lines-append [] rest h = refl
split_lines-append (c ∷ l) rest h =
    split_lines-cons c (l ++ (10 ∷ rest)) h.0 ∙ ap (in_first c) (split_lines-append l rest h.1)

All-append : (P : ℕ → Type 0) (xs ys : Text) → All P xs → All P ys → All P (xs ++ ys)
All-append P [] ys h k = k
All-append P (x ∷ xs) ys h k = (h.0, All-append P xs ys h.1 k)

put_line-plain :
    (pair : Text × Text) (d : Dict Text)
    → IsPlain pair
    → put_line (pair.0 ++ (61 ∷ pair.1)) d ≡ insert pair.0 pair.1 d
unfolding put_line
put_line-plain (k, v) d p =
    rw (put_line, partition-append k v p.key_before, p.key_stripped, p.value_stripped) refl

put_lines-written :
    (pairs : List (Text × Text)) (d : Dict Text)
    → All IsPlain pairs
    → put_lines (split_lines (written pairs)) d ≡ dict_of pairs d
unfolding put_lines written dict_of split_lines
put_lines-written [] d h = refl
put_lines-written ((k, v) ∷ pairs) d h =
    let line : Text = k ++ (61 ∷ v) in
    let in_line : All (λ c. is_line_end c ≡ false) line =
      All-append _ k (61 ∷ v) h.0.key_in_line (refl, h.0.value_in_line) in
    ap (λ t. put_lines (split_lines t) d) (sym (append_assoc k (61 ∷ v) (10 ∷ written pairs)))
    ∙ ap (λ ls. put_lines ls d) (split_lines-append line (written pairs) in_line)
    ∙ ap (put_lines (split_lines (written pairs))) (put_line-plain (k, v) d h.0)
    ∙ put_lines-written pairs (insert k v d) h.1

-- The stamp that a deploy writes reads back: `_read_stamp` answers the dictionary of the pairs that were written,
-- if keys and values have no blanks at their ends and no line ends in them, and the keys no equals sign. The value
-- may have one.
pub read_stamp-written :
    (pairs : List (Text × Text))
    → All IsPlain pairs
    → read_stamp (contents (written pairs)) ≡ ok (dict_of pairs [])
unfolding read_stamp
read_stamp-written pairs h = ap ok (put_lines-written pairs [] h)
