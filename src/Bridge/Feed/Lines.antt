-- ===== src/Bridge/Feed/Lines.antt =====
-- Lines of a feed, and reading one.
use autonomous_game_agent.Prelude.{
  ℕ, Bool-cases, inl, inr, true, false, List, [], ◌∷◌, ◌++◌, ◌≡◌, refl, sym, ap, ◌∙◌, length, ◌==◌,
  append_assoc, append-nil,
}
use autonomous_game_agent.Bridge.Feed.{Bytes, newline, drop, read_line, ends_with_newline}

-- A complete line: no newline but the last byte.
abbrev pub IsLine : Bytes → Type 0
IsLine [] = ⊥
IsLine (b ∷ []) = (b == newline) ≡ true
IsLine (b ∷ c ∷ bytes) = ((b == newline) ≡ false) × IsLine (c ∷ bytes)

pub drop-append : (xs ys : Bytes) → drop (length xs) (xs ++ ys) ≡ ys
unfolding drop
drop-append [] ys = refl
drop-append (x ∷ xs) ys = drop-append xs ys

pub read_line-append : (line more : Bytes) → IsLine line → read_line (line ++ more) ≡ line
unfolding read_line
read_line-append [] more h = absurd h
read_line-append (b ∷ []) more h = rw h refl
read_line-append (b ∷ c ∷ bytes) more h =
    rw h.0 (ap (λ x. b ∷ x) (read_line-append (c ∷ bytes) more h.1))

pub IsLine-ends_with_newline : (line : Bytes) → IsLine line → ends_with_newline line ≡ true
unfolding ends_with_newline
IsLine-ends_with_newline [] h = absurd h
IsLine-ends_with_newline (b ∷ []) h = h
IsLine-ends_with_newline (b ∷ c ∷ bytes) h = IsLine-ends_with_newline (c ∷ bytes) h.1

longer :
    (b : ℕ) (line bytes : Bytes)
    → (b == newline) ≡ false
    → ends_with_newline (b ∷ line) ≡ true
    → (ends_with_newline line ≡ true → IsLine line × ((more : Bytes) × (bytes ≡ line ++ more)))
    → IsLine (b ∷ line) × ((more : Bytes) × (b ∷ bytes ≡ b ∷ (line ++ more)))
unfolding ends_with_newline
longer b [] bytes e h rest = absurd (let k : true ≡ false = sym h ∙ e in cc)
longer b (c ∷ line) bytes e h rest =
    let (is_line, (more, same)) = rest h in ((e, is_line), (more, ap (λ x. b ∷ x) same))

-- Where what is read ends with a newline it is a complete line, and the bytes begin with it.
pub read_line-IsLine :
    (bytes : Bytes)
    → ends_with_newline (read_line bytes) ≡ true
    → IsLine (read_line bytes) × ((more : Bytes) × (bytes ≡ read_line bytes ++ more))
unfolding read_line ends_with_newline
read_line-IsLine [] h = absurd (cc)
read_line-IsLine (b ∷ bytes) h = elim (Bool-cases (b == newline)) [
  | inl e ↦ rw e (e, (bytes, refl))
  | inr e ↦ rw e (longer b (read_line bytes) bytes e (rw e at h) (read_line-IsLine bytes))
]

-- the bytes of lines that follow one another
unfoldable pub concat : List Bytes → Bytes
concat [] = []
concat (line ∷ lines) = line ++ concat lines

pub concat-snoc :
    (lines : List Bytes) (line : Bytes) → concat (lines ++ line ∷ []) ≡ concat lines ++ line
unfolding concat
concat-snoc [] line = append-nil line
concat-snoc (l ∷ lines) line =
    ap (λ x. l ++ x) (concat-snoc lines line) ∙ sym (append_assoc l (concat lines) line)
