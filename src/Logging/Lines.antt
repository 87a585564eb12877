-- ===== src/Logging/Lines.antt =====
-- The messages that the writer of pkg/lumber/logio.go makes of what is written.
use test_at_scale.Prelude.{
  ℕ, zero, suc, ◌≤◌, arith, ◌≡◌, refl, sym, ap, ◌∙◌, true, false, Option, none, some, List, [], ◌∷◌,
  ◌++◌, take, drop, length, ltb, ◌==◌, if◌then◌else◌, Bool-cases, inl, inr,
}
use mathlib.Core.List.{append-nil, append_assoc}
use test_at_scale.Logging.{
  Bytes, newline, Writer, new_writer, index_byte, log, flush, split, write_line, write_lines, write,
  close, write_all,
}

-- The lines that `bs` ends after a line that began with `line`, and how the last one began.
abbrev pub cut : Bytes → Bytes → List Bytes × Bytes
cut line [] = ([], line)
cut line (b ∷ bs) = elim (b == newline) [
  | true ↦ (line ∷ (cut [] bs).0, (cut [] bs).1)
  | false ↦ cut (line ++ b ∷ []) bs
]

abbrev pub concat : List Bytes → Bytes
concat [] = []
concat (bs ∷ rest) = bs ++ concat rest

-- The lines of a text, and its last one unless it is empty.
abbrev pub lines_of : Bytes → List Bytes
lines_of bs =
    let (lines, last) = cut [] bs in lines ++ (elim last [ [] ↦ [] | b ∷ rest ↦ (b ∷ rest) ∷ [] ])

-- The same, up to the first newline, at `found`.
abbrev cut_at : Option ℕ → Bytes → Bytes → List Bytes × Bytes
cut_at none line bs = ([], line ++ bs)
cut_at (some idx) line bs =
    let (lines, last) = cut [] (drop (suc idx) bs) in ((line ++ take idx bs) ∷ lines, last)

cut_at-later :
    (found : Option ℕ) (line : Bytes) (b : ℕ) (bs : Bytes)
    → cut_at found (line ++ b ∷ []) bs
      ≡ cut_at (elim found [ none ↦ none | some idx ↦ some (suc idx) ]) line (b ∷ bs)
cut_at-later none line b bs = ap (λ x. ([], x)) (append_assoc line (b ∷ []) bs)
cut_at-later (some idx) line b bs =
    ap (λ x. (x ∷ (cut [] (drop (suc idx) bs)).0, (cut [] (drop (suc idx) bs)).1))
      (append_assoc line (b ∷ []) (take idx bs))

cut-index_byte : (line bs : Bytes) → cut line bs ≡ cut_at (index_byte bs newline) line bs
cut-index_byte line [] = ap (λ x. ([], x)) (sym (append-nil line))
cut-index_byte line (b ∷ bs) = elim (Bool-cases (b == newline)) [
  | inl ends ↦ rw (ends, cut, append-nil line) refl
  | inr goes_on ↦
      rw (goes_on, cut)
        (cut-index_byte (line ++ b ∷ []) bs ∙ cut_at-later (index_byte bs newline) line b bs)
]

-- The writer after bytes that were cut so.
abbrev pub with_lines : Writer → List Bytes × Bytes → Writer
with_lines w (lines, last) = record { buff = last; logged = w.logged ++ lines }

-- A line that is logged at once, or from the buffer.
write_line-ended :
    (logged : List Bytes) (buff line : Bytes)
    → (if length buff == 0
        then log (record { buff = buff; logged = logged }) line
        else flush (record { buff = buff ++ line; logged = logged }) true)
      ≡ record { buff = []; logged = logged ++ (buff ++ line) ∷ [] }
write_line-ended logged [] line = refl
write_line-ended logged (b ∷ buff) line =
    let filled : (suc (length buff) == 0) ≡ false = ground arith in rw filled refl

length-drop-suc : (n k : ℕ) (bs : Bytes) → length bs ≤ suc k → length (drop (suc n) bs) ≤ k
length-drop-suc n k [] h = omega arith
length-drop-suc zero k (b ∷ bs) h = omega (arith, h)
length-drop-suc (suc n) zero (b ∷ []) h = omega arith
length-drop-suc (suc n) zero (b ∷ c ∷ bs) h = absurd (omega (arith, h))
length-drop-suc (suc n) (suc k) (b ∷ bs) h =
    omega (arith, length-drop-suc n k bs (omega (arith, h)))

-- What one call of `writeLine` logs and keeps, and what the loop makes of what it leaves.
write_lines-split :
    (fuel : ℕ) (logged : List Bytes) (buff bs : Bytes) (found : Option ℕ)
    → ((w : Writer) (rest : Bytes)
        → length rest ≤ fuel
        → write_lines fuel w rest ≡ some (with_lines w (cut w.buff rest)))
    → length bs ≤ suc fuel
    → let was : Writer = record { buff = buff; logged = logged } in
      write_lines fuel (split was bs found).0 (split was bs found).1
      ≡ some (with_lines was (cut_at found buff bs))
write_lines-split fuel logged buff bs none later h = later _ [] (omega arith)
write_lines-split fuel logged buff bs (some idx) later h =
    let rest = drop (suc idx) bs in
    let ended = (buff ++ take idx bs) ∷ [] in
    ap (λ w. write_lines fuel w rest) (write_line-ended logged buff (take idx bs))
    ∙ later (record { buff = []; logged = logged ++ ended }) rest (length-drop-suc idx fuel bs h)
    ∙ ap (λ l. some (record { buff = (cut [] rest).1; logged = l }))
        (append_assoc logged ended (cut [] rest).0)

write_lines-cut :
    (fuel : ℕ) (w : Writer) (bs : Bytes)
    → length bs ≤ fuel
    → write_lines fuel w bs ≡ some (with_lines w (cut w.buff bs))
unfolding write_lines write_line
write_lines-cut fuel w [] h =
    ap (λ l. some (record { buff = w.buff; logged = l })) (sym (append-nil w.logged))
write_lines-cut zero w (b ∷ bs) h = absurd (omega (arith, h))
write_lines-cut (suc fuel) w (b ∷ bs) h =
    write_lines-split fuel w.logged w.buff (b ∷ bs) (index_byte (b ∷ bs) newline)
      (write_lines-cut fuel) h
    ∙ ap (λ c. some (with_lines w c)) (sym (cut-index_byte w.buff (b ∷ bs)))

cut-append :
    (line xs ys : Bytes)
    → cut line (xs ++ ys)
      ≡ let (first, mid) = cut line xs in let (second, last) = cut mid ys in (first ++ second, last)
cut-append line [] ys = refl
cut-append line (b ∷ xs) ys = elim (Bool-cases (b == newline)) [
  | inl ends ↦ rw (ends, cut) (ap (λ c. (line ∷ c.0, c.1)) (cut-append [] xs ys))
  | inr goes_on ↦ rw (goes_on, cut) (cut-append (line ++ b ∷ []) xs ys)
]

write_all-cut :
    (w : Writer) (chunks : List Bytes)
    → write_all w chunks ≡ some (with_lines w (cut w.buff (concat chunks)))
unfolding write_all write
write_all-cut w [] =
    ap (λ l. some (record { buff = w.buff; logged = l })) (sym (append-nil w.logged))
write_all-cut w (bs ∷ rest) =
    let (first, mid) = cut w.buff bs in
    let (second, last) = cut mid (concat rest) in
    rw (write_lines-cut (length bs) w bs (omega arith), write_all)
      (write_all-cut (with_lines w (first, mid)) rest
        ∙ ap (λ l. some (record { buff = last; logged = l })) (append_assoc w.logged first second)
        ∙ ap (λ c. some (with_lines w c)) (sym (cut-append w.buff bs (concat rest))))

close-lines :
    (lines : List Bytes) (last : Bytes)
    → close (record { buff = last; logged = lines })
      ≡ record { buff = []; logged = lines ++ (elim last [ [] ↦ [] | b ∷ rest ↦ (b ∷ rest) ∷ [] ]) }
unfolding close
close-lines lines [] = ap (λ l. record { buff = []; logged = l }) (sym (append-nil lines))
close-lines lines (b ∷ rest) =
    let filled : ltb 0 (suc (length rest)) ≡ true = ground arith in rw filled refl

-- However a text is cut into writes, every write returns, and after `Close` the logger has been given its
-- lines, each as one message and in order, the empty ones included, and then what follows the last
-- newline, unless that is empty.
pub write_all-lines_of :
    (chunks : List Bytes)
    → (w : Writer) × (write_all new_writer chunks ≡ some w)
      × (close w ≡ record { buff = []; logged = lines_of (concat chunks) })
write_all-lines_of chunks =
    let (lines, last) = cut [] (concat chunks) in
    (_, write_all-cut new_writer chunks, close-lines lines last)
