-- ===== src/Logging.antt =====
-- pkg/lumber/logio.go: the writer that turns what a command writes into messages of the logger, one for
-- each line. A text is the list of its bytes, and the messages logged so far are part of the state.
pub mod Lines
pub mod Tests
use test_at_scale.Prelude.{
  ℕ, zero, suc, Bool, true, false, ◌||◌, not, Option, none, some, List, [], ◌∷◌, ◌++◌, take, drop,
  length, ltb, ◌==◌, if◌then◌else◌,
}

abbrev pub Bytes : Type 0
Bytes = List ℕ

abbrev pub newline : ℕ
newline = 10

-- `buff`, and what `Log.Debugf` was called with.
pub record Writer : Type 0 where
  pub buff : Bytes
  pub logged : List Bytes

abbrev pub new_writer : Writer
new_writer = record { buff = []; logged = [] }

-- `bytes.IndexByte`, with `none` for -1.
abbrev pub index_byte : Bytes → ℕ → Option ℕ
index_byte [] c = none
index_byte (b ∷ bs) c =
    let rest = index_byte bs c in
    if b == c then some zero else (elim rest [ none ↦ none | some idx ↦ some (suc idx) ])

abbrev pub log : Writer → Bytes → Writer
log w b = record w { logged = w.logged ++ b ∷ [] }

abbrev pub flush : Writer → Bool → Writer
flush w allow_empty =
    let flushed = if allow_empty || ltb 0 (length w.buff) then log w w.buff else w in
    record flushed { buff = [] }

-- The writer and the remaining bytes, where the first newline was found.
abbrev pub split : Writer → Bytes → Option ℕ → Writer × Bytes
split w line none = (record w { buff = w.buff ++ line }, [])
split w line (some idx) = (
  if length w.buff == 0
      then log w (take idx line)
      else flush (record w { buff = w.buff ++ take idx line }) true,
  drop (suc idx) line,
)

unfoldable pub write_line : Writer → Bytes → Writer × Bytes
write_line w line = split w line (index_byte line newline)

-- The loop of `Write`, with `none` when the fuel is used up.
unfoldable pub write_lines : ℕ → Writer → Bytes → Option Writer
unfolding write_line
write_lines fuel w [] = some w
write_lines zero w (b ∷ bs) = none
write_lines (suc fuel) w (b ∷ bs) =
    let (w', remaining) = write_line w (b ∷ bs) in write_lines fuel w' remaining

unfoldable pub write : Writer → Bytes → Option Writer
unfolding write_lines
write w bs = write_lines (length bs) w bs

-- `Close`
unfoldable pub close : Writer → Writer
close w = flush w false

-- The writes of a command, one after the other.
unfoldable pub write_all : Writer → List Bytes → Option Writer
unfolding write
write_all w [] = some w
write_all w (bs ∷ rest) = elim (write w bs) [ none ↦ none | some w' ↦ write_all w' rest ]
