-- ===== src/Logging/Tests.antt =====
-- Two lines and a rest that come in three writes: "a", "b\n\nc" and "d".
use test_at_scale.Prelude.{◌≡◌, refl, some, List, [], ◌∷◌}
use test_at_scale.Logging.{
  Bytes, Writer, new_writer, write_line, write_lines, write, close, write_all,
}
use test_at_scale.Logging.Lines.{write_all-lines_of}

abbrev chunks : List Bytes
chunks = (97 ∷ []) ∷ (98 ∷ 10 ∷ 10 ∷ 99 ∷ []) ∷ (100 ∷ []) ∷ []

logs :
    write_all new_writer chunks
    ≡ some (record { buff = 99 ∷ 100 ∷ []; logged = (97 ∷ 98 ∷ []) ∷ [] ∷ [] })
unfolding write_all write write_lines write_line
logs = refl

write_all-lines_of_example :
    (w : Writer) × (write_all new_writer chunks ≡ some w)
    × (close w ≡ record { buff = []; logged = (97 ∷ 98 ∷ []) ∷ [] ∷ (99 ∷ 100 ∷ []) ∷ [] })
write_all-lines_of_example = write_all-lines_of chunks
