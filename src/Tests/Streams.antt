-- ===== src/Tests/Streams.antt =====
-- A stream that comes in two reads.
use herdr_context.Base.{List, [], ◌∷◌, arith}
use herdr_context.Vcs.Reader.{
  ReadResult, chunk, interrupted, content, read_limited, Limited, read_limited-Limited,
}

abbrev two_reads : List ReadResult
two_reads = chunk (1 ∷ 2 ∷ []) ∷ interrupted ∷ chunk (3 ∷ []) ∷ []

read_limited-Limited_example : Limited 3 (content two_reads) (read_limited 3 two_reads [])
read_limited-Limited_example = read_limited-Limited 3 two_reads [] (omega arith)
