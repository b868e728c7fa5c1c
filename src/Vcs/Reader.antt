-- ===== src/Vcs/Reader.antt =====
-- The limited reading of a child's stream in src/vcs/git.rs, over what each read gives. The growth
-- of the buffer's capacity is left out.
use herdr_context.Base.{
  append_assoc, append_nil, Bool, Option, none, some, ℕ, ◌-◌, ◌≤◌, ◌<◌, ◌≡◌, sym, subst, List, [],
  ◌∷◌, ◌++◌, arith, length, length-append, ltb, ◌==◌, nat_eq, if◌then◌else◌, inl, inr, Bool-cases,
}

-- What a read of the stream gives: some bytes, none at its end, or an error.
pub data ReadResult : Type 0 where
  chunk : List ℕ → ReadResult
  interrupted failed : ReadResult

pub data ReadOutcome : Type 0 where
  finished : List ℕ → ReadOutcome
  exceeded read_error : ReadOutcome

-- The flag `exceeded` is set in the outcome of that name alone. The list ends where the stream does.
unfoldable pub read_limited : ℕ → List ReadResult → List ℕ → ReadOutcome
unfolding nat_eq
read_limited limit [] bytes = finished bytes
read_limited limit (interrupted ∷ reads) bytes = read_limited limit reads bytes
read_limited limit (failed ∷ reads) bytes = read_error
read_limited limit (chunk buffer ∷ reads) bytes =
    let rest = read_limited limit reads (bytes ++ buffer) in
    if length buffer == 0
    then finished bytes
    else if ltb (limit - length bytes) (length buffer)
    then exceeded
    else rest

-- The bytes of the stream up to its end.
abbrev pub content : List ReadResult → List ℕ
content [] = []
content (interrupted ∷ reads) = content reads
content (failed ∷ reads) = []
content (chunk buffer ∷ reads) =
    let rest = content reads in if length buffer == 0 then [] else buffer ++ rest

abbrev pub Limited : ℕ → List ℕ → ReadOutcome → Type 0
Limited limit all (finished bytes) = (bytes ≡ all) × (length bytes ≤ limit)
Limited limit all exceeded = limit < length all
Limited limit all read_error = Unit

-- A stream that is read to its end gives all its bytes, after those read before, and they are no
-- more than the limit; one that is given up for its length has more bytes than the limit.
pub read_limited-Limited :
    (limit : ℕ) (reads : List ReadResult) (bytes : List ℕ)
    → length bytes ≤ limit
    → Limited limit (bytes ++ content reads) (read_limited limit reads bytes)
unfolding read_limited
read_limited-Limited limit [] bytes h = ground (arith, append_nil bytes)
read_limited-Limited limit (interrupted ∷ reads) bytes h = read_limited-Limited limit reads bytes h
read_limited-Limited limit (failed ∷ reads) bytes h = tt
read_limited-Limited limit (chunk buffer ∷ reads) bytes h = elim (Bool-cases (length buffer == 0)) [
  | inl done ↦ rw (done, read_limited) (sym (append_nil bytes), h)
  | inr some_bytes ↦ elim (Bool-cases (ltb (limit - length bytes) (length buffer))) [
    | inl long ↦
        rw (some_bytes, long, read_limited)
          (ground (
            arith,
            long,
            length-append bytes (buffer ++ content reads),
            length-append buffer (content reads),
          ))
    | inr fits ↦
        rw (some_bytes, fits, read_limited)
          (subst (λ all. Limited limit all (read_limited limit reads (bytes ++ buffer)))
            (sym (append_assoc bytes buffer (content reads)))
            (read_limited-Limited limit reads (bytes ++ buffer)
              (ground (arith, fits, length-append bytes buffer, h))))
  ]
]

pub data Stream : Type 0 where
  stdout stderr : Stream

-- The stream whose flag is set, with its limit; the output comes before the errors.
unfoldable pub exceeded_limit :
    (stdout_exceeded : Bool) (stdout_limit : ℕ) (stderr_exceeded : Bool) (stderr_limit : ℕ)
    → Option (Stream × ℕ)
exceeded_limit stdout_exceeded stdout_limit stderr_exceeded stderr_limit =
    if stdout_exceeded
    then some (stdout, stdout_limit)
    else if stderr_exceeded
    then some (stderr, stderr_limit)
    else none
