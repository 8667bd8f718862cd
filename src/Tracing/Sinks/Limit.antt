-- ===== src/Tracing/Sinks/Limit.antt =====
-- The size limit of the file tracer.
use neural_plus.Prelude.{
  ℕ, ◌+◌, ◌-◌, ◌≤◌, min, Bytes, ◌≡◌, refl, sym, subst, ◌∙◌, false, Bool-cases, not, ◌&&◌, ◌||◌, inl,
  inr, ◌⊎◌, List, [], ◌∷◌, length, ltb, leb, ◌==◌, arith, if◌then◌else◌,
}
use neural_plus.Exec.{continue}
use neural_plus.Tracing.Sinks.{
  FileTracer, FileTracerOptions, Stream, write_line, flush_line, store_line, append_line,
}

-- A stream that works, with `size` the number of bytes in its file: each write takes the whole text, and no
-- flush fails.
pub record Works {S : Type 0} (stream : Stream S) (size : S → ℕ) : Type 0 where
  pub writes : (text : Bytes) (file : S) → (stream.fwrite text file).0 ≡ length text
  pub grows : (text : Bytes) (file : S) → size (stream.fwrite text file).1 ≡ size file + length text
  pub flushes : (file : S) → (stream.fflush file).0 ≡ false
  pub keeps : (file : S) → size (stream.fflush file).1 ≡ size file

-- The size of a file after lines were offered to it: a line is taken where it fits in the limit, or where
-- there is no limit.
abbrev pub filled : ℕ → ℕ → List Bytes → ℕ
filled max_bytes size [] = size
filled max_bytes size (line ∷ lines) =
    if max_bytes == 0 || leb (size + length line) max_bytes
    then filled max_bytes (size + length line) lines
    else filled max_bytes size lines

filled-limit :
    (max_bytes size : ℕ) (lines : List Bytes)
    → (max_bytes ≡ 0)
      ⊎ ((filled max_bytes size lines ≤ max_bytes) ⊎ (filled max_bytes size lines ≡ size))
filled-limit max_bytes size [] = inr (inr refl)
filled-limit max_bytes size (line ∷ lines) =
    elim (Bool-cases (max_bytes == 0 || leb (size + length line) max_bytes)) [
      | inr e ↦ rw e (filled-limit max_bytes size lines)
      | inl e ↦
          let ih = filled-limit max_bytes (size + length line) lines in rw e (ground (arith, ih, e))
    ]

module _ {S : Type 0} (stream : Stream S) where
  -- The lines that were recorded, one after the other: the events that threw are among them.
  abbrev pub append_lines : List Bytes → FileTracer S → FileTracer S
  append_lines [] tracer = tracer
  append_lines (line ∷ lines) tracer = append_lines lines (append_line stream line tracer).1

  module _ (size : S → ℕ) (works : Works stream size) where
    -- The size after one line, and what the tracer counts.
    abbrev Counts : FileTracerOptions → ℕ → FileTracer S → Type 0
    Counts options n tracer =
        (tracer.options ≡ options) × (size tracer.file ≡ n) × (tracer.bytes_written ≡ n)

    store_line-Counts :
        (line : Bytes) (tracer : FileTracer S)
        → tracer.bytes_written ≡ size tracer.file
        → Counts tracer.options (size tracer.file + length line) (store_line stream line tracer).1
    unfolding store_line write_line flush_line continue
    store_line-Counts line tracer h =
        let file = (stream.fwrite line tracer.file).1 in
        let a = works.writes line tracer.file in
        let b = works.grows line tracer.file in
        let c = works.flushes file in let d = works.keeps file in ground (arith, a, b, c, d, h)

    -- The size after a line is offered.
    abbrev after : ℕ → ℕ → Bytes → ℕ
    after max_bytes n line =
        if max_bytes == 0 || leb (n + length line) max_bytes then n + length line else n

    append_line-Counts :
        (line : Bytes) (tracer : FileTracer S)
        → tracer.bytes_written ≡ size tracer.file
        → Counts tracer.options
            (after tracer.options.max_bytes (size tracer.file) line)
            (append_line stream line tracer).1
    unfolding append_line
    append_line-Counts line tracer h =
        let stored = store_line-Counts line tracer h in
        let max_bytes = tracer.options.max_bytes in
        elim (Bool-cases (
          not (max_bytes == 0)
          && ltb (max_bytes - min tracer.bytes_written max_bytes) (length line))) [
            | inl e ↦ rw (e, append_line) (ground (arith, e, h))
            | inr e ↦ rw (e, append_line) (ground (arith, e, h, stored))
          ]

    filled-after :
        (max_bytes n : ℕ) (line : Bytes) (lines : List Bytes)
        → filled max_bytes (after max_bytes n line) lines ≡ filled max_bytes n (line ∷ lines)
    filled-after max_bytes n line lines =
        elim (Bool-cases (max_bytes == 0 || leb (n + length line) max_bytes)) [
          | inl e ↦ rw e refl
          | inr e ↦ rw e refl
        ]

    append_lines-filled :
        (lines : List Bytes) (tracer : FileTracer S)
        → tracer.bytes_written ≡ size tracer.file
        → Counts tracer.options
            (filled tracer.options.max_bytes (size tracer.file) lines)
            (append_lines lines tracer)
    append_lines-filled [] tracer h = (refl, refl, h)
    append_lines-filled (line ∷ lines) tracer h =
        let next = (append_line stream line tracer).1 in
        let (o, a, b) = append_line-Counts line tracer h in
        let rest = append_lines-filled lines next (b ∙ sym a) in
        let n = size tracer.file in
        subst (λ (m : ℕ). Counts tracer.options m (append_lines lines next))
          (filled-after tracer.options.max_bytes n line lines)
          (subst
            (λ (options : FileTracerOptions).
              Counts options
                (filled options.max_bytes (after tracer.options.max_bytes n line) lines)
                (append_lines lines next))
            o
            (subst
              (λ (m : ℕ).
                Counts next.options (filled next.options.max_bytes m lines)
                  (append_lines lines next))
              a rest))

    -- On a stream that works, with a count of bytes that is the size of the file, the file has after any
    -- lines the size that taking exactly the lines that fit in `max_bytes` gives, the count still is that
    -- size, and the size is within `max_bytes` or, as for a file that was larger already, what it was,
    -- unless `max_bytes` is 0, for no limit.
    pub append_lines-size :
        (lines : List Bytes) (tracer : FileTracer S)
        → tracer.bytes_written ≡ size tracer.file
        → (size (append_lines lines tracer).file
            ≡ filled tracer.options.max_bytes (size tracer.file) lines)
          × ((append_lines lines tracer).bytes_written ≡ size (append_lines lines tracer).file)
          × ((tracer.options.max_bytes ≡ 0)
              ⊎ ((size (append_lines lines tracer).file ≤ tracer.options.max_bytes)
                  ⊎ (size (append_lines lines tracer).file ≡ size tracer.file)))
    append_lines-size lines tracer h =
        let (o, a, b) = append_lines-filled lines tracer h in
        let limit = filled-limit tracer.options.max_bytes (size tracer.file) lines in
        (a, b ∙ sym a, rw a limit)
