-- ===== src/FolderShare/Frames/Roundtrip.antt =====
-- Reading gives the files that were written, and refuses more files than a batch may have.
use file_sync_engine.Prelude.{
  ℕ, zero, suc, ◌+◌, ◌≤◌, ◌<◌, ◌≡◌, Bool, true, false, none, some, List, [], ◌∷◌, ◌++◌, ltb, ◌==◌,
  if◌then◌else◌, arith, refl, Bool-cases, inl, inr, ap, sym, ◌∙◌,
}
use mathlib.Core.List.{append_assoc, append-nil}
use file_sync_engine.Prelude.Lists.{length, take-append, drop-append, length-append}
use file_sync_engine.FolderShare.Transfer.{small_file_batch_count}
use file_sync_engine.FolderShare.Frames.{
  transfer_block_size, max_path_length, BatchFile, write_u32, word, read_u32, does_not_fit,
  write_frame, BatchWrite, write_file_batch, frame, read_body, read_path, read_frames,
  read_file_batch,
}

read_u32-write_u32 :
    (n : ℕ) (rest : List ℕ) → n < 4294967296 → read_u32 (write_u32 n ++ rest) ≡ word n rest
unfolding read_u32 write_u32
read_u32-write_u32 n rest small = ap (λ k. word k rest) (omega arith)

read_body-lem :
    (path data_bytes rest : List ℕ)
    → ltb transfer_block_size (length data_bytes) ≡ false
    → read_body path (word (length data_bytes) (data_bytes ++ rest))
      ≡ frame (record { path = path; data_bytes = data_bytes }) rest
unfolding read_body
read_body-lem path data_bytes rest fits =
    ground (
      arith,
      take-append data_bytes rest,
      drop-append data_bytes rest,
      length-append data_bytes rest,
    )

frame_parts :
    (file : BatchFile) (rest : List ℕ)
    → write_frame file ++ rest
      ≡ write_u32 (length file.path)
        ++ (file.path ++ (write_u32 (length file.data_bytes) ++ (file.data_bytes ++ rest)))
unfolding write_frame
frame_parts file rest =
    rw
      (
        append_assoc
            (write_u32 (length file.path) ++ file.path ++ write_u32 (length file.data_bytes))
            file.data_bytes rest,
        append_assoc (write_u32 (length file.path) ++ file.path)
            (write_u32 (length file.data_bytes)) (file.data_bytes ++ rest),
        append_assoc (write_u32 (length file.path)) file.path
            (write_u32 (length file.data_bytes) ++ (file.data_bytes ++ rest)),
      )
      refl

read_path-lem :
    (path tail : List ℕ)
    → length path == 0 ≡ false
    → ltb max_path_length (length path) ≡ false
    → read_path (word (length path) (path ++ tail)) ≡ read_body path (read_u32 tail)
unfolding read_path
read_path-lem path tail named fits =
    ground (arith, take-append path tail, drop-append path tail, length-append path tail)

read_frame-lem :
    (file : BatchFile) (rest : List ℕ)
    → does_not_fit file ≡ false
    → read_path (read_u32 (write_frame file ++ rest)) ≡ frame file rest
unfolding does_not_fit
read_frame-lem file rest fits =
    ap (λ b. read_path (read_u32 b)) (frame_parts file rest)
    ∙ ap read_path (read_u32-write_u32 (length file.path) _ (ground arith))
    ∙ read_path-lem file.path _ (ground arith) (ground arith)
    ∙ ap (read_body file.path) (read_u32-write_u32 (length file.data_bytes) _ (ground arith))
    ∙ read_body-lem file.path file.data_bytes rest (ground arith)

read_end : (fuel : ℕ) (out : List BatchFile) → 1 ≤ fuel → read_frames fuel out [] ≡ some out
unfolding read_frames read_path read_u32
read_end zero out more = absurd (omega arith)
read_end (suc fuel) out more = refl

read_step :
    (fuel : ℕ) (out : List BatchFile) (bytes rest : List ℕ) (file : BatchFile)
    → read_path (read_u32 bytes) ≡ frame file rest
    → length out + 1 ≤ small_file_batch_count
    → read_frames (suc fuel) out bytes ≡ read_frames fuel (out ++ (file ∷ [])) rest
unfolding read_frames
read_step fuel out bytes rest file read few =
    rw (read, read_frames) (ground (arith, length-append out (file ∷ [])))

-- A result that did not fail is the one of the second branch, where the first branch fails.
taken_else :
    (b : Bool) (x y : BatchWrite)
    → x.failed ≡ true
    → (if b then x else y).failed ≡ false
    → (b ≡ false) × ((if b then x else y) ≡ y)
taken_else true x y fails whole = absurd (ground (arith, fails, whole))
taken_else false x y fails whole = (refl, refl)

-- A batch that was written whole starts with a file that fits, and the rest was written whole.
written_parts :
    (file : BatchFile) (files : List BatchFile)
    → (write_file_batch (file ∷ files)).failed ≡ false
    → (does_not_fit file ≡ false)
      × ((write_file_batch files).failed ≡ false)
      × ((write_file_batch (file ∷ files)).written
          ≡ write_frame file ++ (write_file_batch files).written)
unfolding write_file_batch
written_parts file files whole =
    let rest = write_file_batch files in
    let parts =
      taken_else (does_not_fit file) (record { written = []; failed = true })
        (record { written = write_frame file ++ rest.written; failed = rest.failed }) refl whole in
    (
      parts.0,
      ap (λ (w : BatchWrite). w.failed) (sym parts.1) ∙ whole,
      ap (λ (w : BatchWrite). w.written) parts.1,
    )

frame_takes_bytes :
    (file : BatchFile) (rest : List ℕ) → length rest < length (write_frame file ++ rest)
unfolding write_frame write_u32
frame_takes_bytes file rest = ground (arith, length-append (write_frame file) rest)

read_frames-write :
    (files out : List BatchFile) (fuel : ℕ)
    → (write_file_batch files).failed ≡ false
    → length (write_file_batch files).written < fuel
    → length out + length files ≤ small_file_batch_count
    → read_frames fuel out (write_file_batch files).written ≡ some (out ++ files)
unfolding write_file_batch
read_frames-write [] out fuel whole enough few =
    read_end fuel out (omega (arith, enough)) ∙ ap some (sym (append-nil out))
read_frames-write (file ∷ files) out zero whole enough few = absurd (omega arith)
read_frames-write (file ∷ files) out (suc fuel) whole enough few =
    let parts = written_parts file files whole in
    let rest =
      read_frames-write files (out ++ (file ∷ [])) fuel parts.1
        (ground (
          arith,
          enough,
          parts.2,
          ap length parts.2,
          frame_takes_bytes file (write_file_batch files).written,
        ))
        (ground (arith, length-append out (file ∷ []))) in
    ap (read_frames (suc fuel) out) parts.2
    ∙ read_step fuel out _ _ file (read_frame-lem file (write_file_batch files).written parts.0)
        (omega (arith, few))
    ∙ rest
    ∙ ap some (append_assoc out (file ∷ []) files)

-- Reading a batch that was written without an error gives the files that were written, provided
-- there are no more of them than a batch may have.
pub read_file_batch-write_file_batch :
    (files : List BatchFile)
    → (write_file_batch files).failed ≡ false
    → length files ≤ small_file_batch_count
    → read_file_batch (write_file_batch files).written ≡ some files
unfolding read_file_batch
read_file_batch-write_file_batch files whole few =
    read_frames-write files [] (suc (length (write_file_batch files).written)) whole (omega arith)
      (omega (arith, few))

read_over :
    (fuel : ℕ) (out : List BatchFile) (bytes rest : List ℕ) (file : BatchFile)
    → read_path (read_u32 bytes) ≡ frame file rest
    → small_file_batch_count < length out + 1
    → read_frames (suc fuel) out bytes ≡ none
unfolding read_frames
read_over fuel out bytes rest file read many =
    rw (read, read_frames) (ground (arith, length-append out (file ∷ [])))

read_frames-many :
    (files out : List BatchFile) (fuel : ℕ)
    → (write_file_batch files).failed ≡ false
    → length (write_file_batch files).written < fuel
    → length out ≤ small_file_batch_count
    → small_file_batch_count < length out + length files
    → read_frames fuel out (write_file_batch files).written ≡ none
read_frames-many [] out fuel whole enough few many = absurd (omega (arith, few, many))
read_frames-many (file ∷ files) out zero whole enough few many = absurd (omega arith)
read_frames-many (file ∷ files) out (suc fuel) whole enough few many =
    let parts = written_parts file files whole in
    let read =
      ap (λ b. read_path (read_u32 b)) parts.2
      ∙ read_frame-lem file (write_file_batch files).written parts.0 in
    let rest = read_frames-many files (out ++ (file ∷ [])) fuel parts.1 (
      ground (
        arith,
        enough,
        parts.2,
        ap length parts.2,
        frame_takes_bytes file (write_file_batch files).written,
      )) in
    elim (Bool-cases (ltb small_file_batch_count (length out + 1))) [
      | inl over ↦ read_over fuel out _ _ file read (ground (arith, over))
      | inr fits ↦
          read_step fuel out _ _ file read (ground (arith, fits))
          ∙ rest (ground (arith, fits, length-append out (file ∷ [])))
              (ground (arith, many, length-append out (file ∷ [])))
    ]

-- Reading refuses a batch of more than 32 files, although it was written without an error.
pub read_file_batch_many :
    (files : List BatchFile)
    → (write_file_batch files).failed ≡ false
    → small_file_batch_count < length files
    → read_file_batch (write_file_batch files).written ≡ none
unfolding read_file_batch
read_file_batch_many files whole many =
    read_frames-many files [] (suc (length (write_file_batch files).written)) whole (omega arith)
      (omega arith) (omega (arith, many))
