-- ===== src/FolderShare/Frames.antt =====
-- internal/foldershare/batch.go: the frames in which the bodies of small files are sent. A string
-- of Go is its bytes. Errors of the writer and the reader themselves are not modelled.
pub mod Roundtrip
use file_sync_engine.Prelude.{
  ℕ, zero, suc, ◌+◌, ◌*◌, ◌/◌, ◌%◌, ◌≡◌, Bool, true, false, ◌||◌, Option, none, some, List, [], ◌∷◌,
  ◌++◌, ltb, ◌==◌, if◌then◌else◌,
}
use file_sync_engine.Prelude.Lists.{length, take, drop}
use file_sync_engine.FolderShare.Transfer.{small_file_batch_count}

abbrev pub transfer_block_size : ℕ
transfer_block_size = 4194304

abbrev pub max_path_length : ℕ
max_path_length = 4096

pub record BatchFile : Type 0 where
  pub path : List ℕ
  pub data_bytes : List ℕ

-- `binary.Write` of a uint32, big endian.
unfoldable pub write_u32 : ℕ → List ℕ
write_u32 n = (n / 16777216 % 256) ∷ (n / 65536 % 256) ∷ (n / 256 % 256) ∷ (n % 256) ∷ []

pub data ReadWord : Type 0 where
  at_end : ReadWord
  too_short : ReadWord
  word : ℕ → List ℕ → ReadWord

-- `binary.Read` of a uint32, with the bytes that are left.
unfoldable pub read_u32 : List ℕ → ReadWord
read_u32 [] = at_end
read_u32 (a ∷ []) = too_short
read_u32 (a ∷ b ∷ []) = too_short
read_u32 (a ∷ b ∷ c ∷ []) = too_short
read_u32 (a ∷ b ∷ c ∷ d ∷ rest) = word (a * 16777216 + b * 65536 + c * 256 + d) rest

unfoldable pub does_not_fit : BatchFile → Bool
does_not_fit file =
    length file.path == 0
    || ltb max_path_length (length file.path)
    || ltb transfer_block_size (length file.data_bytes)

unfoldable pub write_frame : BatchFile → List ℕ
unfolding write_u32
write_frame file =
    write_u32 (length file.path)
    ++ file.path
    ++ write_u32 (length file.data_bytes)
    ++ file.data_bytes

-- What was written, and whether a file did not fit, which ends the loop.
pub record BatchWrite : Type 0 where
  pub written : List ℕ
  pub failed : Bool

-- `WriteFileBatch`.
unfoldable pub write_file_batch : List BatchFile → BatchWrite
unfolding does_not_fit write_frame
write_file_batch [] = record { written = []; failed = false }
write_file_batch (file ∷ files) =
    let rest = write_file_batch files in
    if does_not_fit file
    then record { written = []; failed = true }
    else record { written = write_frame file ++ rest.written; failed = rest.failed }

pub data ReadFrame : Type 0 where
  no_frame : ReadFrame
  bad_frame : ReadFrame
  frame : BatchFile → List ℕ → ReadFrame

-- The body of a frame, after its path; `io.ReadFull` fails on fewer bytes than the length says.
unfoldable pub read_body : List ℕ → ReadWord → ReadFrame
read_body path at_end = bad_frame
read_body path too_short = bad_frame
read_body path (word data_length bytes) =
    if ltb transfer_block_size data_length || ltb (length bytes) data_length
    then bad_frame
    else frame (record { path = path; data_bytes = take data_length bytes })
        (drop data_length bytes)

unfoldable pub read_path : ReadWord → ReadFrame
unfolding read_body read_u32
read_path at_end = no_frame
read_path too_short = bad_frame
read_path (word path_length bytes) =
    if path_length == 0 || ltb max_path_length path_length || ltb (length bytes) path_length
    then bad_frame
    else read_body (take path_length bytes) (read_u32 (drop path_length bytes))

-- The loop of `ReadFileBatch`, with the files it has read; `none` is an error.
unfoldable pub read_frames : ℕ → List BatchFile → List ℕ → Option (List BatchFile)
unfolding read_path read_u32
read_frames zero out bytes = none
read_frames (suc fuel) out bytes = elim (read_path (read_u32 bytes)) [
  | no_frame ↦ some out
  | bad_frame ↦ none
  | frame file rest ↦
      let more = read_frames fuel (out ++ (file ∷ [])) rest in
      if ltb small_file_batch_count (length (out ++ (file ∷ []))) then none else more
]

-- A frame takes a byte at least, so there are fewer rounds than bytes, and one for the end.
unfoldable pub read_file_batch : List ℕ → Option (List BatchFile)
unfolding read_frames
read_file_batch bytes = read_frames (suc (length bytes)) [] bytes
