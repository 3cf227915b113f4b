-- ===== src/Tests/Parts.antt =====
-- Paths, blocks, frames, sources, folder modes and repairs at concrete inputs.
use file_sync_engine.Prelude.{
  ℕ, zero, suc, String, ◌≡◌, ◌≢◌, ◌↔◌, refl, Bool, true, false, ◌&&◌, Option, none, some, List, [],
  ◌∷◌, ◌⊎◌, inl, inr, arith, if◌then◌else◌, str_eq, eq_iff, ◌^◌, ◌==◌, ◌<◌, ◌+◌, ◌-◌, ◌*◌, ap,
  subst,
}
use file_sync_engine.Prelude.Int.{pos, ◌<ℤ◌}
use file_sync_engine.Prelude.Lists.{All, In}
use file_sync_engine.Paths.Lexical.{clean_segments}
use file_sync_engine.Paths.Guards.{safe_rel, safe_join}
use file_sync_engine.Paths.Guards.Containment.{safe_rel-contained}
use file_sync_engine.Block.Manifest.{
  Bytes, Hasher, Block, Manifest, build_blocks, build_manifest, blocks_match, plan_delta,
}
use file_sync_engine.Block.Manifest.Content.{build_blocks-content}
use file_sync_engine.Block.Manifest.Delta.{IsHeld, plan_delta-exact}
use file_sync_engine.Block.Assemble.{Disk, assemble}
use file_sync_engine.Block.Assemble.Content.{assemble-content}
use file_sync_engine.FolderShare.Frames.{BatchFile, write_file_batch, read_file_batch}
use file_sync_engine.FolderShare.Frames.Roundtrip.{read_file_batch-write_file_batch}
use file_sync_engine.SyncPlan.{FileVersion, send_receive, decide}
use file_sync_engine.SyncPlan.Agree.{answer, decide-answer}
use file_sync_engine.RepairBackoff.{
  RepairBackoffPolicy, base_of, max_of, attempts_for, backoff_delay, record_repair_failure,
  should_attempt_repair,
}
use file_sync_engine.RepairBackoff.Delay.{min, backoff_delay-min, record_repair_failure_blocks}
use file_sync_engine.Routing.{
  CandidateSource, direct_path, relay_path, wan_network, choose_transfer_source,
  relay_carrier_preferred, local_network, container_bridge_network,
}
use file_sync_engine.Routing.Best.{choose_transfer_source-best}
use file_sync_engine.Routing.Preference.{IsOffer, IsCarrier, GoesBefore}

nested-safe_rel : safe_rel "a/../b/c" ≡ true
unfolding safe_rel
nested-safe_rel = refl

safe_rel-contained_example :
    All (λ s. s ≢ "..") (clean_segments "a/../b/c") × (clean_segments "a/../b/c" ≢ [])
safe_rel-contained_example = safe_rel-contained "a/../b/c" nested-safe_rel

-- A file of the folder whose name begins with two dots passes the first guard and not the second.
dots_name : (safe_rel "..data" ≡ true) × (safe_join "/r" "..data" ≡ none)
unfolding safe_rel safe_join
dots_name = (refl, refl)

unfoldable pub same_bytes : Bytes → Bytes → Bool
same_bytes [] [] = true
same_bytes [] (y ∷ ys) = false
same_bytes (x ∷ xs) [] = false
same_bytes (x ∷ xs) (y ∷ ys) = x == y && same_bytes xs ys

same_bytes_sound : (a b : Bytes) → same_bytes a b ≡ true → a ≡ b
unfolding same_bytes
same_bytes_sound [] [] h = refl
same_bytes_sound [] (y ∷ ys) h = cc
same_bytes_sound (x ∷ xs) [] h = cc
same_bytes_sound (x ∷ xs) (y ∷ ys) h = ground (arith, same_bytes_sound xs ys)

same_bytes_refl : (a : Bytes) → same_bytes a a ≡ true
unfolding same_bytes
same_bytes_refl [] = refl
same_bytes_refl (x ∷ xs) = ground (arith, same_bytes_refl xs)

pub same_bytes_iff : (a b : Bytes) → (same_bytes a b ≡ true) ↔ (a ≡ b)
same_bytes_iff a b =
    (same_bytes_sound a b, (λ e. subst (λ c. same_bytes a c ≡ true) e (same_bytes_refl a)))

-- A digest that is the content itself.
abbrev pub hasher : Hasher
hasher = record {
  Digest = Bytes;
  same = same_bytes;
  same_iff = same_bytes_iff;
  digest = λ bytes. bytes;
}

abbrev pub content : Bytes
content = 1 ∷ 2 ∷ 3 ∷ []

content_matches :
    blocks_match hasher (build_blocks hasher 2 3 0 content) (build_blocks hasher 2 3 0 content)
    ≡ true
unfolding blocks_match build_blocks same_bytes
content_matches = refl

build_blocks-content_example : content ≡ content
build_blocks-content_example =
    build_blocks-content hasher 2 (omega arith) 3 3 0 0 content content (omega arith) (omega arith)
      (λ n m e. e) content_matches

abbrev pub one_block : Block hasher
one_block = record { index = 0; offset = 0; size = 2; hash = 1 ∷ 2 ∷ [] }

abbrev pub other_block : Block hasher
other_block = record { index = 1; offset = 2; size = 1; hash = 3 ∷ [] }

-- A later block of the base with the same index and other content.
abbrev stale_block : Block hasher
stale_block = record { index = 1; offset = 2; size = 1; hash = 4 ∷ [] }

abbrev base_blocks : List (Block hasher)
base_blocks = one_block ∷ other_block ∷ stale_block ∷ []

plan_delta-exact_example :
    In other_block (plan_delta hasher base_blocks (one_block ∷ other_block ∷ []))
    ↔ (In other_block (one_block ∷ other_block ∷ []) × ¬ IsHeld hasher base_blocks other_block)
plan_delta-exact_example =
    plan_delta-exact hasher base_blocks (one_block ∷ other_block ∷ []) other_block

abbrev pub target : Manifest hasher
target = record { path = "f"; size = 3; block_size = 2; blocks = one_block ∷ other_block ∷ [] }

abbrev disk : Disk
disk path = if str_eq path "f" then some content else none

abbrev after_disk : Disk
after_disk = file_sync_engine.Block.Assemble.replace_file "g" content disk

assembled : assemble hasher disk "g" target (target ∷ []) true ≡ some after_disk
unfolding assemble build_manifest same_bytes file_sync_engine.Block.Assemble.write_at blocks_match
assembled = refl

pub target_built : build_manifest hasher "f" 2 content ≡ some target
unfolding build_manifest
target_built = refl

assemble-content_example :
    (after_disk "g" ≡ some content) × ((p : String) → p ≢ "g" → after_disk p ≡ disk p)
assemble-content_example =
    assemble-content hasher disk "g" "f" target (target ∷ []) true content after_disk (omega arith)
      assembled target_built (λ new stored n m e. e)

abbrev batch_file : BatchFile
batch_file = record { path = 97 ∷ []; data_bytes = content }

batch_fits : (write_file_batch (batch_file ∷ [])).failed ≡ false
unfolding write_file_batch
batch_fits = refl

read_file_batch-write_file_batch_example :
    read_file_batch (write_file_batch (batch_file ∷ [])).written ≡ some (batch_file ∷ [])
read_file_batch-write_file_batch_example =
    read_file_batch-write_file_batch (batch_file ∷ []) batch_fits (omega arith)

abbrev candidate : String → CandidateSource
candidate peer = record {
  peer_id = peer;
  content_id = "c";
  path = direct_path;
  network = wan_network;
  relay_via_peer_id = "";
  reachable = true;
}

-- `e` is chosen: `a` and `f` are relays, `g` is on a container bridge, `d` cannot be reached, and
-- `f` is reached through `e`, not through `b`.
abbrev candidates : List CandidateSource
candidates =
    record (candidate "a") { path = relay_path }
    ∷ candidate "b"
    ∷ record (candidate "d") { network = local_network; reachable = false }
    ∷ candidate "e"
    ∷ record (candidate "f") { path = relay_path; relay_via_peer_id = "e" }
    ∷ record (candidate "g") { network = container_bridge_network }
    ∷ []

chosen :
    choose_transfer_source "c" candidates
    ≡ some (record { source = candidate "e"; reason = relay_carrier_preferred })
unfolding choose_transfer_source file_sync_engine.Prelude.Sort.sort_stable
chosen = refl

choose_transfer_source-best_example :
    IsOffer "c" candidates (candidate "e")
    × ((c : CandidateSource)
        → IsOffer "c" candidates c
        → ¬ GoesBefore (IsCarrier "c" candidates) c (candidate "e"))
choose_transfer_source-best_example =
    choose_transfer_source-best "c" candidates
      (record { source = candidate "e"; reason = relay_carrier_preferred }) chosen

abbrev version : ℕ → String → FileVersion
version number device = record { path = "f"; version = number; device_id = device; hash = device }

decide-answer_example :
    decide (version 2 "b") (version 1 "a") send_receive
    ≡ answer (decide (version 1 "a") (version 2 "b") send_receive)
decide-answer_example =
    decide-answer (version 1 "a") (version 2 "b") (inl (λ e. absurd (omega (arith, e))))

abbrev policy : RepairBackoffPolicy
policy = record { base_delay = pos 10; max_delay = pos 100; max_attempts = pos 0 }

max_even : max_of policy ≡ 100
unfolding max_of
max_even = refl

backoff_delay-min_example :
    backoff_delay 3 policy ≡ min (max_of policy) (base_of policy * 2 ^ (3 - 1))
backoff_delay-min_example = backoff_delay-min 3 policy (rw max_even refl)

in_range : 1000 + backoff_delay (attempts_for none "p" + 1) policy < 2 ^ 63
unfolding attempts_for backoff_delay
in_range = omega arith

still_early : pos 1005 <ℤ pos (1000 + backoff_delay (attempts_for none "p" + 1) policy)
unfolding attempts_for backoff_delay
still_early = omega arith

record_repair_failure_blocks_example :
    (should_attempt_repair
      (some (record_repair_failure none "s" "f" "p" policy (pos 1000) "bad"))
      "p"
      policy
      (pos 1005)).allowed
    ≡ false
record_repair_failure_blocks_example =
    record_repair_failure_blocks none "s" "f" "p" policy 1000 "bad" (pos 1005) in_range still_early

-- The end of a delay of 292 years, counted from 2033, is past the largest int64, and the repair is
-- allowed at once.
abbrev long_policy : RepairBackoffPolicy
long_policy = record {
  base_delay = pos 9223372036854775807;
  max_delay = pos 9223372036854775807;
  max_attempts = pos 0;
}

delay_wraps :
    (should_attempt_repair
      (some (record_repair_failure none "s" "f" "p" long_policy (pos 2000000000000000000) "bad"))
      "p"
      long_policy
      (pos 2000000000000000001)).allowed
    ≡ true
unfolding should_attempt_repair record_repair_failure
delay_wraps = refl
