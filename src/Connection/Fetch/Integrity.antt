-- ===== src/Connection/Fetch/Integrity.antt =====
-- What `get_file` of src/peer_connection/mod.rs writes to the storage.
use bep_rs.Prelude.{
  ℕ, suc, ◌≡◌, ◌≢◌, ◌⊎◌, refl, sym, ap, ◌∙◌, is_empty, Option, none, some, List, [], ◌∷◌, ◌++◌,
  append-nil, append_assoc, length, text_eq, text_eq_sound, Bool-cases, inl, inr,
}
use bep_rs.Prelude.Int.{ℤ, as_u64}
use bep_rs.Prelude.Outcome.{Outcome, ok, err, panicked}
use bep_rs.Sync.{SyncBlock, SyncFile, SyncDirectory, get_name}
use bep_rs.Sync.FilePath.{push}
use bep_rs.State.Monad.{Sql}
use bep_rs.Connection.Items.{Request, Response, ErrorCode, PeerCommandError}
use bep_rs.Connection.Requests.{PeerRequestResponse}
use bep_rs.Connection.Fetch.{
  Download, Surroundings, from_i32, and_then, mark_synced, store_block, take_coded, take_answer,
  request_for, get_blocks_from, get_file,
}

abbrev pub Writes : Type 0
Writes = List (List ℕ × (ℕ × List ℕ))

-- The writes are for the first blocks, in order and none left out: each to the file, at the offset
-- of its block, of bytes that have the hash of the block.
abbrev pub IsPrefixOf : (List ℕ → List ℕ) → List ℕ → List SyncBlock → Writes → Type 0
IsPrefixOf sha256 path blocks [] = Unit
IsPrefixOf sha256 path [] (w ∷ ws) = ⊥
IsPrefixOf sha256 path (b ∷ blocks) ((at, (offset, bytes)) ∷ ws) =
    (at ≡ path)
    × ((offset ≡ as_u64 b.offset) × ((sha256 bytes ≡ b.hash) × IsPrefixOf sha256 path blocks ws))

-- What one block leaves: nothing is written and the download does not go on, or its bytes are.
abbrev Stores :
    {S : Sql}
    → (List ℕ → List ℕ)
    → List ℕ
    → SyncBlock
    → Writes
    → Outcome PeerCommandError (Unit {0}) × Download S
    → Type 0
Stores sha256 file block before (r, d) =
    ((r ≢ ok tt) × (d.writes ≡ before))
    ⊎ ((bytes : List ℕ) × ((sha256 bytes ≡ block.hash)
          × (d.writes ≡ before ++ (file, (as_u64 block.offset, bytes)) ∷ [])))

module _ (S : Sql) (env : Surroundings) (directory : SyncDirectory) (sync_file : SyncFile)
    (path : List ℕ) (has_path : directory.path ≡ some path) where
  store_block-Stores :
      (block : SyncBlock) (bytes : List ℕ) (d : Download S)
      → env.sha256 bytes ≡ block.hash
      → Stores env.sha256
          (push path (get_name sync_file))
          block
          d.writes
          (store_block S env directory sync_file block bytes d)
  unfolding store_block mark_synced
  store_block-Stores block bytes d same =
      rw has_path
        (elim (Bool-cases
          (env.write_block (push path (get_name sync_file)) (as_u64 block.offset) bytes)) [
            | inl well ↦ rw well (inr (bytes, (same, refl)))
            | inr bad ↦ rw bad (inr (bytes, (same, refl)))
          ])

  take_coded-Stores :
      (block : SyncBlock) (response : Response) (o : Option ErrorCode) (d : Download S)
      → Stores env.sha256
          (push path (get_name sync_file))
          block
          d.writes
          (take_coded S env directory sync_file block response o d)
  unfolding take_coded
  take_coded-Stores block response (some ErrorCode.no_error) d =
      elim (Bool-cases (text_eq (env.sha256 response.bytes) block.hash)) [
        | inl same ↦ rw same (
            store_block-Stores block response.bytes d
              (text_eq_sound (env.sha256 response.bytes) block.hash same))
        | inr differ ↦ rw differ (inl ((λ e. cc e), refl))
      ]
  take_coded-Stores block response (some ErrorCode.no_such_file) d = inl ((λ e. cc e), refl)
  take_coded-Stores block response (some ErrorCode.invalid_file) d = inl ((λ e. cc e), refl)
  take_coded-Stores block response (some ErrorCode.generic) d = inl ((λ e. cc e), refl)
  take_coded-Stores block response none d = inl ((λ e. cc e), refl)

  take_answer-Stores :
      (block : SyncBlock) (answer : Outcome PeerCommandError PeerRequestResponse) (d : Download S)
      → Stores env.sha256
          (push path (get_name sync_file))
          block
          d.writes
          (take_answer S env directory sync_file block answer d)
  unfolding take_answer
  take_answer-Stores block (ok (PeerRequestResponse.response r)) d =
      take_coded-Stores block r (from_i32 r.code) d
  take_answer-Stores block (ok (PeerRequestResponse.error e)) d = inl ((λ e. cc e), refl)
  take_answer-Stores block (ok PeerRequestResponse.closed) d = inl ((λ e. cc e), refl)
  take_answer-Stores block (ok PeerRequestResponse.sent) d = inl ((λ e. cc e), refl)
  take_answer-Stores block (err e) d = inl ((λ e. cc e), refl)
  take_answer-Stores block panicked d = inl ((λ e. cc e), refl)

  -- The outcome of a download of these blocks.
  abbrev Fetches :
      List SyncBlock → Writes → Outcome PeerCommandError (Unit {0}) × Download S → Type 0
  Fetches blocks before (r, d) =
      (ws : Writes) × ((d.writes ≡ before ++ ws)
        × (IsPrefixOf env.sha256 (push path (get_name sync_file)) blocks ws
            × (r ≡ ok tt → length ws ≡ length blocks)))

  and_then-Fetches :
      (block : SyncBlock) (blocks : List SyncBlock) (before : Writes)
      (out : Outcome PeerCommandError (Unit {0}) × Download S)
      (next : Download S → Outcome PeerCommandError (Unit {0}) × Download S)
      → Stores env.sha256 (push path (get_name sync_file)) block before out
      → ((d : Download S) → Fetches blocks d.writes (next d))
      → Fetches (block ∷ blocks) before (and_then out next)
  and_then-Fetches block blocks before (ok u, d) next (inl (failed, same)) more =
      absurd (failed refl)
  and_then-Fetches block blocks before (ok u, d) next (inr (bytes, (same, grown))) more =
      let (ws, (added, (fits, all))) = more d in
      (
        (push path (get_name sync_file), (as_u64 block.offset, bytes)) ∷ ws,
        (
          added ∙ ap (λ t. t ++ ws) grown ∙ append_assoc before _ ws,
          ((refl, (refl, (same, fits))), λ e. ap suc (all e)),
        ),
      )
  and_then-Fetches block blocks before (err e, d) next (inl (failed, same)) more =
      ([], (same ∙ sym (append-nil _), (tt, λ e. cc e)))
  and_then-Fetches block blocks before (err e, d) next (inr (bytes, (same, grown))) more = (
    (push path (get_name sync_file), (as_u64 block.offset, bytes)) ∷ [],
    (grown, ((refl, (refl, (same, tt))), λ e. cc e)),
  )
  and_then-Fetches block blocks before (panicked, d) next (inl (failed, same)) more =
      ([], (same ∙ sym (append-nil _), (tt, λ e. cc e)))
  and_then-Fetches block blocks before (panicked, d) next (inr (bytes, (same, grown))) more = (
    (push path (get_name sync_file), (as_u64 block.offset, bytes)) ∷ [],
    (grown, ((refl, (refl, (same, tt))), λ e. cc e)),
  )

  module _ (ask : Request → Outcome PeerCommandError PeerRequestResponse) (message_id : ℤ) where
    get_blocks_from-Fetches :
        (i : ℕ) (blocks : List SyncBlock) (d : Download S)
        → Fetches blocks d.writes
            (get_blocks_from S env directory sync_file ask message_id i blocks d)
    unfolding get_blocks_from
    get_blocks_from-Fetches i [] d = ([], (sym (append-nil _), (tt, λ e. refl)))
    get_blocks_from-Fetches i (block ∷ blocks) d =
        and_then-Fetches block blocks d.writes _ _
          (take_answer-Stores block (ask (request_for S env directory sync_file message_id i block))
            d)
          (λ d'. get_blocks_from-Fetches (suc i) blocks d')

module _ (S : Sql) (env : Surroundings) (directory : SyncDirectory) (sync_file : SyncFile)
    (ask : Request → Outcome PeerCommandError PeerRequestResponse) (message_id : ℤ) where
  -- Whatever the peer answers, a download into a directory with a path writes only to the place of
  -- the file, block after block from the first: each at the offset of its block, and of bytes that
  -- have the hash of the block. If it succeeds, every block was written.
  pub get_file-IsPrefixOf :
      (path : List ℕ) (d : Download S)
      → directory.path ≡ some path
      → (ws : Writes) × (((get_file S env directory sync_file ask message_id d).1.writes
            ≡ d.writes ++ ws)
          × (IsPrefixOf env.sha256 (push path (get_name sync_file)) sync_file.blocks ws
              × ((get_file S env directory sync_file ask message_id d).0 ≡ ok tt
                  → length ws ≡ length sync_file.blocks)))
  unfolding get_file
  get_file-IsPrefixOf path d has_path = elim (Bool-cases (is_empty sync_file.blocks)) [
    | inl no_blocks ↦ rw no_blocks ([], (sym (append-nil _), (tt, λ e. cc e)))
    | inr some_blocks ↦ rw some_blocks (
        get_blocks_from-Fetches S env directory sync_file path has_path ask message_id 0
          sync_file.blocks d)
  ]
