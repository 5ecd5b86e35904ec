-- ===== src/Connection/Serve/Access.antt =====
-- What a peer can obtain by requests (src/peer_connection/handlers.rs, `handle_request`).
use bep_rs.Prelude.{
  ℕ, ◌≡◌, ◌≢◌, ◌⊎◌, inl, inr, refl, sym, ap, subst, true, some, List, [], arith, Option-cases,
  Bool-cases, text_eq, text_eq_iff, not, ◌&&◌, is_empty, if◌then◌else◌,
}
use mathlib.Core.Option.{some-injective}
use bep_rs.Prelude.Int.{pos, as_u64}
use bep_rs.Prelude.Outcome.{Outcome, ok, err, panicked}
use bep_rs.Storage.{StorageError}
use bep_rs.Sync.{SyncDirectory}
use bep_rs.Sync.FilePath.{push, is_absolute}
use bep_rs.State.Models.{Peer}
use bep_rs.State.Monad.{Sql, BepState}
use bep_rs.State.Folders.{get_sync_directory, is_directory_synced}
use bep_rs.Connection.Items.{Request, Response, ErrorCode, code_of}
use bep_rs.Connection.Serve.{
  find_peer, reply, respond_read, respond_shared, respond_dir, handle_request,
}

module _ (S : Sql) (sha256 : List ℕ → List ℕ)
    (read_block : List ℕ → ℕ → ℕ → Outcome StorageError (List ℕ)) (peer_id : List ℕ)
    (request : Request) (s : BepState S) (r : Response) where
  -- What justifies the bytes of a response: the peer is known, the directory is shared with it
  -- and has a path, and the bytes are what the storage holds at the place that was asked for.
  pub record IsGranted : Type 0 where
    pub peer : Peer
    pub id : ℕ
    pub dir : SyncDirectory
    pub path : List ℕ
    pub is_peer : find_peer S peer_id s ≡ some peer
    pub has_id : peer.id ≡ some id
    pub is_dir : get_sync_directory S request.folder s ≡ some dir
    pub is_shared : is_directory_synced S dir.id id s ≡ true
    pub has_path : dir.path ≡ some path
    pub stored :
        read_block (push path request.name) (as_u64 request.offset) (as_u64 request.size)
        ≡ ok r.bytes

-- The hash that the peer sent, if it sent one, is that of these bytes.
abbrev pub Matches : (List ℕ → List ℕ) → Request → List ℕ → Type 0
Matches sha256 request bytes = (request.hash ≡ []) ⊎ (sha256 bytes ≡ request.hash)

module _ (S : Sql) (sha256 : List ℕ → List ℕ)
    (read_block : List ℕ → ℕ → ℕ → Outcome StorageError (List ℕ)) (request : Request) where
  -- A response reveals what the storage holds if it has bytes or reports no error.
  abbrev pub Reveals : Response → Type 0
  Reveals r = (r.bytes ≢ []) ⊎ (r.code ≡ pos 0)

  Reveals-nothing : (code : ErrorCode) → code_of code ≢ pos 0 → ¬ Reveals (reply request [] code)
  Reveals-nothing code bad (inl full) = full refl
  Reveals-nothing code bad (inr no_error) = bad no_error

  read_ok :
      (bytes : List ℕ)
      → let x : Response =
          if not (is_empty request.hash) && not (text_eq (sha256 bytes) request.hash)
          then reply request bytes ErrorCode.invalid_file
          else reply request bytes ErrorCode.no_error in
        (bytes ≡ x.bytes) × (x.code ≡ pos 0 → Matches sha256 request x.bytes)
  read_ok bytes =
      (ground arith, λ none_wrong. ground (arith, text_eq_iff (sha256 bytes) request.hash))

  respond_read-Reveals :
      (o : Outcome StorageError (List ℕ)) (r : Response)
      → respond_read S sha256 read_block request o ≡ some r
      → Reveals r
      → (o ≡ ok r.bytes) × (r.code ≡ pos 0 → Matches sha256 request r.bytes)
  unfolding respond_read
  respond_read-Reveals (err e) r h shown =
      let it : reply request [] ErrorCode.no_such_file ≡ r = some-injective _ _ h in
      absurd (Reveals-nothing ErrorCode.no_such_file (λ e. cc) (subst Reveals (sym it) shown))
  respond_read-Reveals panicked r h shown = absurd (cc h)
  respond_read-Reveals (ok bytes) r h shown =
      let (same, matches) =
        subst (λ x. (bytes ≡ x.bytes) × (x.code ≡ pos 0 → Matches sha256 request x.bytes))
          (some-injective _ _ h) (read_ok bytes) in
      (ap ok same, matches)

  -- The response to a request for a shared directory.
  record Served (dir : SyncDirectory) (r : Response) : Type 0 where
    path : List ℕ
    has_path : dir.path ≡ some path
    stored :
        read_block (push path request.name) (as_u64 request.offset) (as_u64 request.size)
        ≡ ok r.bytes
    matches : r.code ≡ pos 0 → Matches sha256 request r.bytes

  respond_shared-Served :
      (dir : SyncDirectory) (r : Response)
      → respond_shared S sha256 read_block request dir ≡ some r
      → Reveals r
      → Served dir r
  unfolding respond_shared
  respond_shared-Served dir r h shown = elim (Option-cases dir.path) [
    | inl no_path ↦
        let it : reply request [] ErrorCode.no_such_file ≡ r =
          some-injective _ _ (rw no_path at h) in
        absurd (Reveals-nothing ErrorCode.no_such_file (λ e. cc) (subst Reveals (sym it) shown))
    | inr (path, has_path) ↦
        let o = read_block (push path request.name) (as_u64 request.offset) (as_u64 request.size) in
        let (stored, matches) = respond_read-Reveals o r (rw has_path at h) shown in
        record { path = path; has_path = has_path; stored = stored; matches = matches }
  ]

module _ (S : Sql) (sha256 : List ℕ → List ℕ)
    (read_block : List ℕ → ℕ → ℕ → Outcome StorageError (List ℕ)) (peer_id : List ℕ)
    (request : Request) (s : BepState S) where
  abbrev Granted : Response → Type 0
  Granted r =
      IsGranted S sha256 read_block peer_id request s r
      × (r.code ≡ pos 0 → Matches sha256 request r.bytes)

  grant :
      (peer : Peer) (dir : SyncDirectory) (r : Response)
      → find_peer S peer_id s ≡ some peer
      → get_sync_directory S request.folder s ≡ some dir
      → respond_dir S sha256 read_block request peer (some dir) s ≡ some r
      → Reveals S sha256 read_block request r
      → Granted r
  unfolding respond_dir
  grant peer dir r is_peer is_dir h shown = elim (Option-cases peer.id) [
    | inl no_id ↦ absurd (cc (rw no_id at h))
    | inr (id, has_id) ↦ elim (Bool-cases (is_directory_synced S dir.id id s)) [
      | inl shared ↦
          let served =
            respond_shared-Served S sha256 read_block request dir r (rw (has_id, shared) at h)
              shown in
          (
            record {
              peer = peer;
              id = id;
              dir = dir;
              path = served.path;
              is_peer = is_peer;
              has_id = has_id;
              is_dir = is_dir;
              is_shared = shared;
              has_path = served.has_path;
              stored = served.stored;
            },
            served.matches,
          )
      | inr denied ↦
          let e : reply request [] ErrorCode.invalid_file ≡ r =
            some-injective _ _ (rw (has_id, denied) at h) in
          absurd (
            Reveals-nothing S sha256 read_block request ErrorCode.invalid_file (λ x. cc)
              (subst (Reveals S sha256 read_block request) (sym e) shown))
    ]
  ]

  -- Whatever a peer asks for: a response that holds bytes, or reports no error, goes to a known
  -- peer, for a directory that is shared with it and has a path, and its bytes are what the
  -- storage holds at the place that the request names. If it reports no error, the request had no
  -- hash or the bytes have that hash.
  pub handle_request-IsGranted :
      (r : Response)
      → handle_request S sha256 read_block peer_id request s ≡ some r
      → (r.bytes ≢ []) ⊎ (r.code ≡ pos 0)
      → IsGranted S sha256 read_block peer_id request s r
        × (r.code ≡ pos 0 → Matches sha256 request r.bytes)
  unfolding handle_request respond_dir
  handle_request-IsGranted r h shown = elim (Option-cases (find_peer S peer_id s)) [
    | inl unknown ↦ absurd (cc (rw unknown at h))
    | inr (peer, is_peer) ↦ elim (Option-cases (get_sync_directory S request.folder s)) [
      | inl no_dir ↦
          let e : reply request [] ErrorCode.invalid_file ≡ r =
            some-injective _ _ (rw (is_peer, no_dir) at h) in
          absurd (
            Reveals-nothing S sha256 read_block request ErrorCode.invalid_file (λ x. cc)
              (subst (Reveals S sha256 read_block request) (sym e) shown))
      | inr (dir, is_dir) ↦ grant peer dir r is_peer is_dir (rw (is_peer, is_dir) at h) shown
    ]
  ]

  -- A known peer asks, with no hash, for a directory that is shared with it and has a path. If the
  -- name it gives is an absolute path that the storage can read, the answer holds what stands
  -- there, wherever the directory lies.
  pub handle_request_absolute :
      (peer : Peer) (id : ℕ) (dir : SyncDirectory) (path bytes : List ℕ)
      → find_peer S peer_id s ≡ some peer
      → peer.id ≡ some id
      → get_sync_directory S request.folder s ≡ some dir
      → is_directory_synced S dir.id id s ≡ true
      → dir.path ≡ some path
      → request.hash ≡ []
      → is_absolute request.name ≡ true
      → read_block request.name (as_u64 request.offset) (as_u64 request.size) ≡ ok bytes
      → handle_request S sha256 read_block peer_id request s
        ≡ some (record { id = request.id; bytes = bytes; code = pos 0 })
  unfolding handle_request push
  handle_request_absolute peer id dir path bytes is_peer has_id is_dir shared has_path no_hash
        absolute stored =
      rw (is_peer, is_dir, has_id, shared, has_path, absolute, stored, no_hash)
