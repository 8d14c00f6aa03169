-- ===== src/Tasks/Fetch.antt =====
-- `fetch_single_chunk_via_rpc` and `fetch_chunk_and_store_it` of pynode/tasks.py.
--
-- A client, and what its request returns or raises, are parameters; every exception of the request
-- is caught, one of `get_rpc_client` is not. While a request is awaited other tasks run: what they
-- do to the tables and the storage is the parameter `meanwhile`. `digest` is
-- `get_pynode_digest_int`.
use stovacore.Prelude.{
  ℕ, ◌+◌, ◌≡◌, ◌≢◌, refl, sym, ap, ◌∙◌, inl, inr, ◌⊎◌, Bool, true, false, ◌||◌, Option, none, some,
  List, [], ◌∷◌, String, str_eq, contains, ◌==◌, ==_iff, Bool-cases, some_inj, if◌then◌else◌,
}
use stovacore.Prelude.Result.{Result, Error, ok, err, Result-cases, ◌>>=◌, >>=-eq-ok, ok_inj}
use stovacore.Prelude.Bytes.{Bytes}
use stovacore.Storage.{ChunkManager, store_chunk_in_storage}
use stovacore.Tasks.Rows.{Chunk, find_chunk, save_chunk, find-save, find_chunk_id, ChunkMnRanked}
use stovacore.Tasks.Ranking.{get_chunk_owners}

abbrev pub fibonachi_row : List ℕ
fibonachi_row = 0 ∷ 1 ∷ 2 ∷ 3 ∷ 5 ∷ 8 ∷ 13 ∷ 21 ∷ 34 ∷ 55 ∷ 89 ∷ 144 ∷ 233 ∷ 377 ∷ 610 ∷ 987 ∷ []

-- The tables and the storage that the tasks share.
pub record Node : Type 0 where
  pub chunks : List Chunk
  pub manager : ChunkManager

abbrev pub Client : Type 0
Client = ℕ → Result (Option Bytes)

-- `return data`, or the next round
abbrev pub answer_or : Option Bytes → Result (Option Bytes) → Result (Option Bytes)
answer_or (some bytes) rest = ok (some bytes)
answer_or none rest = rest

find_saved :
    (id : ℕ) (new now : Chunk) (chunks : List Chunk)
    → new.chunk_id ≡ id
    → find_chunk id chunks ≡ ok now
    → find_chunk id (save_chunk new chunks) ≡ ok new
find_saved id new now chunks e f =
    let same : (id == new.chunk_id) ≡ true = (==_iff id new.chunk_id).1 (sym e) in
    find-save id new chunks ∙ rw (same, f) refl

module _ (digest : Bytes → ℕ) (get_rpc_client : String → Result Client) (own : String) where
  -- what one answer means: the data, or the next masternode
  unfoldable pub accepted : ℕ → Result (Option Bytes) → Option Bytes
  accepted chunkid (err e) = none
  accepted chunkid (ok none) = none
  accepted chunkid (ok (some bytes)) = if chunkid == digest bytes then some bytes else none

  -- the loop over the owners
  unfoldable pub ask_owners : ℕ → List String → Result (Option Bytes)
  unfolding accepted
  ask_owners chunkid [] = ok none
  ask_owners chunkid (masternode ∷ owners) =
      let rest = ask_owners chunkid owners in
      if str_eq masternode own
      then rest
      else (do mn ← get_rpc_client masternode; answer_or (accepted chunkid (mn chunkid)) rest)

  unfoldable pub fetch_single_chunk_via_rpc :
      ℕ → List Chunk → List ChunkMnRanked → Result (Option Bytes)
  unfolding ask_owners
  fetch_single_chunk_via_rpc chunkid chunks ranked = do
    owners ← get_chunk_owners chunkid chunks ranked
    ask_owners chunkid owners

  -- `if data`, which an empty answer fails: the storage, and the columns of the object read before
  unfoldable pub store_fetched : Chunk → Option Bytes → Node → Result (Node × Bool)
  store_fetched chunk none n = ok (
    record n {
      chunks = save_chunk (record chunk { attempts_to_load = chunk.attempts_to_load + 1 }) n.chunks;
    },
    false,
  )
  store_fetched chunk (some []) n = ok (
    record n {
      chunks = save_chunk (record chunk { attempts_to_load = chunk.attempts_to_load + 1 }) n.chunks;
    },
    false,
  )
  store_fetched chunk (some (b ∷ bytes)) n = do
    manager ← store_chunk_in_storage digest chunk.chunk_id (b ∷ bytes) n.manager
    ok (
      record {
        chunks =
            save_chunk
              (record chunk { stored = true; attempts_to_load = chunk.attempts_to_load + 1 })
              n.chunks;
        manager = manager;
      },
      true,
    )

  -- another round of waiting
  abbrev pub postpone : Chunk → Node → Node
  postpone chunk n = record n {
    chunks = save_chunk (record chunk { attempts_to_load = chunk.attempts_to_load + 1 }) n.chunks;
  }

  unfoldable pub fetch_chunk_and_store_it :
      List ChunkMnRanked → (Node → Node) → ℕ → Node → Result (Node × Bool)
  unfolding fetch_single_chunk_via_rpc store_fetched
  fetch_chunk_and_store_it ranked meanwhile chunkid n = do
    chunk ← find_chunk chunkid n.chunks
    let fetched = (do
      bytes ← fetch_single_chunk_via_rpc chunkid n.chunks ranked
      store_fetched chunk bytes (meanwhile n))
    if contains chunk.attempts_to_load fibonachi_row then fetched else ok (postpone chunk n, false)

  -- One of the owners, not this node, whose client answers a request with data.
  abbrev pub Answers : ℕ → Bytes → List String → Type 0
  Answers chunkid bytes [] = ⊥
  Answers chunkid bytes (mn ∷ owners) =
      ((str_eq mn own ≡ false)
        × (client : Client) × (get_rpc_client mn ≡ ok client)
        × (client chunkid ≡ ok (some bytes)))
      ⊎ Answers chunkid bytes owners

  -- A request that gives no data of the chunk's digest: it raised, or its answer was None, or data of
  -- another digest.
  abbrev pub GivesNothing : ℕ → Result (Option Bytes) → Type 0
  GivesNothing chunkid (err e) = Unit
  GivesNothing chunkid (ok none) = Unit
  GivesNothing chunkid (ok (some bytes)) = digest bytes ≢ chunkid

  -- Every owner but this node has a client, whose request gave nothing.
  abbrev pub NobodyAnswers : ℕ → List String → Type 0
  NobodyAnswers chunkid [] = Unit
  NobodyAnswers chunkid (mn ∷ owners) =
      ((str_eq mn own ≡ true)
        ⊎ ((client : Client) × (get_rpc_client mn ≡ ok client)
            × GivesNothing chunkid (client chunkid)))
      × NobodyAnswers chunkid owners

  -- The client of one of the owners, not this node, cannot be made.
  abbrev pub Raises : Error → List String → Type 0
  Raises e [] = ⊥
  Raises e (mn ∷ owners) = ((str_eq mn own ≡ false) × (get_rpc_client mn ≡ err e)) ⊎ Raises e owners

  abbrev pub Fetches : ℕ → List String → Result (Option Bytes) → Type 0
  Fetches chunkid owners (err e) = Raises e owners
  Fetches chunkid owners (ok none) = NobodyAnswers chunkid owners
  Fetches chunkid owners (ok (some bytes)) = (digest bytes ≡ chunkid) × Answers chunkid bytes owners

  accepted-some :
      (chunkid : ℕ) (r : Result (Option Bytes)) (bytes : Bytes)
      → accepted chunkid r ≡ some bytes
      → (r ≡ ok (some bytes)) × (digest bytes ≡ chunkid)
  unfolding accepted
  accepted-some chunkid (err e) bytes h = cc
  accepted-some chunkid (ok none) bytes h = cc
  accepted-some chunkid (ok (some x)) bytes h = elim (Bool-cases (chunkid == digest x)) [
    | inl same ↦
        let e : x ≡ bytes = some_inj (rw same at h) in
        (ap (λ t. ok (some t)) e, rw (← e) (sym ((==_iff chunkid (digest x)).0 same)))
    | inr differ ↦ absurd (none_some (rw differ at h))
  ]
    where
      none_some : none ≡ some bytes → ⊥
      none_some p = cc

  accepted-none :
      (chunkid : ℕ) (r : Result (Option Bytes)) → accepted chunkid r ≡ none → GivesNothing chunkid r
  unfolding accepted
  accepted-none chunkid (err e) h = tt
  accepted-none chunkid (ok none) h = tt
  accepted-none chunkid (ok (some x)) h = λ e.
      let same : (chunkid == digest x) ≡ true = (==_iff chunkid (digest x)).1 (sym e) in
      absurd (some_none (rw same at h))
    where
      some_none : some x ≡ none → ⊥
      some_none p = cc

  Fetches-later :
      (chunkid : ℕ) (mn : String) (owners : List String) (r : Result (Option Bytes))
      → (str_eq mn own ≡ true)
        ⊎ ((client : Client) × (get_rpc_client mn ≡ ok client)
            × GivesNothing chunkid (client chunkid))
      → Fetches chunkid owners r
      → Fetches chunkid (mn ∷ owners) r
  Fetches-later chunkid mn owners (err e) p h = inr h
  Fetches-later chunkid mn owners (ok none) p h = (p, h)
  Fetches-later chunkid mn owners (ok (some bytes)) p h = (h.0, inr h.1)

  Fetches-asked :
      (chunkid : ℕ) (mn : String) (owners : List String) (client : Client)
      → str_eq mn own ≡ false
      → get_rpc_client mn ≡ ok client
      → (a : Option Bytes) → accepted chunkid (client chunkid) ≡ a
      → Fetches chunkid owners (ask_owners chunkid owners)
      → Fetches chunkid (mn ∷ owners) (answer_or a (ask_owners chunkid owners))
  Fetches-asked chunkid mn owners client other made none e h =
      Fetches-later chunkid mn owners (ask_owners chunkid owners)
        (inr (client, made, accepted-none chunkid (client chunkid) e)) h
  Fetches-asked chunkid mn owners client other made (some bytes) e h =
      let (answer, same) = accepted-some chunkid (client chunkid) bytes e in
      (same, inl (other, client, made, answer))

  -- The row behind the request.
  stored_columns :
      (chunkid : ℕ) (chunk now : Chunk) (bytes : Option Bytes) (n n' : Node) (b : Bool)
      → chunk.chunk_id ≡ chunkid
      → find_chunk chunkid n.chunks ≡ ok now
      → store_fetched chunk bytes n ≡ ok (n', b)
      → (row : Chunk) × (find_chunk chunkid n'.chunks ≡ ok row)
        × (row.confirmed ≡ chunk.confirmed)
        × (row.indexed ≡ chunk.indexed)
        × (row.attempts_to_load ≡ chunk.attempts_to_load + 1)
        × (row.stored ≡ (b || chunk.stored))
  unfolding store_fetched
  stored_columns chunkid chunk now none n n' b own_id later e =
      let row : Chunk = record chunk { attempts_to_load = chunk.attempts_to_load + 1 } in
      (
        row,
        rw (← ap (λ (r : Node × Bool). r.0) (ok_inj e))
            (find_saved chunkid row now n.chunks own_id later),
        refl,
        refl,
        refl,
        rw (← ap (λ (r : Node × Bool). r.1) (ok_inj e)) refl,
      )
  stored_columns chunkid chunk now (some []) n n' b own_id later e =
      let row : Chunk = record chunk { attempts_to_load = chunk.attempts_to_load + 1 } in
      (
        row,
        rw (← ap (λ (r : Node × Bool). r.0) (ok_inj e))
            (find_saved chunkid row now n.chunks own_id later),
        refl,
        refl,
        refl,
        rw (← ap (λ (r : Node × Bool). r.1) (ok_inj e)) refl,
      )
  stored_columns chunkid chunk now (some (x ∷ xs)) n n' b own_id later e =
      let (manager, put, e') =
        >>=-eq-ok (store_chunk_in_storage digest chunk.chunk_id (x ∷ xs) n.manager) _ e in
      let row : Chunk = record chunk {
        stored = true;
        attempts_to_load = chunk.attempts_to_load + 1;
      } in
      (
        row,
        rw (← ap (λ (r : Node × Bool). r.0) (ok_inj e'))
            (find_saved chunkid row now n.chunks own_id later),
        refl,
        refl,
        refl,
        rw (← ap (λ (r : Node × Bool). r.1) (ok_inj e')) refl,
      )

  -- What asking the owners returns: data has the digest of the chunk id, and is the answer of an
  -- owner that is not this node; without data every owner is this node, or its request
  -- raised or gave None or data of another digest; only a client that cannot be made raises.
  pub ask_owners-Fetches :
      (chunkid : ℕ) (owners : List String) → Fetches chunkid owners (ask_owners chunkid owners)
  unfolding ask_owners
  ask_owners-Fetches chunkid [] = tt
  ask_owners-Fetches chunkid (mn ∷ owners) = elim (Bool-cases (str_eq mn own)) [
    | inl self ↦ rw self (
        Fetches-later chunkid mn owners (ask_owners chunkid owners) (inl self)
          (ask_owners-Fetches chunkid owners))
    | inr other ↦ elim (Result-cases (get_rpc_client mn)) [
      | inl (e, raised) ↦ rw (other, raised) (inl (other, raised))
      | inr (client, made) ↦
          rw (other, made)
            (Fetches-asked chunkid mn owners client other made (accepted chunkid (client chunkid))
              refl (ask_owners-Fetches chunkid owners))
    ]
  ]

  -- The object that was read before the request is what is saved behind it: the row's confirmed
  -- and indexed columns are those it had before, whatever other tasks did meanwhile; the attempts
  -- are one more, and the chunk counts as stored if it did or if the fetch returns True.
  pub fetch_chunk-columns :
      (ranked : List ChunkMnRanked) (meanwhile : Node → Node) (chunkid : ℕ) (n n' : Node) (b : Bool)
      (chunk now : Chunk)
      → find_chunk chunkid n.chunks ≡ ok chunk
      → contains chunk.attempts_to_load fibonachi_row ≡ true
      → find_chunk chunkid (meanwhile n).chunks ≡ ok now
      → fetch_chunk_and_store_it ranked meanwhile chunkid n ≡ ok (n', b)
      → (row : Chunk) × (find_chunk chunkid n'.chunks ≡ ok row)
        × (row.confirmed ≡ chunk.confirmed)
        × (row.indexed ≡ chunk.indexed)
        × (row.attempts_to_load ≡ chunk.attempts_to_load + 1)
        × (row.stored ≡ (b || chunk.stored))
  unfolding fetch_chunk_and_store_it
  fetch_chunk-columns ranked meanwhile chunkid n n' b chunk now found due later e =
      let opened = rw (found, fetch_chunk_and_store_it) at e in
      let (bytes, fetched, stored) =
        >>=-eq-ok (fetch_single_chunk_via_rpc chunkid n.chunks ranked) _ (rw due at opened) in
      stored_columns chunkid chunk now bytes (meanwhile n) n' b
        (find_chunk_id chunkid n.chunks chunk found) later stored
