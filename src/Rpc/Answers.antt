-- ===== src/Rpc/Answers.antt =====
-- The callbacks that `RPCServer.__init__` adds, and what a request is answered with.
use stovacore.Prelude.{
  ℕ, ◌≡◌, refl, ap, inl, inr, ◌⊎◌, true, false, Option, none, some, List, [], String, Bool-cases,
  Option-cases,
}
use stovacore.Prelude.Result.{Result, Error, ok, err, type_error, Result-cases}
use stovacore.Prelude.Bytes.{Bytes}
use stovacore.Luby.Prng.{Floats}
use stovacore.Tasks.Rows.{ChunkMnRanked}
use stovacore.Tasks.Fetch.{Node}
use stovacore.Rpc.{Obj, str_obj, Msgpack, Peer, new_message, pack}
use stovacore.Rpc.Handlers.{
  receive_rpc_ping, receive_rpc_sql, receive_rpc_fetchchunk, receive_rpc_download_image,
  receive_rpc_download_thumbnail,
}
use stovacore.Rpc.Server.{
  Callback, Callbacks, Handler, add_callback, find_callback, message, allowed, run_callback,
  answer_of, process_local_rpc,
}

module _ (lib : Msgpack) (peer : Peer lib.Float) where
  -- a callback that changes nothing
  abbrev pure : (Obj lib.Float → Node → Result (Obj lib.Float)) → Handler lib peer
  pure f data' sender_id n = (n, f data' n)

  -- `RPCServer.__init__`; the database, the ranking, and what decoding needs are parameters
  unfoldable pub init_callbacks :
      (String → Result (List String × List (List (Obj lib.Float))))
      → (Bytes → Bytes)
      → Floats
      → ℕ
      → List ChunkMnRanked
      → Callbacks lib peer
  unfolding add_callback
  init_callbacks execute_sql sha3_256 fl fuel ranked =
      let open_to_all : String → Handler lib peer → Callback lib peer = λ response_name fn. record {
        response_name = response_name;
        fn = fn;
        allowed_pubkey = none;
      } in
      add_callback lib peer "THUMBNAIL_DOWNLOAD_REQ"
        (open_to_all "THUMBNAIL_DOWNLOAD_RESP"
          (pure λ data' n. receive_rpc_download_thumbnail lib ranked data' n))
        (add_callback lib peer "IMAGEDOWNLOAD_REQ"
          (open_to_all "IMAGEDOWNLOAD_RESP"
            (pure λ data' n. receive_rpc_download_image lib sha3_256 fl fuel data' n))
          (add_callback lib peer "FETCHCHUNK_REQ"
            (open_to_all "FETCHCHUNK_RESP" (λ data' sender n. receive_rpc_fetchchunk lib data' n))
            (add_callback lib peer "SQL_REQ"
              (open_to_all "SQL_RESP" (pure λ data' n. receive_rpc_sql lib execute_sql data'))
              (add_callback lib peer "PING_REQ"
                (open_to_all "PING_RESP" (pure λ data' n. receive_rpc_ping lib data')) []))))

  -- How a request ends: the status and the value of the answer, and the node after it.
  abbrev pub Ends :
      Callback lib peer → Obj lib.Float → String → Node → Node → String → Obj lib.Float → Type 0
  Ends c data' sender n n' status value =
      ((status ≡ "SUCCESS")
        × (allowed lib peer c.allowed_pubkey sender ≡ true)
        × (c.fn data' sender n ≡ (n', ok value)))
      ⊎ ((status ≡ "ERROR")
          × (((allowed lib peer c.allowed_pubkey sender ≡ false) × (n' ≡ n))
              ⊎ ((allowed lib peer c.allowed_pubkey sender ≡ true)
                  × ((e : Error) × (c.fn data' sender n ≡ (n', err e))))))

  -- The answer to a request, by the callback of its name.
  abbrev pub Answers :
      Option (Callback lib peer) → String → Obj lib.Float → Node → Node × Result Bytes → Type 0
  Answers none sender data' n (n', r) = (r ≡ err type_error) × (n' ≡ n)
  Answers (some c) sender data' n (n', r) =
      (status : String) × (value : Obj lib.Float) × (r
        ≡ pack lib peer
            (new_message lib peer (message lib peer c.response_name status value) sender))
      × Ends c data' sender n n' status value

  ran :
      (c : Callback lib peer) (data' : Obj lib.Float) (sender : String) (n : Node)
      → (status : String) × (value : Obj lib.Float) × ((run_callback lib peer c data' sender n).1
          ≡ message lib peer c.response_name status value)
        × Ends c data' sender n (run_callback lib peer c data' sender n).0 status value
  unfolding run_callback
  ran c data' sender n = ended (c.fn data' sender n) refl
    where
      ended :
          (p : Node × Result (Obj lib.Float))
          → c.fn data' sender n ≡ p
          → (status : String) × (value : Obj lib.Float) × ((run_callback lib peer c data' sender
                n).1
              ≡ message lib peer c.response_name status value)
            × Ends c data' sender n (run_callback lib peer c data' sender n).0 status value
      ended (n', ret) e = elim (Bool-cases (allowed lib peer c.allowed_pubkey sender)) [
        | inr refused ↦
            rw refused ("ERROR", str_obj "ACL ERROR", refl, inr (refl, inl (refl, refl)))
        | inl granted ↦ elim (Result-cases ret) [
          | inl (x, raised) ↦
              rw (granted, e, raised, answer_of)
                ("ERROR", str_obj "RPC ERROR happened", refl, inr (refl, inr (refl, (x, refl))))
          | inr (value, returned) ↦
              rw (granted, e, returned, answer_of) ("SUCCESS", value, refl, inl (refl, refl, refl))
        ]
      ]

  -- A request of an unknown name raises a TypeError and changes nothing. One of a known name is
  -- answered under the callback's response name: with SUCCESS and what the callback returned, or
  -- with ERROR, if the sender is not allowed, where nothing changes, or if the callback raised.
  pub process-Answers :
      (rpcs : Callbacks lib peer) (name sender : String) (data' : Obj lib.Float) (n : Node)
      → Answers
          (find_callback lib peer name rpcs)
          sender
          data'
          n
          (process_local_rpc lib peer rpcs sender name data' n)
  unfolding process_local_rpc
  process-Answers rpcs name sender data' n =
      elim (Option-cases (find_callback lib peer name rpcs)) [
        | inl missing ↦ rw (missing, process_local_rpc) (refl, refl)
        | inr (c, found) ↦
            let (status, value, sent, ends) = ran c data' sender n in
            rw (found, process_local_rpc)
              (
                status,
                value,
                ap (λ msg. pack lib peer (new_message lib peer msg sender)) sent,
                ends,
              )
      ]
