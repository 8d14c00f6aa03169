-- ===== src/Rpc/Download.antt =====
-- Fetching a chunk: the client of core_modules/rpc_client.py against the server of
-- pynode/rpc_server.py and the handler of pynode/rpc_handlers.py.
use stovacore.Prelude.{
  ℕ, zero, suc, ◌/◌, ◌%◌, ◌<◌, ◌≡◌, refl, ap, ◌∙◌, inl, inr, true, Option, none, some, [], ◌∷◌,
  String, arith, length, Bool-cases, if◌then◌else◌,
}
use stovacore.Prelude.Result.{Result, ok, err, Result-cases, ◌>>=◌}
use stovacore.Prelude.Bytes.{Bytes}
use stovacore.Storage.{get_chunk_data}
use stovacore.Storage.Hex.{
  Text, hex_digit, hex_onto, chunkid_to_hex, hex_to_chunkid, pynode_hex_digest_size,
  hex_to_chunkid-chunkid_to_hex, length-chunkid_to_hex,
}
use stovacore.Storage.Paths.{IsChunkId}
use stovacore.Ordering.{RpcClient}
use stovacore.Tasks.Rows.{Chunk, find_chunk}
use stovacore.Tasks.Fetch.{Node}
use stovacore.Rpc.{Obj, Objs, Msgpack, Peer, Container, to_obj, reconstruct, pack, new_message}
use stovacore.Rpc.Packets.{
  IsCarried, Trusts, signed_message, reconstruct-packb, pack-signed, signed-IsTaken,
}
use stovacore.Rpc.Handlers.{
  is_digit, all_digits, parse_chunkid, chunk_answer, read_stored, answer_chunk, requested_chunkid,
  receive_rpc_fetchchunk,
}
use stovacore.Rpc.Server.{
  Callback, Callbacks, find_callback, message, run_callback, http_proccess, process_received,
  received, process_local_rpc, answer_of,
}
use stovacore.Rpc.Client.{request, chunk_request, send_rpc_fetchchunk, read_response, chunk_data}

digit_is_digit : (d : ℕ) → d < 16 → is_digit (hex_digit d) ≡ true
unfolding is_digit hex_digit
digit_is_digit d h = ground arith

hex_onto-digits :
    (n v : ℕ) (acc : Text) → all_digits acc ≡ true → all_digits (hex_onto n v acc) ≡ true
unfolding hex_onto all_digits
hex_onto-digits zero v acc h = h
hex_onto-digits (suc n) v acc h =
    hex_onto-digits n (v / 16) (hex_digit (v % 16) ∷ acc)
      (rw (digit_is_digit (v % 16) (omega arith)) h)

parse_digits :
    (t : Text) → 0 < length t → all_digits t ≡ true → parse_chunkid t ≡ ok (hex_to_chunkid t)
unfolding parse_chunkid
parse_digits [] l h = absurd (omega (arith, l))
parse_digits (c ∷ t) l h = rw h refl

-- The text of a chunk id is read back.
parse-chunkid_to_hex : (id : ℕ) → IsChunkId id → parse_chunkid (chunkid_to_hex id) ≡ ok id
unfolding chunkid_to_hex all_digits
parse-chunkid_to_hex id h =
    parse_digits (chunkid_to_hex id) (omega (arith, length-chunkid_to_hex id))
      (hex_onto-digits pynode_hex_digest_size id [] refl)
    ∙ ap ok (hex_to_chunkid-chunkid_to_hex id h)

-- What a node has of a chunk: its contents, if its row says that it is stored and the file is there.
abbrev contents : Result Bytes → Option Bytes
contents (ok bytes) = some bytes
contents (err e) = none

abbrev held_by : Result Chunk → ℕ → Node → Option Bytes
held_by (err e) id n = none
held_by (ok chunk) id n = if chunk.stored then contents (get_chunk_data id n.manager) else none

abbrev pub held : ℕ → Node → Option Bytes
held id n = held_by (find_chunk id n.chunks) id n

module _ (lib : Msgpack) where
  answers_held :
      (id : ℕ) (n : Node) (found : Result Chunk)
      → (answer_chunk lib id found n).1 ≡ ok (chunk_answer lib (held_by found id n))
  unfolding answer_chunk read_stored
  answers_held id n (err e) = refl
  answers_held id n (ok chunk) = elim (Bool-cases chunk.stored) [
    | inr missing ↦ rw missing refl
    | inl stored ↦ elim (Result-cases (get_chunk_data id n.manager)) [
      | inl (e, gone) ↦ rw (stored, gone, read_stored) refl
      | inr (bytes, there) ↦ rw (stored, there, read_stored) refl
    ]
  ]

  requests_id :
      (client : Peer lib.Float) (mn : RpcClient) (post : Bytes → Result Bytes) (id : ℕ)
      → IsChunkId id
      → lib.text_of (lib.str_of (chunkid_to_hex id)) ≡ chunkid_to_hex id
      → requested_chunkid lib (chunk_request lib client mn post id) ≡ ok id
  unfolding requested_chunkid chunk_request
  requests_id client mn post id h back = rw back (parse-chunkid_to_hex id h)

  fetch-held :
      (client : Peer lib.Float) (mn : RpcClient) (post : Bytes → Result Bytes) (id : ℕ) (n : Node)
      → IsChunkId id
      → lib.text_of (lib.str_of (chunkid_to_hex id)) ≡ chunkid_to_hex id
      → (receive_rpc_fetchchunk lib (chunk_request lib client mn post id) n).1
        ≡ ok (chunk_answer lib (held id n))
  unfolding receive_rpc_fetchchunk
  fetch-held client mn post id n h back =
      rw (requests_id client mn post id h back, receive_rpc_fetchchunk)
        (answers_held id n (find_chunk id n.chunks))

  -- A chunk in the answer is read by the client.
  reads_held :
      (client server : Peer lib.Float) (mn : RpcClient) (post : Bytes → Result Bytes)
      (receiver : String) (chunk : Option Bytes)
      → (read_response lib client mn post "FETCHCHUNK_RESP"
            (new_message lib server
              (message lib server "FETCHCHUNK_RESP" "SUCCESS" (chunk_answer lib chunk))
              receiver).data'
          >>= chunk_data lib client mn post)
        ≡ ok chunk
  unfolding chunk_data chunk_answer read_response new_message
  reads_held client server mn post receiver none = refl
  reads_held client server mn post receiver (some bytes) = refl

  module _ (client server : Peer lib.Float) (forth : Trusts lib client server)
      (back : Trusts lib server client) where
    abbrev pub fetch_callback : Callback lib server
    fetch_callback = record {
      response_name = "FETCHCHUNK_RESP";
      fn = λ data' sender n. receive_rpc_fetchchunk lib data' n;
      allowed_pubkey = none;
    }

    abbrev pub fetch_request : RpcClient → (Bytes → Result Bytes) → ℕ → Objs lib.Float
    fetch_request mn post id =
        request lib client mn post "FETCHCHUNK_REQ" (chunk_request lib client mn post id)

    abbrev pub fetch_response : ℕ → Node → Objs lib.Float
    fetch_response id n =
        message lib server "FETCHCHUNK_RESP" "SUCCESS" (chunk_answer lib (held id n))

    -- the server at the end of the connection
    abbrev pub serving : Callbacks lib server → Node → Bytes → Result Bytes
    serving rpcs n packet = (http_proccess lib server rpcs packet n).1

    taken :
        (rpcs : Callbacks lib server) (msg : Bytes) (c : Container lib.Float) (n : Node)
        → reconstruct lib server msg ≡ ok c
        → http_proccess lib server rpcs msg n
          ≡ process_received lib server rpcs c.sender_id (received lib server c.data') n
    unfolding http_proccess
    taken rpcs msg c n e = rw (e, http_proccess) refl

    runs_fetch :
        (rpcs : Callbacks lib server) (sender : String) (d value : Obj lib.Float) (n : Node)
        → find_callback lib server "FETCHCHUNK_REQ" rpcs ≡ some fetch_callback
        → (receive_rpc_fetchchunk lib d n).1 ≡ ok value
        → (process_local_rpc lib server rpcs sender "FETCHCHUNK_REQ" d n).1
          ≡ pack lib server
              (new_message lib server (message lib server "FETCHCHUNK_RESP" "SUCCESS" value) sender)
    unfolding process_local_rpc run_callback
    runs_fetch rpcs sender d value n found returned =
        rw (found, process_local_rpc)
          (ap
            (λ r.
              pack lib server
                (new_message lib server (answer_of lib server "FETCHCHUNK_RESP" r) sender))
            returned)

    serves :
        (rpcs : Callbacks lib server) (mn : RpcClient) (post : Bytes → Result Bytes) (id : ℕ)
        (n : Node)
        → IsChunkId id
        → lib.text_of (lib.str_of (chunkid_to_hex id)) ≡ chunkid_to_hex id
        → find_callback lib server "FETCHCHUNK_REQ" rpcs ≡ some fetch_callback
        → IsCarried lib (signed_message lib client server forth (fetch_request mn post id))
        → (http_proccess lib server rpcs
            (lib.packb (to_obj (signed_message lib client server forth (fetch_request mn post id))))
            n).1
          ≡ ok (lib.packb (to_obj (signed_message lib server client back (fetch_response id n))))
    unfolding process_received new_message received find_callback
    serves rpcs mn post id n h same_text found small =
        let c = signed_message lib client server forth (fetch_request mn post id) in
        let received' =
          reconstruct-packb lib server c
            (signed-IsTaken lib client server forth (fetch_request mn post id) small) in
        ap (λ x. x.1) (taken rpcs (lib.packb (to_obj c)) c n received')
        ∙ runs_fetch rpcs client.pastelid (chunk_request lib client mn post id)
            (chunk_answer lib (held id n)) n found (fetch-held client mn post id n h same_text)
        ∙ pack-signed lib server client back (fetch_response id n)

    -- If both packets are read as they were written and not too large, as is the text of the id, the
    -- cNodes verify each other's signatures and the clocks agree: fetching a chunk from a server that has
    -- the callback gives the contents that the server holds, or None if it has no stored chunk.
    pub send_rpc_fetchchunk-held :
        (rpcs : Callbacks lib server) (mn : RpcClient) (id : ℕ) (n : Node)
        → IsChunkId id
        → lib.text_of (lib.str_of (chunkid_to_hex id)) ≡ chunkid_to_hex id
        → mn.remote_pastelid ≡ server.pastelid
        → find_callback lib server "FETCHCHUNK_REQ" rpcs ≡ some fetch_callback
        → IsCarried lib
            (signed_message lib client server forth (fetch_request mn (serving rpcs n) id))
        → IsCarried lib (signed_message lib server client back (fetch_response id n))
        → send_rpc_fetchchunk lib client mn (serving rpcs n) id ≡ ok (held id n)
    unfolding send_rpc_fetchchunk
    send_rpc_fetchchunk-held rpcs mn id n h same_text same found small₁ small₂ =
        let post = serving rpcs n in
        rw
          (
            same,
            pack-signed lib client server forth (fetch_request mn post id),
            serves rpcs mn post id n h same_text found small₁,
            reconstruct-packb lib client
                (signed_message lib server client back (fetch_response id n))
                (signed-IsTaken lib server client back (fetch_response id n) small₂),
          )
          (reads_held client server (record mn { remote_pastelid = server.pastelid }) post
            client.pastelid (held id n))
