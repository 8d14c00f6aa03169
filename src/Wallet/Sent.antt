-- ===== src/Wallet/Sent.antt =====
-- What it takes that `send_regticket_to_mn2_mn3` of wallet/art_registration_client.py returns True.
use stovacore.Prelude.{ℕ, ◌≡◌, refl, inl, inr, Bool, true, false, ◌||◌, some, List, if◌then◌else◌}
use stovacore.Prelude.Result.{Result, ok, Result-cases}
use stovacore.Prelude.Run.{Run, return, query-eq-ok}
use stovacore.Prelude.Bytes.{Bytes}
use stovacore.Ordering.{RpcClient, get_masternode_ordering}
use stovacore.Rpc.{Obj, Msgpack}
use stovacore.Wallet.{RegticketDb, get_row, three_clients, is_empty_obj}
use stovacore.Wallet.Steps.{
  World, to_masternode, ticket_data, image_data_of, send_regticket_to_mn, read_image,
  send_regticket_to_mn2_mn3,
}

module _ (lib : Msgpack) (w : World lib) where
  open lib use {Float}

  -- The masternode gave an upload code that is not empty, and the request with the image and this
  -- code raised nothing.
  pub record IsSent (mn : RpcClient) (ticket signature image_data : Bytes) : Type 0 where
    pub upload_code : Obj Float
    pub taken :
        to_masternode lib w mn "REGTICKET_REQ" "REGTICKET_RESP" (ticket_data lib w ticket signature)
        ≡ ok upload_code
    pub not_empty : is_empty_obj upload_code ≡ false
    pub reply : Obj Float
    pub uploaded :
        to_masternode lib w mn "IMAGE_UPLOAD_REQ" "IMAGE_UPLOAD_RESP"
          (image_data_of lib w image_data upload_code)
        ≡ ok reply

  -- The row of the id, its image, and the second and third masternodes of its block, which both got
  -- the ticket and the image.
  pub record AreSent (id : ℕ) (rows : List (RegticketDb Float)) : Type 0 where
    pub row : RegticketDb Float
    pub is_row : get_row id rows ≡ ok row
    pub image_data : Bytes
    pub read : read_image lib w row.path_to_image ≡ ok image_data
    pub clients : List RpcClient
    pub listed : get_masternode_ordering (w.workers (some row.blocknum)) ≡ ok clients
    pub mn0 : RpcClient
    pub mn1 : RpcClient
    pub mn2 : RpcClient
    pub first_three : three_clients clients ≡ ok (mn0, mn1, mn2)
    pub second : IsSent mn1 row.serialized_regticket row.serialized_signature image_data
    pub third : IsSent mn2 row.serialized_regticket row.serialized_signature image_data

  IsSent-code :
      (mn : RpcClient) (ticket signature image_data : Bytes)
      → is_empty_obj (send_regticket_to_mn lib w mn ticket signature image_data) ≡ false
      → IsSent mn ticket signature image_data
  unfolding send_regticket_to_mn is_empty_obj
  IsSent-code mn ticket signature image_data h =
      elim (Result-cases (
        to_masternode lib w mn "REGTICKET_REQ" "REGTICKET_RESP"
          (ticket_data lib w ticket signature))) [
            | inl (e, raised) ↦ absurd (empty (rw (raised, send_regticket_to_mn) at h))
            | inr (code, taken) ↦
                elim (Result-cases (
                  to_masternode lib w mn "IMAGE_UPLOAD_REQ" "IMAGE_UPLOAD_RESP"
                    (image_data_of lib w image_data code))) [
                      | inl (e, raised) ↦
                          absurd (empty (rw (taken, raised, send_regticket_to_mn) at h))
                      | inr (reply, uploaded) ↦ record {
                        upload_code = code;
                        taken = taken;
                        not_empty = rw (taken, uploaded, send_regticket_to_mn) at h;
                        reply = reply;
                        uploaded = uploaded;
                      }
                    ]
          ]
    where
      empty : true ≡ false → ⊥
      empty k = cc

  both_given :
      (b c : Bool) (rows between : List (RegticketDb Float))
      (rest : Run (List (RegticketDb Float)) Bool)
      → (if b || c then return false else rest) rows ≡ (between, ok true)
      → (b ≡ false) × (c ≡ false)
  both_given true c rows between rest h = absurd (refused h)
    where
      refused :
          Path (List (RegticketDb Float) × Result Bool) (rows, ok false) (between, ok true) → ⊥
      refused k = cc
  both_given false true rows between rest h = absurd (refused h)
    where
      refused :
          Path (List (RegticketDb Float) × Result Bool) (rows, ok false) (between, ok true) → ⊥
      refused k = cc
  both_given false false rows between rest h = (refl, refl)

  pub send_regticket-AreSent :
      (id : ℕ) (rows between : List (RegticketDb Float))
      → send_regticket_to_mn2_mn3 lib w id rows ≡ (between, ok true)
      → AreSent id rows
  unfolding send_regticket_to_mn2_mn3
  send_regticket-AreSent id rows between h =
      let (row, e₁, h₁) = query-eq-ok rows (get_row id rows) _ h in
      let (image_data, e₂, h₂) = query-eq-ok rows (read_image lib w row.path_to_image) _ h₁ in
      let (clients, e₃, h₃) =
        query-eq-ok rows (get_masternode_ordering (w.workers (some row.blocknum))) _ h₂ in
      let ((mn0, mn1, mn2), e₄, h₄) = query-eq-ok rows (three_clients clients) _ h₃ in
      let code : RpcClient → Obj Float = λ mn.
        send_regticket_to_mn lib w mn row.serialized_regticket row.serialized_signature
          image_data in
      let (given1, given2) =
        both_given (is_empty_obj (code mn1)) (is_empty_obj (code mn2)) rows between _ h₄ in
      record {
        row = row;
        is_row = e₁;
        image_data = image_data;
        read = e₂;
        clients = clients;
        listed = e₃;
        mn0 = mn0;
        mn1 = mn1;
        mn2 = mn2;
        first_three = e₄;
        second =
            IsSent-code mn1 row.serialized_regticket row.serialized_signature image_data given1;
        third = IsSent-code mn2 row.serialized_regticket row.serialized_signature image_data given2;
      }
