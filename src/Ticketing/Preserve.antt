-- ===== src/Ticketing/Preserve.antt =====
-- Each handler keeps the registrations consistent, whether it returns or raises.
pub mod Confirmation
use stovacore.Prelude.{
  ℕ, zero, suc, ◌-◌, ltb, ◌≡◌, refl, sym, ap, inl, inr, ◌⊎◌, Bool, true, false, not, Option, none,
  some, List, [], ◌∷◌, String, str_eq, All, Bool-cases, Option-cases, if◌then◌else◌,
}
use stovacore.Prelude.Result.{
  Result, Error, ok, err, Result-cases, ok_inj, >>=-eq-ok, exception, value_error, guard,
}
use stovacore.Prelude.Run.{Run, after_step, after_query, after_if}
use stovacore.Prelude.Bytes.{Bytes}
use stovacore.Ticketing.{
  Regticket, Node, Status, created_status, get_by_code, get_own, save_regticket, save,
  create_regticket, new_regticket, next_id, select_tickets,
}
use stovacore.Storage.{store_chunk_in_temp_storage}
use stovacore.Tasks.Rows.{create_from_hash}
use stovacore.Ticketing.Models.{
  Wire, RegistrationTicket, unserialize_registration_ticket, unserialize_signature,
}
use stovacore.Ticketing.Burn.{
  Cnode, fetch_transaction, check_amounts, is_burn_10_tx_height_valid, is_burn_10_tx_amount_valid,
  is_burn_tx_valid, vout_of, some_amount, near_local_fee,
}
use stovacore.Validators.Tickets.{require_true, validate_registration_ticket}
use stovacore.Ticketing.Checks.{
  own_upload, known_upload, regticket_status, validate_ticket_signature, confirm_at_mn0,
}
use stovacore.Ticketing.Upload.{
  masternode_validate_registration_ticket, masternode_image_upload_request_mn0,
  masternode_image_upload_request, masternode_validate_txid_upload_code_image,
}
use stovacore.Ticketing.Place.{Imaging, image_data_of}
use stovacore.Ticketing.Confirm.{
  masternode_mn1_confirm, confirm_ticket, second_confirmation, place_chunk, place_chunks,
  masternode_place_image_data_in_chunkstorage, write_to_blockchain, first_confirmation,
  confirmed_twice, set_manager, set_chunks, log_sent, signature_in, not_null, pick_ticket,
  max_confirmation_distance_in_blocks,
}
use stovacore.Ticketing.Rows.{
  IsGiven, IsNull, IsConsistentRow, IsConsistent, new_regticket-IsConsistentRow, save_regticket-All,
  get_by_code-All, pick-All, create_regticket-All,
}

own_upload-found :
    (w : Wire) (cnode : Cnode) (sender : String) (code : Bytes) (rows : List Regticket)
    (r : Regticket)
    → own_upload w cnode sender code rows ≡ ok r
    → get_by_code code rows ≡ ok r
unfolding own_upload
own_upload-found w cnode sender code rows r e =
    let (q, found, e₁) = >>=-eq-ok (get_by_code code rows) _ e in
    let (ticket, parsed, e₂) = >>=-eq-ok (unserialize_registration_ticket w q.regticket) _ e₁ in
    elim (Bool-cases (str_eq ticket.author sender)) [
      | inl same ↦ rw (← ok_inj (rw same at e₂)) found
      | inr other ↦ absurd (refused (rw other at e₂))
    ]
  where
    refused : err exception ≡ ok r → ⊥
    refused h = cc

pub known_upload-found :
    (code : Bytes) (rows : List Regticket) (r : Regticket)
    → known_upload code rows ≡ ok r
    → get_by_code code rows ≡ ok r
unfolding known_upload
known_upload-found code rows r e = elim (Result-cases (get_by_code code rows)) [
  | inl (x, missing) ↦ absurd (refused (rw (missing, known_upload) at e))
  | inr (q, found) ↦ rw (← ok_inj (rw (found, known_upload) at e)) found
]
  where
    refused : err value_error ≡ ok r → ⊥
    refused h = cc

abbrev Ok : Node → Type 0
Ok n = IsConsistent n

module _ (w : Wire) (cnode : Cnode) where
  pub registration-IsConsistent :
      (code : Bytes) (now : ℕ) (ticket signature : Bytes) (sender : String) (n : Node)
      → Ok n
      → Ok (masternode_validate_registration_ticket w cnode code now ticket signature sender n).0
  unfolding masternode_validate_registration_ticket
  registration-IsConsistent code now ticket signature sender n h =
      after_query Ok n (unserialize_registration_ticket w ticket) _ h λ t e.
        after_query Ok n (unserialize_signature w signature) _ h λ signed e₁.
          after_query Ok n (require_true (str_eq signed.pastelid t.author)) _ h λ same e₂.
            after_query Ok n (validate_ticket_signature w cnode t signed) _ h λ valid e₃.
              after_query Ok n (validate_registration_ticket _ _ _) _ h λ checked e₄.
                let new =
                  new_regticket (next_id n.regtickets) ticket code signature now sender
                    t.imagedata_hash in
                after_query Ok n (create_regticket new n.regtickets) _ h λ rows made.
                  create_regticket-All (IsConsistentRow) new n.regtickets rows
                    (new_regticket-IsConsistentRow _ _ _ _ _ _ _) h made

  pub mn0_upload-IsConsistent :
      (code image : Bytes) (sender : String) (n : Node)
      → Ok n
      → Ok (masternode_image_upload_request_mn0 w cnode code image sender n).0
  unfolding masternode_image_upload_request_mn0 save
  mn0_upload-IsConsistent code image sender n h =
      after_query Ok n (own_upload w cnode sender code n.regtickets) _ h λ r e.
        after_query Ok n cnode.getlocalfee _ h λ fee e'.
          let v =
            get_by_code-All (IsConsistentRow) code n.regtickets r h
              (own_upload-found w cnode sender code n.regtickets r e) in
          save_regticket-All (IsConsistentRow)
            (record r { image_data = some image; localfee = some fee }) n.regtickets
            (record {
              first = v.first;
              second = v.second;
              later = v.later;
              validated = inr tt;
              uploaded = inr tt;
              status_created = v.status_created;
              no_error = v.no_error;
            })
            h

  pub upload-IsConsistent :
      (code image : Bytes) (sender : String) (n : Node)
      → Ok n
      → Ok (masternode_image_upload_request w cnode code image sender n).0
  unfolding masternode_image_upload_request save
  upload-IsConsistent code image sender n h =
      after_query Ok n (own_upload w cnode sender code n.regtickets) _ h λ r e.
        let v =
          get_by_code-All (IsConsistentRow) code n.regtickets r h
            (own_upload-found w cnode sender code n.regtickets r e) in
        save_regticket-All (IsConsistentRow) (record r { image_data = some image }) n.regtickets
          (record {
            first = v.first;
            second = v.second;
            later = v.later;
            validated = v.validated;
            uploaded = inr tt;
            status_created = v.status_created;
            no_error = v.no_error;
          })
          h

  module _ (meanwhile : ℕ → Node → Node)
      (keeps : (i : ℕ) (n : Node) → Ok n → Ok (meanwhile i n)) where
    fetch-IsConsistent :
        (fuel called : ℕ) (txid : String) (n : Node)
        → Ok n
        → Ok (fetch_transaction w cnode meanwhile fuel called txid n).0
    unfolding fetch_transaction
    fetch-IsConsistent zero called txid n h = h
    fetch-IsConsistent (suc fuel) called txid n h =
        elim (Result-cases (cnode.getrawtransaction called txid)) [
          | inr (raw, answered) ↦ rw (answered, fetch_transaction) h
          | inl (e, failed) ↦
              rw (failed, fetch_transaction)
                (fetch-IsConsistent fuel (suc called) txid (meanwhile called n) (keeps called n h))
        ]

    pub amounts-IsConsistent :
        (networkfee : ℕ) (amounts : List ℕ) (r : Regticket) (n : Node)
        → IsConsistentRow r
        → Ok n
        → Ok (check_amounts w cnode meanwhile networkfee amounts r r.localfee n).0
    unfolding check_amounts save
    amounts-IsConsistent networkfee amounts r n v h = by_fee r.localfee refl
      where
        by_fee :
            (fee : Option ℕ)
            → r.localfee ≡ fee
            → Ok (check_amounts w cnode meanwhile networkfee amounts r fee n).0
        by_fee none e = h
        by_fee (some fee) e =
            after_if Ok (some_amount (near_local_fee fee) amounts) _ _ n
              (save_regticket-All (IsConsistentRow) (record r { is_valid_mn0 = some true })
                n.regtickets
                (record {
                  first = v.first;
                  second = v.second;
                  later = v.later;
                  validated = inr (rw e tt);
                  uploaded = v.uploaded;
                  status_created = v.status_created;
                  no_error = v.no_error;
                })
                h)
              h

    burn_tx-IsConsistent :
        (fuel : ℕ) (r : Regticket) (txid : String) (n : Node)
        → IsConsistentRow r
        → Ok n
        → Ok (is_burn_tx_valid w cnode meanwhile fuel r txid n).0
    unfolding is_burn_tx_valid is_burn_10_tx_height_valid is_burn_10_tx_amount_valid
    burn_tx-IsConsistent fuel r txid n v h =
        after_step Ok (is_burn_10_tx_height_valid w cnode meanwhile fuel 0 r txid n) _
          (after_query Ok n (unserialize_registration_ticket w r.regticket) _ h λ ticket e.
            after_step Ok (fetch_transaction w cnode meanwhile fuel 0 txid n) _
              (fetch-IsConsistent fuel 0 txid n h) λ answer n₁ h₁. h₁)
          λ height n₁ h₁.
            after_step Ok (is_burn_10_tx_amount_valid w cnode meanwhile fuel height.1 r txid n₁) _
              (after_query Ok n₁ cnode.getnetworkfee _ h₁ λ networkfee e.
                after_step Ok (fetch_transaction w cnode meanwhile fuel height.1 txid n₁) _
                  (fetch-IsConsistent fuel height.1 txid n₁ h₁)
                  λ answer n₂ h₂.
                    after_query Ok n₂ (vout_of w cnode meanwhile answer.0) _ h₂
                      λ amounts e₁. amounts-IsConsistent networkfee amounts r n₂ v h₂)
              λ amount n₂ h₂. h₂

    pub burn-IsConsistent :
        (is_nsfw : Option Bytes → Result Bool) (fuel : ℕ) (txid : String) (code : Bytes) (n : Node)
        → Ok n
        → Ok
            (masternode_validate_txid_upload_code_image w cnode meanwhile is_nsfw fuel txid code
              n).0
    unfolding masternode_validate_txid_upload_code_image
    burn-IsConsistent is_nsfw fuel txid code n h =
        after_query Ok n (known_upload code n.regtickets) _ h λ r e.
          let v =
            get_by_code-All (IsConsistentRow) code n.regtickets r h
              (known_upload-found code n.regtickets r e) in
          after_step Ok (is_burn_tx_valid w cnode meanwhile fuel r txid n) _
            (burn_tx-IsConsistent fuel r txid n v h)
            λ valid n₁ h₁. after_query Ok n₁ (guard valid value_error) _ h₁ λ paid e₁.
              after_query Ok n₁ (unserialize_registration_ticket w r.regticket) _ h₁ λ ticket e₂.
                after_query Ok n₁ (is_nsfw r.image_data) _ h₁
                  λ nsfw e₃. after_query Ok n₁ (guard (not nsfw) value_error) _ h₁ λ allowed e₄. h₁
