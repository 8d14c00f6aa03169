-- ===== src/Ticketing/Preserve/Confirmation.antt =====
-- `masternode_mn1_confirm`: the table after a confirmation, and its consistency.
use stovacore.Prelude.{
  ℕ, ◌-◌, ltb, ◌≡◌, refl, Bool, true, not, Option, none, some, List, [], ◌∷◌, String,
}
use stovacore.Prelude.Result.{exception, guard}
use stovacore.Prelude.Run.{after_step, after_query}
use stovacore.Prelude.Bytes.{Bytes}
use stovacore.Ticketing.{Regticket, Node, save_regticket, save, select_tickets}
use stovacore.Storage.{store_chunk_in_temp_storage}
use stovacore.Tasks.Rows.{create_from_hash}
use stovacore.Ticketing.Models.{
  RegistrationTicket, unserialize_registration_ticket, unserialize_signature,
}
use stovacore.Ticketing.Burn.{Cnode}
use stovacore.Ticketing.Place.{Imaging, image_data_of}
use stovacore.Ticketing.Confirm.{
  is_sender_never, masternode_mn1_confirm, confirm_ticket, second_confirmation, place_chunk,
  place_chunks, masternode_place_image_data_in_chunkstorage, write_to_blockchain, confirmed_twice,
  set_manager, set_chunks, log_sent, signature_in, not_null, pick_ticket,
  max_confirmation_distance_in_blocks,
}
use stovacore.Ticketing.Rows.{IsConsistentRow, IsConsistent, save_regticket-All, pick-All}

module _ (im : Imaging) (fuel : ℕ) (cnode : Cnode) (blob : String → Bytes) where
  -- Placing the chunks and writing to the blockchain leave the table as it is.
  module _ (rows : List Regticket) where
    abbrev Same : Node → Type 0
    Same n = n.regtickets ≡ rows

    place_chunk-Same :
        (hash bytes artwork : Bytes) (n : Node)
        → Same n
        → Same (place_chunk im fuel cnode blob hash bytes artwork n).0
    unfolding place_chunk set_manager set_chunks
    place_chunk-Same hash bytes artwork n h =
        after_query Same n (store_chunk_in_temp_storage _ _ _ n.manager) _ h λ m e.
          after_query Same (record n { manager = m }) (create_from_hash hash artwork true n.chunks)
            _ h λ chunks e₁. h

    place_chunks-Same :
        (hashes chunks : List Bytes) (artwork : Bytes) (n : Node)
        → Same n
        → Same (place_chunks im fuel cnode blob hashes chunks artwork n).0
    unfolding place_chunks
    place_chunks-Same [] chunks artwork n h = h
    place_chunks-Same (hash ∷ hashes) [] artwork n h = h
    place_chunks-Same (hash ∷ hashes) (bytes ∷ chunks) artwork n h =
        after_step Same (place_chunk im fuel cnode blob hash bytes artwork n) _
          (place_chunk-Same hash bytes artwork n h)
          λ done n₁ h₁. place_chunks-Same hashes chunks artwork n₁ h₁

    place-Same :
        (ticket : RegistrationTicket) (image : Option Bytes) (n : Node)
        → Same n
        → Same (masternode_place_image_data_in_chunkstorage im fuel cnode blob ticket image n).0
    unfolding masternode_place_image_data_in_chunkstorage
    place-Same ticket image n h =
        after_query Same n (image_data_of im fuel image ticket.lubyseeds) _ h λ d e.
          after_step Same (place_chunk im fuel cnode blob _ _ _ n) _
            (place_chunk-Same ticket.thumbnailhash d.thumbnail ticket.thumbnailhash n h)
            λ done n₁ h₁. place_chunks-Same _ _ _ n₁ h₁

    signature-Same :
        (column : Option Bytes) (n : Node)
        → Same n
        → Same (signature_in im fuel cnode blob column n).0
    unfolding signature_in
    signature-Same column n h = after_query Same n (not_null column) _ h λ packed e. h

    write-Same :
        (r : Regticket) (n : Node) → Same n → Same (write_to_blockchain im fuel cnode blob r n).0
    unfolding write_to_blockchain log_sent
    write-Same r n h =
        after_query Same n (unserialize_registration_ticket im.wire r.regticket) _ h λ ticket e.
          after_query Same n cnode.getblockcount _ h λ block e₁.
            let late = ltb max_confirmation_distance_in_blocks (block - ticket.blocknum) in
            after_query Same n (guard (not late) exception) _ h λ in_time e₂.
              after_query Same n (unserialize_signature im.wire r.artists_signature_ticket) _ h
                λ artist e₃.
                  after_step Same (signature_in im fuel cnode blob r.mn1_serialized_signature n) _
                    (signature-Same r.mn1_serialized_signature n h)
                    λ mn2 n₁ h₁.
                      after_step Same
                        (signature_in im fuel cnode blob r.mn2_serialized_signature n₁) _
                        (signature-Same r.mn2_serialized_signature n₁ h₁)
                        λ mn3 n₂ h₂. after_query Same n₂ (not_null r.localfee) _ h₂ λ fee e₄. h₂

  -- After a second confirmation the row is saved, whatever else happens.
  pub second_confirmation-regtickets :
      (r : Regticket) (sender : String) (signature : Bytes) (n : Node)
      → (second_confirmation im fuel cnode blob r sender signature n).0.regtickets
        ≡ save_regticket (confirmed_twice im fuel cnode blob r sender signature) n.regtickets
  unfolding second_confirmation save
  second_confirmation-regtickets r sender signature n =
      let saved = record n {
        regtickets =
            save_regticket (confirmed_twice im fuel cnode blob r sender signature) n.regtickets;
      } in
      after_query (Same saved.regtickets) saved
        (unserialize_registration_ticket im.wire r.regticket) _ refl
        λ ticket e.
          after_step (Same saved.regtickets)
            (masternode_place_image_data_in_chunkstorage im fuel cnode blob ticket r.image_data
              saved)
            _ (place-Same saved.regtickets ticket r.image_data saved refl)
            λ done n₁ h₁.
              write-Same saved.regtickets (confirmed_twice im fuel cnode blob r sender signature) n₁
                h₁

  pub confirmation-IsConsistent :
      (artist : String) (hash signature : Bytes) (sender : String) (n : Node)
      → IsConsistent n
      → IsConsistent (masternode_mn1_confirm im fuel cnode blob artist hash signature sender n).0
  unfolding masternode_mn1_confirm
  confirmation-IsConsistent artist hash signature sender n h =
      after_query (IsConsistent) n (pick_ticket (select_tickets artist hash n.regtickets)) _ h
        λ r e.
          confirmed r (pick-All (IsConsistentRow) artist hash n.regtickets r h e) r.is_valid_mn1
            r.is_valid_mn2 refl refl
    where
      confirmed :
          (r : Regticket)
          → IsConsistentRow r
          → (mn1 mn2 : Option Bool) → r.is_valid_mn1 ≡ mn1
          → r.is_valid_mn2 ≡ mn2
          → IsConsistent (confirm_ticket im fuel cnode blob mn1 mn2 r sender signature n).0
      confirmed r v (some u) (some x) e₁ e₂ = h
      confirmed r v none (some x) e₁ e₂ = absurd (rw (e₁, e₂) at v.later)
      confirmed r v none none e₁ e₂ =
          save_regticket-All (IsConsistentRow)
            (record r {
              is_valid_mn1 = some true;
              mn1_pk = some sender;
              mn1_serialized_signature = some signature;
            })
            n.regtickets
            (record {
              first = (refl, tt, tt);
              second = v.second;
              later = rw e₂ tt;
              validated = v.validated;
              uploaded = v.uploaded;
              status_created = v.status_created;
              no_error = v.no_error;
            })
            h
      confirmed r v (some u) none e₁ e₂ =
          rw
            (
              is_sender_never blob r.mn1_pk sender,
              second_confirmation-regtickets r sender signature n,
            )
            (save_regticket-All IsConsistentRow
              (confirmed_twice im fuel cnode blob r sender signature) n.regtickets
              (record {
                first = v.first;
                second = (refl, tt, tt);
                later = rw e₁ tt;
                validated = v.validated;
                uploaded = v.uploaded;
                status_created = v.status_created;
                no_error = v.no_error;
              })
              h)
