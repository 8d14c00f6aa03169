-- ===== src/Ticketing/Traces.antt =====
-- Every history of a node's registrations: the handlers of core_modules/masternode_ticketing.py
-- called in any order, with any arguments, and in each sleep of the check of a burn transaction. A
-- handler that starts in a sleep ends before it does: two checks that sleep in turns
-- are in Ticketing.Interleaved.
use stovacore.Prelude.{ℕ, zero, suc, ◌≡◌, refl, inl, inr, Bool, Option, none, List, String, All}
use stovacore.Prelude.Result.{Result, ok, err, Result-cases, ok_inj, exception}
use stovacore.Prelude.Bytes.{Bytes}
use stovacore.Ticketing.{Regticket, Node, Status, created_status, get_own}
use stovacore.Ticketing.Burn.{Cnode}
use stovacore.Ticketing.Checks.{regticket_status, status_of}
use stovacore.Ticketing.Upload.{
  masternode_validate_registration_ticket, masternode_image_upload_request_mn0,
  masternode_image_upload_request, masternode_validate_txid_upload_code_image,
}
use stovacore.Ticketing.Place.{Imaging}
use stovacore.Ticketing.Confirm.{masternode_mn1_confirm}
use stovacore.Ticketing.Preserve.{
  registration-IsConsistent, mn0_upload-IsConsistent, upload-IsConsistent, burn-IsConsistent,
}
use stovacore.Ticketing.Preserve.Confirmation.{confirmation-IsConsistent}
use stovacore.Ticketing.Rows.{IsConsistentRow, IsConsistent, get_own-All}

mutual
  pub data Event : Type 0 where
    registration : Bytes → ℕ → Bytes → Bytes → String → Event
    mn0_upload upload : Bytes → Bytes → String → Event
    -- with what happens during the sleep after each call of cNode
    burn : ℕ → String → Bytes → Sleeps → Event
    confirmation : String → Bytes → Bytes → String → Event

  pub data Events : Type 0 where
    no_events : Events
    then_events : Event → Events → Events

  pub data Sleeps : Type 0 where
    no_sleeps : Sleeps
    then_sleeps : Events → Sleeps → Sleeps

module _ (im : Imaging) (fuel : ℕ) (cnode : Cnode) (blob : String → Bytes)
    (is_nsfw : Option Bytes → Result Bool) where
  open im use {wire}

  unfoldable mutual
    pub step : Event → Node → Node
    step (registration code now ticket signature sender) n =
        (masternode_validate_registration_ticket wire cnode code now ticket signature sender n).0
    step (mn0_upload code image sender) n =
        (masternode_image_upload_request_mn0 wire cnode code image sender n).0
    step (upload code image sender) n =
        (masternode_image_upload_request wire cnode code image sender n).0
    step (burn rounds txid code during) n =
        (masternode_validate_txid_upload_code_image wire cnode (during_sleep during) is_nsfw rounds
          txid code n).0
    step (confirmation artist hash signature sender) n =
        (masternode_mn1_confirm im fuel cnode blob artist hash signature sender n).0

    pub run : Events → Node → Node
    run no_events n = n
    run (then_events e es) n = run es (step e n)

    pub during_sleep : Sleeps → ℕ → Node → Node
    during_sleep no_sleeps i n = n
    during_sleep (then_sleeps es more) zero n = run es n
    during_sleep (then_sleeps es more) (suc i) n = during_sleep more i n

  mutual
    unfolding step run during_sleep

    pub step-IsConsistent : (e : Event) (n : Node) → IsConsistent n → IsConsistent (step e n)
    step-IsConsistent (registration code now ticket signature sender) n h =
        registration-IsConsistent wire cnode code now ticket signature sender n h
    step-IsConsistent (mn0_upload code image sender) n h =
        mn0_upload-IsConsistent wire cnode code image sender n h
    step-IsConsistent (upload code image sender) n h =
        upload-IsConsistent wire cnode code image sender n h
    step-IsConsistent (burn rounds txid code during) n h =
        burn-IsConsistent wire cnode (during_sleep during)
          (λ i m k. sleeps-IsConsistent during i m k) is_nsfw rounds txid code n h
    step-IsConsistent (confirmation artist hash signature sender) n h =
        confirmation-IsConsistent im fuel cnode blob artist hash signature sender n h

    events-IsConsistent : (es : Events) (n : Node) → IsConsistent n → IsConsistent (run es n)
    events-IsConsistent no_events n h = h
    events-IsConsistent (then_events e es) n h =
        events-IsConsistent es (step e n) (step-IsConsistent e n h)

    sleeps-IsConsistent :
        (es : Sleeps) (i : ℕ) (n : Node) → IsConsistent n → IsConsistent (during_sleep es i n)
    sleeps-IsConsistent no_sleeps i n h = h
    sleeps-IsConsistent (then_sleeps es more) zero n h = events-IsConsistent es n h
    sleeps-IsConsistent (then_sleeps es more) (suc i) n h = sleeps-IsConsistent more i n h

  -- Whatever handlers a node runs one after the other, with whatever arguments, and whatever
  -- handlers run from start to end in each sleep of the check of a burn transaction: from consistent
  -- registrations it comes to consistent ones.
  pub run-IsConsistent : (es : Events) (n : Node) → IsConsistent n → IsConsistent (run es n)
  run-IsConsistent es n h = events-IsConsistent es n h

  answered :
      (upload_code : Bytes) (sender_id : String) (rows : List Regticket)
      → All (IsConsistentRow) rows
      → (a : Status × Option String) → regticket_status wire cnode upload_code sender_id rows ≡ ok a
      → a ≡ (created_status, none)
  unfolding regticket_status
  answered upload_code sender_id rows h a e =
      elim (Result-cases (get_own sender_id upload_code rows)) [
        | inl (x, missing) ↦ absurd (refused (rw (missing, regticket_status) at e))
        | inr (r, found) ↦
            let v = get_own-All (IsConsistentRow) sender_id upload_code rows r h found in
            rw
              (
                ← ok_inj (rw (found, regticket_status) at e),
                status_of,
                v.status_created,
                v.no_error,
              )
              refl
      ]
    where
      refused : err exception ≡ ok a → ⊥
      refused k = cc

  -- From consistent registrations, after any calls, a status that is returned is the first one and
  -- has no error.
  pub regticket_status-run :
      (es : Events) (n : Node) (upload_code : Bytes) (sender_id : String)
      (a : Status × Option String)
      → IsConsistent n
      → regticket_status wire cnode upload_code sender_id (run es n).regtickets ≡ ok a
      → a ≡ (created_status, none)
  regticket_status-run es n upload_code sender_id a h e =
      answered upload_code sender_id (run es n).regtickets (run-IsConsistent es n h) a e
