-- ===== src/Ticketing/Retry.antt =====
-- The retry loops of the burn checks, and what the handler of a burn transaction does at its end.

use stovacore.Prelude.{
  ℕ, zero, suc, ◌+◌, ◌<◌, ◌≡◌, ◌≢◌, refl, sym, ap, ◌∙◌, inl, inr, Bool, true, false, not, Option,
  none, some, List, [], ◌∷◌, ◌==◌, ==_iff, String, All, arith, Bool-cases, if◌then◌else◌,
}
use stovacore.Prelude.Result.{
  Result, Error, ok, err, out_of_fuel, type_error, guard, value_error, ok_inj, >>=-eq-ok,
}
use stovacore.Prelude.Run.{step-eq-ok, query-eq-ok}
use stovacore.Prelude.Bytes.{Bytes}
use stovacore.Ordering.{get_masternode_ordering}
use stovacore.Ticketing.{Regticket, Node, get_by_code, save_regticket, save}
use stovacore.Ticketing.Models.{Wire, RegistrationTicket, unserialize_registration_ticket}
use stovacore.Ticketing.Burn.{
  Cnode, RawTransaction, Verdict, passed, failed, fetch_transaction, check_amounts,
  is_burn_tx_valid, is_burn_10_tx_height_valid, is_burn_10_tx_amount_valid, vout_of, some_amount,
  near_local_fee, both_passed,
}
use stovacore.Ticketing.Checks.{answer_payment, confirm_at_mn0, known_upload, first_client}
use stovacore.Ticketing.Upload.{masternode_validate_txid_upload_code_image}

module _ (w : Wire) (cnode : Cnode) (meanwhile : ℕ → Node → Node) where
  open cnode use {getrawtransaction}

  -- what the other handlers did during `k` sleeps, the first of them after the call `called`
  abbrev pub slept : ℕ → ℕ → Node → Node
  slept called zero n = n
  slept called (suc k) n = slept (suc called) k (meanwhile called n)

  at_zero : (a : ℕ) → a + 0 ≡ a
  at_zero a = omega arith

  shift : (a k : ℕ) → suc a + k ≡ a + suc k
  shift a k = omega arith

  -- If cNode answers the call after `k` calls that raised, the loop returns its answer, with fuel
  -- for these calls.
  pub fetch_transaction-answer :
      (fuel k called : ℕ) (txid : String) (n : Node) (raw : Option RawTransaction)
      → k < fuel
      → ((i : ℕ) → i < k → (e : Error) × (getrawtransaction (called + i) txid ≡ err e))
      → getrawtransaction (called + k) txid ≡ ok raw
      → fetch_transaction w cnode meanwhile fuel called txid n
        ≡ (slept called k n, ok (raw, suc (called + k)))
  unfolding fetch_transaction
  fetch_transaction-answer zero k called txid n raw lt f e = absurd (omega (arith, lt))
  fetch_transaction-answer (suc fuel) zero called txid n raw lt f e =
      let now : getrawtransaction called txid ≡ ok raw = rw (at_zero called) at e in
      rw (now, fetch_transaction, at_zero called) refl
  fetch_transaction-answer (suc fuel) (suc k) called txid n raw lt f e =
      let (x, broken) = f 0 (omega arith) in
      let now : getrawtransaction called txid ≡ err x = rw (at_zero called) at broken in
      rw (now, fetch_transaction, ← shift called k)
        (fetch_transaction-answer fuel k (suc called) txid (meanwhile called n) raw
          (omega (arith, lt)) (λ i l. rw (shift called i) (f (suc i) (omega (arith, l))))
          (rw (shift called k) e))

  -- While every call raises the loop goes on, whatever is raised: with any fuel it has made a call a
  -- unit and slept after each, and it is still running.
  pub fetch_transaction-endless :
      (fuel called : ℕ) (txid : String) (n : Node)
      → ((i : ℕ) → i < fuel → (e : Error) × (getrawtransaction (called + i) txid ≡ err e))
      → fetch_transaction w cnode meanwhile fuel called txid n
        ≡ (slept called fuel n, err out_of_fuel)
  unfolding fetch_transaction
  fetch_transaction-endless zero called txid n f = refl
  fetch_transaction-endless (suc fuel) called txid n f =
      let (x, broken) = f 0 (omega arith) in
      let now : getrawtransaction called txid ≡ err x = rw (at_zero called) at broken in
      rw (now, fetch_transaction)
        (fetch_transaction-endless fuel (suc called) txid (meanwhile called n)
          (λ i l. rw (shift called i) (f (suc i) (omega (arith, l)))))

  no_confirmation :
      (ticket : RegistrationTicket) (fee : Option ℕ) (a : String)
      → fee ≡ none
      → answer_payment w cnode ticket fee ≢ ok a
  unfolding answer_payment confirm_at_mn0
  no_confirmation ticket (some fee) a e h = cc
  no_confirmation ticket none a e h =
      let (workers, e₁, h₁) = >>=-eq-ok (cnode.masternode_top ticket.blocknum) _ h in
      let (clients, e₂, h₂) = >>=-eq-ok (get_masternode_ordering workers) _ h₁ in
      let (mn0, e₃, h₃) = >>=-eq-ok (first_client clients) _ h₂ in raised h₃
    where
      raised : err type_error ≡ ok a → ⊥
      raised k = cc

  -- On a node without a local fee, which is MN1 or MN2, the handler of a burn transaction never
  -- returns.
  pub payment-without_fee :
      (is_nsfw : Option Bytes → Result Bool) (fuel : ℕ) (txid : String) (code : Bytes) (n : Node)
      (r : Regticket) (n' : Node) (a : String)
      → get_by_code code n.regtickets ≡ ok r
      → r.localfee ≡ none
      → masternode_validate_txid_upload_code_image w cnode meanwhile is_nsfw fuel txid code n
        ≢ (n', ok a)
  unfolding masternode_validate_txid_upload_code_image known_upload
  payment-without_fee is_nsfw fuel txid code n r n' a found unpaid h =
      let known : known_upload code n.regtickets ≡ ok r = rw (found, known_upload) refl in
      let (n₁, valid, e₁, h₁) =
        step-eq-ok (is_burn_tx_valid w cnode meanwhile fuel r txid n) _ (rw known at h) in
      let (paid, e₂, h₂) = query-eq-ok n₁ (guard valid value_error) _ h₁ in
      let (ticket, e₃, h₃) = query-eq-ok n₁ (unserialize_registration_ticket w r.regticket) _ h₂ in
      let (nsfw, e₄, h₄) = query-eq-ok n₁ (is_nsfw r.image_data) _ h₃ in
      let (allowed, e₅, h₅) = query-eq-ok n₁ (guard (not nsfw) value_error) _ h₄ in
      no_confirmation ticket r.localfee a unpaid (ap (λ x. x.1) h₅)

  saved_columns :
      (new : Regticket) (rows : List Regticket)
      → All (λ q. q.id ≡ new.id → q ≡ new) (save_regticket new rows)
  unfolding save_regticket
  saved_columns new [] = tt
  saved_columns new (r ∷ rows) = (column (new.id == r.id) refl, saved_columns new rows)
    where
      differ : true ≡ false → ⊥
      differ k = cc

      column :
          (b : Bool)
          → (new.id == r.id) ≡ b
          → (if b then new else r).id ≡ new.id
          → (if b then new else r) ≡ new
      column true e h = refl
      column false e h = absurd (differ (rw ((==_iff new.id r.id).1 (sym h)) at e))

  checked-columns :
      (networkfee : ℕ) (amounts : List ℕ) (r : Regticket) (n n' : Node) (fee : ℕ)
      → check_amounts w cnode meanwhile networkfee amounts r (some fee) n ≡ (n', ok passed)
      → All (λ q. q.id ≡ r.id → q ≡ record r { is_valid_mn0 = some true }) n'.regtickets
  unfolding check_amounts save
  checked-columns networkfee amounts r n n' fee h =
      elim (Bool-cases (some_amount (near_local_fee fee) amounts)) [
        | inl valid ↦
            rw (← ap (λ x. x.0.regtickets) (rw valid at h))
              (saved_columns (record r { is_valid_mn0 = some true }) n.regtickets)
        | inr none_valid ↦ absurd (refused (ok_inj (ap (λ x. x.1) (rw none_valid at h))))
      ]
    where
      refused : failed ≡ passed → ⊥
      refused k = cc

  amount-columns :
      (fuel called : ℕ) (r : Regticket) (txid : String) (n n' : Node) (fee : ℕ)
      → r.localfee ≡ some fee
      → is_burn_10_tx_amount_valid w cnode meanwhile fuel called r txid n ≡ (n', ok passed)
      → All (λ q. q.id ≡ r.id → q ≡ record r { is_valid_mn0 = some true }) n'.regtickets
  unfolding is_burn_10_tx_amount_valid
  amount-columns fuel called r txid n n' fee e h =
      let (networkfee, e₁, h₁) = query-eq-ok n cnode.getnetworkfee _ h in
      let (n₁, answer, e₂, h₂) =
        step-eq-ok (fetch_transaction w cnode meanwhile fuel called txid n) _ h₁ in
      let (amounts, e₃, h₃) = query-eq-ok n₁ (vout_of w cnode meanwhile answer.0) _ h₂ in
      checked-columns networkfee amounts r n₁ n' fee (by_fee networkfee amounts n₁ r.localfee e h₃)
    where
      by_fee :
          (networkfee : ℕ) (amounts : List ℕ) (n₁ : Node) (f : Option ℕ)
          → f ≡ some fee
          → check_amounts w cnode meanwhile networkfee amounts r f n₁ ≡ (n', ok passed)
          → check_amounts w cnode meanwhile networkfee amounts r (some fee) n₁ ≡ (n', ok passed)
      by_fee networkfee amounts n₁ f e k = rw e at k

  -- When the checks pass on a node with a local fee, the row of the registration has the columns
  -- that were read before the calls, and the mark of MN0: what other handlers wrote there
  -- meanwhile is lost.
  pub burn-columns :
      (fuel : ℕ) (r : Regticket) (txid : String) (n n' : Node) (fee : ℕ)
      → r.localfee ≡ some fee
      → is_burn_tx_valid w cnode meanwhile fuel r txid n ≡ (n', ok true)
      → All (λ q. q.id ≡ r.id → q ≡ record r { is_valid_mn0 = some true }) n'.regtickets
  unfolding is_burn_tx_valid both_passed
  burn-columns fuel r txid n n' fee e h =
      let (n₁, (height, called), e₁, h₁) =
        step-eq-ok (is_burn_10_tx_height_valid w cnode meanwhile fuel 0 r txid n) _ h in
      let (n₂, amount, e₂, h₂) =
        step-eq-ok (is_burn_10_tx_amount_valid w cnode meanwhile fuel called r txid n₁) _ h₁ in
      rw (← ap (λ x. x.0.regtickets) h₂) (
        amount-columns fuel called r txid n₁ n₂ fee e
          (e₂ ∙ ap (λ v. (n₂, ok v)) (second height amount (ok_inj (ap (λ x. x.1) h₂)))))
    where
      untrue : false ≡ true → ⊥
      untrue k = cc

      second : (u v : Verdict) → both_passed w cnode meanwhile u v ≡ true → v ≡ passed
      second passed passed k = refl
      second passed failed k = absurd (untrue k)
      second failed v k = absurd (untrue k)
