-- ===== src/Ticketing/Segments.antt =====
-- The handler of a burn transaction of core_modules/masternode_ticketing.py is made of the steps of
-- Ticketing.Interleaved.
use stovacore.Prelude.{
  ℕ, zero, suc, ◌≡◌, refl, ap, Bool, not, Option, none, some, List, [], ◌∷◌, String, inl, inr,
}
use stovacore.Prelude.Result.{Result, ok, err, Result-cases, guard, value_error}
use stovacore.Prelude.Run.{Run, continue, after_step, after_query}
use stovacore.Prelude.Bytes.{Bytes}
use stovacore.Ticketing.{Regticket, Node}
use stovacore.Ticketing.Models.{unserialize_registration_ticket}
use stovacore.Ticketing.Burn.{
  Cnode, check_amounts, fetch_transaction, is_burn_tx_valid, is_burn_10_tx_height_valid,
  is_burn_10_tx_amount_valid, vout_of,
}
use stovacore.Ticketing.Checks.{known_upload}
use stovacore.Ticketing.Upload.{masternode_validate_txid_upload_code_image}
use stovacore.Ticketing.Place.{Imaging}
use stovacore.Ticketing.Interleaved.{System, Reach, here, next, begins, ends, fails, end_check}

-- What holds after a block whose first step keeps `P`, from which `Q` follows.
after_two {ℓ} :
    {S A B : Type ℓ} (P Q : S → Type ℓ) (p : S × Result A) (f : A → Run S B)
    → P p.0
    → ((s : S) → P s → Q s)
    → ((a : A) (s : S) → P s → Q (f a s).0)
    → Q (continue p f).0
after_two P Q (s, err e) f h drop k = drop s h
after_two P Q (s, ok a) f h drop k = k a s h

module _ (im : Imaging) (fuel : ℕ) (cnode : Cnode) (blob : String → Bytes)
    (is_nsfw : Option Bytes → Result Bool) (meanwhile : ℕ → Node → Node) where
  open im use {wire}

  abbrev Reaches : System → System → Type 0
  Reaches s t = Reach im fuel cnode blob is_nsfw s t

  Reach-trans : {s t u : System} → Reaches s t → Reaches t u → Reaches s u
  Reach-trans h here = h
  Reach-trans h (next k st) = next (Reach-trans h k) st

  same_end :
      (networkfee : ℕ) (amounts : List ℕ) (r : Regticket) (fee : Option ℕ) (n : Node)
      → (check_amounts wire cnode meanwhile networkfee amounts r fee n).0
        ≡ (check_amounts wire cnode (λ i m. m) networkfee amounts r fee n).0
  unfolding check_amounts
  same_end networkfee amounts r none n = refl
  same_end networkfee amounts r (some fee) n = refl

  module _ (sleeps : (i : ℕ) (t : System) → Reaches t (record t { node = meanwhile i t.node }))
      (s : System) (r : Regticket) where
    abbrev P : Node → Type 0
    P n = Reaches s (record { node = n; checks = r ∷ s.checks })

    abbrev Q : Node → Type 0
    Q n = Reaches s (record { node = n; checks = s.checks })

    give_up : (n : Node) → P n → Q n
    give_up n h = next h (fails [] s.checks r refl refl)

    end_check-Reach :
        (networkfee : ℕ) (amounts : List ℕ) (n : Node)
        → P n
        → Q (check_amounts wire cnode meanwhile networkfee amounts r r.localfee n).0
    unfolding end_check
    end_check-Reach networkfee amounts n h = next h (
        ends [] s.checks r networkfee amounts refl (
          ap (λ m. record { node = m; checks = s.checks })
            (same_end networkfee amounts r r.localfee n)))

    fetch-Reach :
        (rounds called : ℕ) (txid : String) (n : Node)
        → P n
        → P (fetch_transaction wire cnode meanwhile rounds called txid n).0
    unfolding fetch_transaction
    fetch-Reach zero called txid n h = h
    fetch-Reach (suc rounds) called txid n h =
        elim (Result-cases (cnode.getrawtransaction called txid)) [
          | inr (raw, answered) ↦ rw (answered, fetch_transaction) h
          | inl (e, failed) ↦
              rw (failed, fetch_transaction)
                (fetch-Reach rounds (suc called) txid (meanwhile called n)
                  (Reach-trans h (sleeps called (record { node = n; checks = r ∷ s.checks }))))
        ]

    checks-Reach :
        (rounds : ℕ) (txid : String) (n : Node)
        → P n
        → Q (is_burn_tx_valid wire cnode meanwhile rounds r txid n).0
    unfolding is_burn_tx_valid is_burn_10_tx_height_valid is_burn_10_tx_amount_valid
    checks-Reach rounds txid n h =
        after_two P Q (is_burn_10_tx_height_valid wire cnode meanwhile rounds 0 r txid n) _
          (after_query P n (unserialize_registration_ticket wire r.regticket) _ h λ ticket e.
            after_step P (fetch_transaction wire cnode meanwhile rounds 0 txid n) _
              (fetch-Reach rounds 0 txid n h) λ answer n₁ h₁. h₁)
          give_up
          λ height n₁ h₁.
            after_step Q (is_burn_10_tx_amount_valid wire cnode meanwhile rounds height.1 r txid n₁)
              _
              (after_query Q n₁ cnode.getnetworkfee _ (give_up n₁ h₁) λ networkfee e.
                after_two P Q (fetch_transaction wire cnode meanwhile rounds height.1 txid n₁) _
                  (fetch-Reach rounds height.1 txid n₁ h₁) give_up
                  λ answer n₂ h₂.
                    after_query Q n₂ (vout_of wire cnode meanwhile answer.0) _ (give_up n₂ h₂)
                      λ amounts e₁. end_check-Reach networkfee amounts n₂ h₂)
              λ amount n₂ h₂. h₂

  -- If what happens in each sleep is made of steps, the whole handler of a burn transaction is.
  pub burn-Reach :
      (rounds : ℕ) (txid : String) (code : Bytes) (s : System)
      → ((i : ℕ) (t : System) → Reaches t (record t { node = meanwhile i t.node }))
      → Reaches s (record s {
        node =
            (masternode_validate_txid_upload_code_image wire cnode meanwhile is_nsfw rounds txid
              code s.node).0;
      })
  unfolding masternode_validate_txid_upload_code_image
  burn-Reach rounds txid code s sleeps =
      after_query (λ n. Reaches s (record s { node = n })) s.node
        (known_upload code s.node.regtickets) _ here
        λ r e.
          after_step (Q sleeps s r) (is_burn_tx_valid wire cnode meanwhile rounds r txid s.node) _
            (checks-Reach sleeps s r rounds txid s.node (next here (begins code r e refl)))
            λ valid n₁ h₁. after_query (Q sleeps s r) n₁ (guard valid value_error) _ h₁ λ paid e₁.
              after_query (Q sleeps s r) n₁ (unserialize_registration_ticket wire r.regticket) _ h₁
                λ ticket e₂. after_query (Q sleeps s r) n₁ (is_nsfw r.image_data) _ h₁ λ nsfw e₃.
                  after_query (Q sleeps s r) n₁ (guard (not nsfw) value_error) _ h₁ λ allowed e₄. h₁
