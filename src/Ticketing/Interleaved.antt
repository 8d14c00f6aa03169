-- ===== src/Ticketing/Interleaved.antt =====
-- The handlers of core_modules/masternode_ticketing.py in turns. Only the handler of a burn
-- transaction waits, in the sleeps of its checks; the others run from start to end. It reads one row
-- when it begins and writes at most this row, when its checks end; between these any other steps
-- happen, those of other checks that sleep included. Its call of MN0 is never awaited: on the nodes
-- that make it, signing raises before.
use stovacore.Prelude.{ℕ, ◌≡◌, Bool, Option, List, [], ◌∷◌, ◌++◌, String, All}
use stovacore.Prelude.Result.{Result, ok}
use stovacore.Prelude.Bytes.{Bytes}
use stovacore.Ticketing.{Regticket, Node}
use stovacore.Ticketing.Burn.{Cnode, check_amounts}
use stovacore.Ticketing.Checks.{known_upload}
use stovacore.Ticketing.Place.{Imaging}
use stovacore.Ticketing.Preserve.{amounts-IsConsistent, known_upload-found}
use stovacore.Ticketing.Rows.{IsConsistentRow, IsConsistent, get_by_code-All}
use stovacore.Ticketing.Traces.{Event, step, step-IsConsistent}

-- The node, and the rows that the checks which sleep have read.
pub record System : Type 0 where
  pub node : Node
  pub checks : List Regticket

module _ (im : Imaging) (fuel : ℕ) (cnode : Cnode) (blob : String → Bytes)
    (is_nsfw : Option Bytes → Result Bool) where
  open im use {wire}

  -- the end of the checks of `r`, with what cNode answered
  unfoldable pub end_check : ℕ → List ℕ → Regticket → Node → Node
  unfolding check_amounts
  end_check networkfee amounts r n =
      (check_amounts wire cnode (λ i m. m) networkfee amounts r r.localfee n).0

  pub data Step (s t : System) : Type 0 where
    handler :
        (e : Event) → t ≡ record s { node = step im fuel cnode blob is_nsfw e s.node } → Step s t
    begins :
        (code : Bytes) (r : Regticket)
        → known_upload code s.node.regtickets ≡ ok r
        → t ≡ record s { checks = r ∷ s.checks }
        → Step s t
    ends :
        (before after : List Regticket) (r : Regticket) (networkfee : ℕ) (amounts : List ℕ)
        → s.checks ≡ before ++ r ∷ after
        → t ≡ record { node = end_check networkfee amounts r s.node; checks = before ++ after }
        → Step s t
    -- an exception, or an answer that fails the height
    fails :
        (before after : List Regticket) (r : Regticket)
        → s.checks ≡ before ++ r ∷ after
        → t ≡ record s { checks = before ++ after }
        → Step s t

  pub data Reach (s : System) : System → Type 0 where
    here : Reach s s
    next : {t u : System} → Reach s t → Step t u → Reach s u

  -- All rows, and those that the checks have read, are consistent.
  abbrev pub IsSound : System → Type 0
  IsSound s = IsConsistent s.node × All IsConsistentRow s.checks

  All-middle :
      (before after : List Regticket) (r : Regticket)
      → All IsConsistentRow (before ++ r ∷ after)
      → IsConsistentRow r × All IsConsistentRow (before ++ after)
  All-middle [] after r h = h
  All-middle (q ∷ before) after r h =
      let (v, rest) = All-middle before after r h.1 in (v, (h.0, rest))

  Step-IsSound : (s t : System) → Step s t → IsSound s → IsSound t
  unfolding end_check
  Step-IsSound s t (handler e eq) h =
      rw eq (step-IsConsistent im fuel cnode blob is_nsfw e s.node h.0, h.1)
  Step-IsSound s t (begins code r found eq) h = rw eq (
    h.0,
    (
      get_by_code-All IsConsistentRow code s.node.regtickets r h.0
          (known_upload-found code s.node.regtickets r found),
      h.1,
    ),
  )
  Step-IsSound s t (ends before after r networkfee amounts there eq) h =
      let (v, rest) = All-middle before after r (rw there at h.1) in
      rw eq (
        amounts-IsConsistent wire cnode (λ i m. m) (λ i n k. k) networkfee amounts r s.node v h.0,
        rest,
      )
  Step-IsSound s t (fails before after r there eq) h =
      let (v, rest) = All-middle before after r (rw there at h.1) in rw eq (h.0, rest)

  -- In whatever order the handlers run, with the checks of any number of burn transactions sleeping in
  -- turns and writing back the rows that they have read: from a node whose rows, with those that the
  -- sleeping checks have read, are consistent, only such a node is reached.
  pub Reach-IsSound : {s t : System} → Reach s t → IsSound s → IsSound t
  Reach-IsSound here h = h
  Reach-IsSound (next r st) h = Step-IsSound _ _ st (Reach-IsSound r h)
