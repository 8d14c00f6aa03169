-- ===== src/Ticketing/Witnesses.antt =====
-- A registration on a small node, and the theorems applied to it.
use Prim.Native.String.{count}
use mathlib.Core.Path.{Path}
use stovacore.Prelude.{
  ℕ, zero, suc, ◌+◌, ◌*◌, ◌/◌, ◌≡◌, ◌≢◌, refl, inl, inr, Bool, true, false, Option, none, some, [],
  ◌∷◌, String, str_eq, All, arith, length, ltb, leb, ◌==◌, replicate, if◌then◌else◌,
}
use stovacore.Prelude.Result.{Result, ok, err, exception, connection_error, out_of_fuel}
use stovacore.Prelude.Bytes.{Bytes}
use stovacore.Validators.{
  ℤ, pos, negsuc, int_lt, FloatOps, Value, Values, str_value, bytes_value, int_value, float_value,
  list_value, no_values, one_more,
}
use stovacore.Ticketing.{
  Regticket, Node, Status, created_status, new_regticket, get_by_code, select_tickets,
  save_regticket,
}
use stovacore.Ticketing.Models.{
  Wire, Dictionary, RegistrationTicket, unserialize_registration_ticket,
}
use stovacore.Ticketing.Burn.{Cnode, fetch_transaction, is_burn_tx_valid}
use stovacore.Ticketing.Checks.{regticket_status, known_upload}
use stovacore.Ticketing.Upload.{
  masternode_validate_registration_ticket, masternode_image_upload_request_mn0,
  masternode_validate_txid_upload_code_image,
}
use stovacore.Ticketing.Place.{Imaging}
use stovacore.Ticketing.Confirm.{masternode_mn1_confirm, pick_ticket}
use stovacore.Ticketing.Rows.{IsConsistentRow}
use stovacore.Ticketing.Traces.{
  Events, confirmation, no_events, then_events, run, regticket_status-run,
}
use stovacore.Ticketing.Interleaved.{
  System, Reach, IsSound, here, next, begins, ends, end_check, Reach-IsSound,
}
use stovacore.Ticketing.Closed.{confirm-closed}
use stovacore.Ticketing.Twice.{IsConfirmedTwice, confirm-IsConfirmedTwice}
use stovacore.Ticketing.Retry.{
  slept, fetch_transaction-answer, fetch_transaction-endless, payment-without_fee, burn-columns,
}
use stovacore.Ticketing.Ownership.{Uploads, Registers, image_upload-Uploads, registration-Registers}

abbrev zeros : ℕ → Values ℤ
zeros zero = no_values
zeros (suc n) = one_more (float_value (pos 0)) (zeros n)

abbrev bytes64 : ℕ → Value ℤ
bytes64 b = bytes_value (replicate 64 b)

abbrev letters : ℕ → Value ℤ
letters n = str_value (replicate n 65)

abbrev ticket_items : Dictionary ℤ
ticket_items =
    ("author", letters 86)
    ∷ ("order_block_txid", letters 64)
    ∷ ("blocknum", int_value (pos 100))
    ∷ ("imagedata_hash", bytes64 3)
    ∷ ("artist_name", letters 4)
    ∷ ("artist_website", letters 4)
    ∷ ("artist_written_statement", letters 4)
    ∷ ("artwork_title", letters 4)
    ∷ ("artwork_series_name", letters 4)
    ∷ ("artwork_creation_video_youtube_url", letters 4)
    ∷ ("artwork_keyword_set", letters 4)
    ∷ ("total_copies", int_value (pos 10))
    ∷ ("fingerprints", list_value (zeros 512))
    ∷ ("lubyhashes", list_value (one_more (bytes64 5) no_values))
    ∷ ("lubyseeds", list_value (one_more (int_value (pos 77)) no_values))
    ∷ ("thumbnailhash", bytes64 6)
    ∷ []

abbrev signature_items : Dictionary ℤ
signature_items = ("signature", letters 152) ∷ ("pastelid", letters 86) ∷ []

-- Two packages: that of the ticket, and all others, which are signatures.
abbrev wire : Wire
wire = record {
  fl = record { Float = ℤ; below = int_lt; above = λ x n. int_lt n x };
  open_image = λ image. ok tt;
  unpackb = λ packed. ok (if length packed == 1 then ticket_items else signature_items);
  packb = λ items. 1 ∷ [];
  text = λ encoded. if length encoded == 86 then "artist" else "text";
  b64encode = λ bytes. "base64";
  dumps = λ data'. 1 ∷ [];
  text_le = λ a b. true;
}

abbrev cnode : Cnode
cnode = record {
  getrawtransaction = λ called txid.
      if ltb called 2
      then err connection_error
      else ok (some (record { expiryheight = 200; vout = 7 ∷ 500 ∷ [] }));
  getnetworkfee = ok 5000;
  getlocalfee = ok 5000;
  getblockcount = ok 110;
  getbestblockhash = ok "best";
  block_height = λ block. ok 90;
  pastelid = "mn0";
  pastelid_sign = λ data'. ok "signature";
  pastelid_verify = λ data' signature pastelid. ok true;
  masternode_top = λ blocknum. ok [];
  register_art_ticket = λ ticket. ok "txid";
  Float = ℕ;
  times_float = λ fee literal. if str_eq literal "0.09" then fee * 9 else fee * 11;
  float_le = λ x amount. leb x (amount * 100);
  le_float = λ amount x. leb (amount * 100) x;
}

abbrev imaging : Imaging
imaging = record {
  wire = wire;
  luby_floats = record {
    Float = ℕ;
    of_nat = λ n. n;
    tenth = 1;
    half = 1;
    add = λ a b. a + b;
    mul = λ a b. a * b;
    div = λ a b. a / b;
    log = λ a. a;
    sqrt = λ a. a;
    floor = λ a. a;
    lt = λ a b. ltb a b;
  };
  sha3_256 = λ bytes. replicate 32 1;
  sha3_512 = λ bytes. replicate 64 1;
  thumbnail_of = λ image. ok (9 ∷ []);
  random_seed = 5;
}

-- peewee's bytes of a text
abbrev blob : String → Bytes
blob text = replicate (count text) 65

-- The registration, when it was created, when its image is there, and with a first confirmation.
abbrev requested : Regticket
requested = new_regticket 1 (1 ∷ []) (8 ∷ []) (2 ∷ 2 ∷ []) 0 "artist" (3 ∷ [])

abbrev uploaded : Regticket
uploaded = record requested { image_data = some (4 ∷ []); localfee = some 5000 }

abbrev confirmed_once : Regticket
confirmed_once = record uploaded {
  is_valid_mn1 = some true;
  mn1_pk = some "mn1";
  mn1_serialized_signature = some (5 ∷ 5 ∷ []);
}

abbrev node_of : Regticket → Node
node_of r = record {
  regtickets = r ∷ [];
  chunks = [];
  manager = record { storage = []; tmpstorage = [] };
  sent = [];
}

abbrev empty_node : Node
empty_node = record (node_of requested) { regtickets = [] }

abbrev allows : Option Bytes → Result Bool
allows image = ok false

abbrev unchanged : ℕ → Node → Node
unchanged i n = n

abbrev two_confirmations : Events
two_confirmations =
    then_events (confirmation "artist" (3 ∷ []) (5 ∷ 5 ∷ []) "mn1")
      (then_events (confirmation "artist" (3 ∷ []) (6 ∷ 6 ∷ []) "mn2") no_events)

uploaded_row : IsConsistentRow uploaded
unfolding new_regticket
uploaded_row = record {
  first = (tt, tt);
  second = (tt, tt);
  later = tt;
  validated = inl tt;
  uploaded = inr tt;
  status_created = refl;
  no_error = refl;
}

-- Two checks of one registration sleep in turns: the one that began first ends first.
abbrev paid : System
paid = record { node = node_of (record uploaded { is_valid_mn0 = some true }); checks = [] }

two_checks :
    Reach imaging 9 cnode blob allows (record { node = node_of uploaded; checks = [] }) paid
unfolding end_check get_by_code known_upload stovacore.Luby.Codec.same_bytes new_regticket
    save_regticket
two_checks =
    next {t = record paid { checks = uploaded ∷ [] }}
      (next
        (next (next here (begins (8 ∷ []) uploaded refl refl)) (begins (8 ∷ []) uploaded refl refl))
        (ends (uploaded ∷ []) [] uploaded 5000 (500 ∷ []) refl refl))
      (ends [] [] uploaded 5000 (500 ∷ []) refl refl)

Reach-IsSound_example : IsSound imaging 9 cnode blob allows paid
Reach-IsSound_example =
    Reach-IsSound imaging 9 cnode blob allows two_checks ((uploaded_row, tt), tt)

first_test :
    (run imaging 9 cnode blob allows
      (then_events (confirmation "artist" (3 ∷ []) (5 ∷ 5 ∷ []) "mn1") no_events)
      (node_of uploaded)).regtickets
    ≡ confirmed_once ∷ []
unfolding run masternode_mn1_confirm select_tickets new_regticket stovacore.Luby.Codec.same_bytes
    save_regticket
first_test = refl

ticket_test :
    unserialize_registration_ticket wire (1 ∷ [])
    ≡ ok (record {
      author = "artist";
      order_block_txid = "text";
      blocknum = 100;
      imagedata_hash = replicate 64 3;
      total_copies = 10;
      lubyhashes = replicate 64 5 ∷ [];
      lubyseeds = 77 ∷ [];
      thumbnailhash = replicate 64 6;
      serialized = 1 ∷ [];
    })
unfolding unserialize_registration_ticket stovacore.Validators.Models.build_model
    stovacore.Validators.validate stovacore.Ticketing.Models.as_all
ticket_test = refl

regticket_status-run_example :
    Path (Status × Option String) (created_status, none) (created_status, none)
unfolding run masternode_mn1_confirm regticket_status select_tickets new_regticket
    stovacore.Luby.Codec.same_bytes save_regticket
regticket_status-run_example =
    regticket_status-run imaging 9 cnode blob allows
      (then_events (confirmation "artist" (3 ∷ []) (5 ∷ 5 ∷ []) "mn1") no_events) (node_of uploaded)
      (8 ∷ []) "artist" (created_status, none) (uploaded_row, tt) refl

confirm-closed_example :
    let n' =
      (masternode_mn1_confirm imaging 9 cnode blob "artist"
        (3 ∷ [])
        (6 ∷ 6 ∷ [])
        "mn2"
        (node_of confirmed_once)).0 in
    masternode_mn1_confirm imaging 9 cnode blob "artist" (3 ∷ []) (7 ∷ 7 ∷ []) "mn3" n'
    ≡ (n', err exception)
unfolding pick_ticket select_tickets new_regticket stovacore.Luby.Codec.same_bytes
confirm-closed_example =
    confirm-closed imaging 9 cnode blob "artist" (3 ∷ []) confirmed_once true
      (node_of confirmed_once) (6 ∷ 6 ∷ []) "mn2" (7 ∷ 7 ∷ []) "mn3" (refl, tt) refl refl refl

confirm-IsConfirmedTwice_example : IsConfirmedTwice imaging 9 cnode blob "artist" (3 ∷ []) "mn1" (
    (masternode_mn1_confirm imaging 9 cnode blob "artist"
      (3 ∷ [])
      (6 ∷ 6 ∷ [])
      "mn1"
      (masternode_mn1_confirm imaging 9 cnode blob "artist"
        (3 ∷ [])
        (5 ∷ 5 ∷ [])
        "mn1"
        (node_of uploaded)).0).0)
unfolding pick_ticket select_tickets new_regticket stovacore.Luby.Codec.same_bytes
confirm-IsConfirmedTwice_example =
    confirm-IsConfirmedTwice imaging 9 cnode blob "artist" (3 ∷ []) uploaded (node_of uploaded)
      (5 ∷ 5 ∷ []) "mn1" (6 ∷ 6 ∷ []) (refl, tt) refl refl refl

fetch_transaction-answer_example : fetch_transaction wire cnode unchanged 5 0 "burn" empty_node ≡ (
  slept wire cnode unchanged 0 2 empty_node,
  ok (some (record { expiryheight = 200; vout = 7 ∷ 500 ∷ [] }), 3),
)
fetch_transaction-answer_example =
    fetch_transaction-answer wire cnode unchanged 5 2 0 "burn" empty_node
      (some (record { expiryheight = 200; vout = 7 ∷ 500 ∷ [] })) (omega arith)
      (λ i l. (connection_error, ground (arith, l))) refl

fetch_transaction-endless_example :
    fetch_transaction wire cnode unchanged 2 0 "burn" empty_node
    ≡ (slept wire cnode unchanged 0 2 empty_node, err out_of_fuel)
fetch_transaction-endless_example =
    fetch_transaction-endless wire cnode unchanged 2 0 "burn" empty_node
      (λ i l. (connection_error, ground (arith, l)))

payment-without_fee_example :
    masternode_validate_txid_upload_code_image wire cnode unchanged allows 5 "burn"
      (8 ∷ [])
      (node_of requested)
    ≢ (node_of requested, ok "Validation passed")
unfolding get_by_code stovacore.Luby.Codec.same_bytes new_regticket
payment-without_fee_example =
    payment-without_fee wire cnode unchanged allows 5 "burn" (8 ∷ []) (node_of requested) requested
      (node_of requested) "Validation passed" refl refl

-- While the check sleeps the first confirmation comes; after the check it is gone.
abbrev first_comes : ℕ → Node → Node
first_comes i n = record n { regtickets = save_regticket confirmed_once n.regtickets }

burn-columns_example :
    All
      (λ q. q.id ≡ 1 → q ≡ record uploaded { is_valid_mn0 = some true })
      (node_of (record uploaded { is_valid_mn0 = some true })).regtickets
unfolding is_burn_tx_valid save_regticket unserialize_registration_ticket
    stovacore.Validators.Models.build_model new_regticket stovacore.Validators.validate
    stovacore.Ticketing.Models.as_all
burn-columns_example =
    burn-columns wire cnode first_comes 5 uploaded "burn" (node_of uploaded)
      (node_of (record uploaded { is_valid_mn0 = some true })) 5000 refl refl

image_upload-Uploads_example :
    Uploads wire cnode "artist" (8 ∷ []) (4 ∷ []) (node_of requested) (
      masternode_image_upload_request_mn0 wire cnode (8 ∷ []) (4 ∷ []) "artist" (node_of requested))
image_upload-Uploads_example =
    image_upload-Uploads wire cnode "artist" (8 ∷ []) (4 ∷ []) (node_of requested)

registration-Registers_example :
    Registers wire cnode (8 ∷ []) 0 (1 ∷ []) (2 ∷ 2 ∷ []) "artist" empty_node (
      masternode_validate_registration_ticket wire cnode
        (8 ∷ [])
        0
        (1 ∷ [])
        (2 ∷ 2 ∷ [])
        "artist"
        empty_node)
registration-Registers_example =
    registration-Registers wire cnode (8 ∷ []) 0 (1 ∷ []) (2 ∷ 2 ∷ []) "artist" empty_node

registration_test :
    masternode_validate_registration_ticket wire cnode
      (8 ∷ [])
      0
      (1 ∷ [])
      (2 ∷ 2 ∷ [])
      "artist"
      empty_node
    ≡ (
      node_of (new_regticket 1 (1 ∷ []) (8 ∷ []) (2 ∷ 2 ∷ []) 0 "artist" (replicate 64 3)),
      ok (8 ∷ []),
    )
unfolding masternode_validate_registration_ticket unserialize_registration_ticket
    stovacore.Validators.Models.build_model stovacore.Validators.validate
    stovacore.Ticketing.Models.as_all stovacore.Ticketing.Models.unserialize_signature
    stovacore.Validators.Tickets.require_true stovacore.Validators.Tickets.validate_signature
    stovacore.Validators.Tickets.validate_registration_ticket stovacore.Ticketing.create_regticket
    get_by_code stovacore.Ticketing.next_id
registration_test = refl
