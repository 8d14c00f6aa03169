-- ===== src/Luby/Verify.antt =====
-- `get_seeds` and `verify_blocks` of core_modules/blackbox_modules/luby.py.
use stovacore.Prelude.{ℕ, List, [], ◌∷◌, length, contains, ◌==◌, if◌then◌else◌}
use stovacore.Prelude.Result.{Result, ok, err, value_error, ◌>>=◌}
use stovacore.Prelude.Bytes.{Bytes}
use stovacore.Luby.Block.{parse_block}

-- `get_seeds`
unfoldable pub get_seeds : List Bytes → Result (List ℕ)
get_seeds [] = ok []
get_seeds (block ∷ blocks) = do b ← parse_block block; seeds ← get_seeds blocks; ok (b.seed ∷ seeds)

-- `set.add`
unfoldable pub add_new : ℕ → List ℕ → List ℕ
add_new n set = if contains n set then set else n ∷ set

-- the sets of seeds, block sizes and data lengths that `verify_blocks` collects
pub record Seen : Type 0 where
  pub seeds : List ℕ
  pub block_sizes : List ℕ
  pub data_lengths : List ℕ

unfoldable pub collect : List Bytes → Seen → Result Seen
unfolding add_new
collect [] seen = ok seen
collect (block ∷ blocks) seen = do
  b ← parse_block block
  collect blocks (record {
    seeds = add_new b.seed seen.seeds;
    block_sizes = add_new b.block_size seen.block_sizes;
    data_lengths = add_new b.data_length seen.data_lengths;
  })

unfoldable pub verify_blocks : List Bytes → Result (Unit {0})
unfolding collect
verify_blocks blocks = do
  seen ← collect blocks (record { seeds = []; block_sizes = []; data_lengths = [] })
  if length seen.seeds == length blocks
      then (if length seen.data_lengths == 1
          then (if length seen.block_sizes == 1 then ok tt else err value_error)
          else err value_error)
      else err value_error
