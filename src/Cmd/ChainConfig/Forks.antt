-- ===== src/Cmd/ChainConfig/Forks.antt =====
-- The four configurations against the order of the hard forks.
use silkoroutine.Common.{ℕ, Bool, true, not, ◌||◌, ◌≡◌}
use silkoroutine.Cmd.ChainConfig.{
  ChainConfig, has_homestead, has_tangerine_whistle, has_spurious_dragon, has_byzantium,
  has_constantinople, has_petersburg, has_istanbul, has_muir_glacier, has_berlin,
}
use silkoroutine.Cmd.ChainConfig.Async
use mathlib.Core.Option

abbrev pub implies : Bool → Bool → Bool
implies a b = not a || b

-- At a block number, a fork is in force only if those before it are.
pub record InOrder (c : ChainConfig) (n : ℕ) : Type 0 where
  pub berlin : implies (has_berlin c n) (has_istanbul c n) ≡ true
  pub muir_glacier : implies (has_muir_glacier c n) (has_istanbul c n) ≡ true
  pub istanbul : implies (has_istanbul c n) (has_petersburg c n) ≡ true
  pub petersburg : implies (has_petersburg c n) (has_constantinople c n) ≡ true
  pub constantinople : implies (has_constantinople c n) (has_byzantium c n) ≡ true
  pub byzantium : implies (has_byzantium c n) (has_spurious_dragon c n) ≡ true
  pub spurious_dragon : implies (has_spurious_dragon c n) (has_tangerine_whistle c n) ≡ true
  pub tangerine_whistle : implies (has_tangerine_whistle c n) (has_homestead c n) ≡ true

-- At a block number, a fork of a configuration of the other program is in force only if those
-- before it are.
pub record InOrderAsync (c : Async.ChainConfig) (n : ℕ) : Type 0 where
  pub berlin : implies (Async.has_berlin c n) (Async.has_istanbul c n) ≡ true
  pub muir_glacier : implies (Async.has_muir_glacier c n) (Async.has_istanbul c n) ≡ true
  pub istanbul : implies (Async.has_istanbul c n) (Async.has_petersburg c n) ≡ true
  pub petersburg : implies (Async.has_petersburg c n) (Async.has_constantinople c n) ≡ true
  pub constantinople : implies (Async.has_constantinople c n) (Async.has_byzantium c n) ≡ true
  pub byzantium : implies (Async.has_byzantium c n) (Async.has_spurious_dragon c n) ≡ true
  pub spurious_dragon :
      implies (Async.has_spurious_dragon c n) (Async.has_tangerine_whistle c n) ≡ true
  pub tangerine_whistle : implies (Async.has_tangerine_whistle c n) (Async.has_homestead c n) ≡ true
