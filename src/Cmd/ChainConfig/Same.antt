-- ===== src/Cmd/ChainConfig/Same.antt =====
-- The configurations of the two programs are the same.
use silkoroutine.Common.{ℕ, ◌≡◌, arith}
use mathlib.Core.Option
use silkoroutine.Cmd.ChainConfig.{ChainConfig, lookup_chain_config}
use silkoroutine.Cmd.ChainConfig.Async

-- The copy of a configuration.
abbrev pub copy : ChainConfig → Async.ChainConfig
copy c = record {
  genesis_hash = c.genesis_hash;
  chain_id = c.chain_id;
  homestead_block = c.homestead_block;
  tangerine_whistle_block = c.tangerine_whistle_block;
  spurious_dragon_block = c.spurious_dragon_block;
  byzantium_block = c.byzantium_block;
  constantinople_block = c.constantinople_block;
  petersburg_block = c.petersburg_block;
  istanbul_block = c.istanbul_block;
  muir_glacier_block = c.muir_glacier_block;
  berlin_block = c.berlin_block;
  dao_block = c.dao_block;
}

pub lookup_async : (i : ℕ) → Async.lookup_chain_config i ≡ Option.map copy (lookup_chain_config i)
unfolding Async.lookup_chain_config lookup_chain_config
lookup_async i = ground arith
