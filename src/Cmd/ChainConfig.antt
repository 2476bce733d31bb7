-- ===== src/Cmd/ChainConfig.antt =====
-- The chain configurations of cmd/sentry_set_status.cpp. A `const char*` that is null until it is
-- set is the empty text here, and is always set.
pub mod Async
pub mod Same
pub mod Forks
use silkoroutine.Common.{ℕ, Bool, false, Bytes, codes, Option, none, some, leb, ◌==◌, if◌then◌else◌}

pub record ChainConfig : Type 0 where
  pub genesis_hash : Bytes
  pub chain_id : ℕ
  pub homestead_block : Option ℕ
  pub tangerine_whistle_block : Option ℕ
  pub spurious_dragon_block : Option ℕ
  pub byzantium_block : Option ℕ
  pub constantinople_block : Option ℕ
  pub petersburg_block : Option ℕ
  pub istanbul_block : Option ℕ
  pub muir_glacier_block : Option ℕ
  pub berlin_block : Option ℕ
  pub dao_block : Option ℕ

-- `block.has_value() && block <= block_num`.
abbrev pub reached : Option ℕ → ℕ → Bool
reached none block_num = false
reached (some b) block_num = leb b block_num

abbrev pub has_homestead : ChainConfig → ℕ → Bool
has_homestead c block_num = reached c.homestead_block block_num

abbrev pub has_tangerine_whistle : ChainConfig → ℕ → Bool
has_tangerine_whistle c block_num = reached c.tangerine_whistle_block block_num

abbrev pub has_spurious_dragon : ChainConfig → ℕ → Bool
has_spurious_dragon c block_num = reached c.spurious_dragon_block block_num

abbrev pub has_byzantium : ChainConfig → ℕ → Bool
has_byzantium c block_num = reached c.byzantium_block block_num

abbrev pub has_constantinople : ChainConfig → ℕ → Bool
has_constantinople c block_num = reached c.constantinople_block block_num

abbrev pub has_petersburg : ChainConfig → ℕ → Bool
has_petersburg c block_num = reached c.petersburg_block block_num

abbrev pub has_istanbul : ChainConfig → ℕ → Bool
has_istanbul c block_num = reached c.istanbul_block block_num

abbrev pub has_muir_glacier : ChainConfig → ℕ → Bool
has_muir_glacier c block_num = reached c.muir_glacier_block block_num

abbrev pub has_berlin : ChainConfig → ℕ → Bool
has_berlin c block_num = reached c.berlin_block block_num

abbrev pub mainnet_config : ChainConfig
mainnet_config = record {
  genesis_hash = codes "d4e56740f876aef8c010b86a40d5f56745a118d0906a34e69aec8c0db1cb8fa3";
  chain_id = 1;
  homestead_block = some 1_150_000;
  tangerine_whistle_block = some 2_463_000;
  spurious_dragon_block = some 2_675_000;
  byzantium_block = some 4_370_000;
  constantinople_block = some 7_280_000;
  petersburg_block = some 7_280_000;
  istanbul_block = some 9_069_000;
  muir_glacier_block = some 9_200_000;
  berlin_block = some 12_244_000;
  dao_block = some 1_920_000;
}

abbrev pub ropsten_config : ChainConfig
ropsten_config = record {
  genesis_hash = codes "0x";
  chain_id = 3;
  homestead_block = some 0;
  tangerine_whistle_block = some 0;
  spurious_dragon_block = some 10;
  byzantium_block = some 1_700_000;
  constantinople_block = some 4_230_000;
  petersburg_block = some 4_939_394;
  istanbul_block = some 6_485_846;
  muir_glacier_block = some 7_117_117;
  berlin_block = some 9_812_189;
  dao_block = none;
}

abbrev pub goerli_config : ChainConfig
goerli_config = record {
  genesis_hash = codes "0x";
  chain_id = 5;
  homestead_block = some 0;
  tangerine_whistle_block = some 0;
  spurious_dragon_block = some 0;
  byzantium_block = some 0;
  constantinople_block = some 0;
  petersburg_block = some 0;
  istanbul_block = some 1_561_651;
  muir_glacier_block = none;
  berlin_block = some 4_460_644;
  dao_block = none;
}

abbrev pub classic_mainnet_config : ChainConfig
classic_mainnet_config = record {
  genesis_hash = codes "0x";
  chain_id = 61;
  homestead_block = some 1_150_000;
  tangerine_whistle_block = some 2_500_000;
  spurious_dragon_block = some 8_772_000;
  byzantium_block = some 8_772_000;
  constantinople_block = some 9_573_000;
  petersburg_block = some 9_573_000;
  istanbul_block = some 10_500_839;
  muir_glacier_block = none;
  berlin_block = none;
  dao_block = none;
}

-- The `switch`; `none` is the null pointer.
unfoldable pub lookup_chain_config : ℕ → Option ChainConfig
lookup_chain_config chain_id =
    if chain_id == mainnet_config.chain_id
    then some mainnet_config
    else if chain_id == ropsten_config.chain_id
    then some ropsten_config
    else if chain_id == goerli_config.chain_id
    then some goerli_config
    else if chain_id == classic_mainnet_config.chain_id
    then some classic_mainnet_config
    else none
